-- ===== src/Bouncer/Thread/Setup.antt =====
-- src/UDPEchoBouncerThread.cpp: the socket of a worker, from `bind` to the destructor.
use udppingpong.Base.{
  none, some, List, [], ◌∷◌, ◌++◌, ◌≡◌, if◌then◌else◌, ◌↔◌, arith, true, ◌≢◌, ◌+◌,
}
use udppingpong.Base.Int.{ℤ, pos, ◌*ℤ◌}
use udppingpong.Exception.{could_not_bind_to_interface, Thrown, throw, done, could_not_open_socket}
use udppingpong.Socket.{Call, Answers, is_set, close_if_set}
use udppingpong.Socket.Descriptors.{held, opened, closed}
use udppingpong.Bouncer.Thread.{Thread}

-- A worker, the calls made and how it ended.
pub record Bound (D A : Type 0) : Type 0 where
  pub thread : Thread D
  pub calls : List (Call A)
  pub outcome : Thrown

-- From `getsockopt` on.
unfoldable pub enlarge_rcvbuf : {A : Type 0} → ℤ → Answers → List (Call A) × Thrown
enlarge_rcvbuf fd os = elim os.rcvbuf [
  | some size ↦ (Call.get_rcvbuf fd (some size) ∷ Call.set_rcvbuf fd (size *ℤ pos 2) ∷ [], done)
  | none ↦ (Call.get_rcvbuf fd none ∷ [], throw (could_not_bind_to_interface os.rcvbuf_errno))
]

-- From `::bind` on.
unfoldable pub bind_address : {A : Type 0} → ℤ → A → Answers → List (Call A) × Thrown
unfolding enlarge_rcvbuf
bind_address fd address os = elim os.bind [
  | some errno ↦ (Call.bind fd address ∷ [], throw (could_not_bind_to_interface errno))
  | none ↦
      let rest = enlarge_rcvbuf fd os in
      (Call.bind fd address ∷ Call.non_blocking fd ∷ rest.0, rest.1)
]

module _ {D A : Type 0} where
  -- `bind`: the descriptor is replaced first, whatever happens afterwards.
  unfoldable pub bind : A → Answers → Thread D → Bound D A
  unfolding bind_address
  bind address os t =
      let fd = os.socket in
      let t' = record t { sockfd = fd } in
      let before = close_if_set t.sockfd ++ Call.socket fd ∷ [] in
      let rest = bind_address fd address os in
      if is_set fd
      then record {
        thread = t';
        calls = before ++ Call.reuse_addr fd ∷ Call.reuse_port fd ∷ rest.0;
        outcome = rest.1;
      }
      else record { thread = t'; calls = before; outcome = throw could_not_open_socket }

-- The destructor.
unfoldable pub destroy : {D A : Type 0} → Thread D → List (Call A)
destroy t = close_if_set t.sockfd

module _ {D A : Type 0} where
  -- `bind` succeeds exactly when the socket is not 0, the address can be bound and the size of the
  -- receive buffer can be read. The worker has the new descriptor, also after a failure, and
  -- otherwise stays as it was.
  bind_done_iff :
      (a : A) (os : Answers) (t : Thread D)
      → ((bind a os t).outcome ≡ done)
        ↔ ((is_set os.socket ≡ true) × (os.bind ≡ none) × (os.rcvbuf ≢ none))
  unfolding bind
  bind_done_iff a os t = (λ h. ground arith, λ h. ground arith)

  pub bind-thread :
      (a : A) (os : Answers) (t : Thread D) → (bind a os t).thread ≡ record t { sockfd = os.socket }
  unfolding bind
  bind-thread a os t = ground arith

  -- No descriptor is lost by `bind` and the destructor: with every descriptor that was open before
  -- counted in, each is closed as often as it was opened, whether `bind` throws or not. (A socket
  -- of number 0 is taken for a failure and left open.)
  bind-destroy_balance :
      (a : A) (os : Answers) (t : Thread D) (fd : ℤ)
      → is_set os.socket ≡ true
      → let b = bind a os t in
        held fd t.sockfd + opened fd b.calls ≡ closed fd (b.calls ++ destroy b.thread)
  unfolding bind destroy
  bind-destroy_balance a os t fd s = ground arith
