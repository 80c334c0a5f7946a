-- ===== src/Bouncer/Thread/Replies.antt =====
-- What a worker sends back.
use udppingpong.Base.{
  ℕ, ◌+◌, ◌≤◌, ◌≡◌, ◌⊎◌, refl, List, [], ◌∷◌, map, arith, leb, ◌==◌, if◌then◌else◌, ◌++◌, All,
  false, Bool-cases, true, inl, map-append, inr, ◌||◌, ◌&&◌, Bool, ◌∙◌, ap,
}
use udppingpong.Bouncer.Thread.{
  Thread, Pass, Syscall, set_packet_size, buffer_size, reply, count, handle, loop, run,
}
use udppingpong.Bouncer.Thread.Trace.{packets, sends, sends-append, packets-append}

-- The sizes that `setPacketSize` lets through.
abbrev pub IsPacketSize : ℕ → Type 0
IsPacketSize n = (n ≡ 0) ⊎ ((32 ≤ n) × (n ≤ buffer_size))

module _ {D : Type 0} where
  -- A size from 32 to 4096 or 0 is set, any other is ignored, so a valid worker stays valid; no
  -- other field is touched.
  set_packet_size-IsPacketSize :
      (n : ℕ) (t : Thread D)
      → IsPacketSize t.packet_size
      → IsPacketSize (set_packet_size n t).packet_size
        × ((IsPacketSize n × (set_packet_size n t ≡ record t { packet_size = n }))
            ⊎ ((¬ IsPacketSize n) × (set_packet_size n t ≡ t)))
  unfolding set_packet_size
  set_packet_size-IsPacketSize n t v =
      elim (Bool-cases (n == 0 || (leb 32 n && leb n buffer_size))) [
        | inl h ↦ (ground arith, inl (ground arith, ground arith))
        | inr h ↦ (ground arith, inr ((λ k. ground arith), ground arith))
      ]

  abbrev pub IsSetUpAs : Thread D → Thread D → Type 0
  IsSetUpAs t u = (u.no_echo ≡ t.no_echo) × (u.packet_size ≡ t.packet_size)

module _ {D A : Type 0} where
  -- The packet that answers one of n bytes.
  abbrev pub answer : Thread D → ℕ × A → ℕ × A
  answer t (n, from) = (if t.packet_size == 0 then n else t.packet_size, from)

  handle-setup : (t : Thread D) (p : Pass A) → IsSetUpAs t (handle t p).0
  unfolding handle count
  handle-setup t p = ground arith

  -- `run` leaves the configuration of the worker alone.
  loop-setup : (t : Thread D) (next : ℕ) (ps : List (Pass A)) → IsSetUpAs t (loop t next ps).thread
  unfolding loop
  loop-setup t next [] = (refl, refl)
  loop-setup t next (p ∷ ps) = ground (
    arith,
    handle-setup t p,
    loop-setup (handle t p).0 (if leb next p.clock then next + 1 else next) ps,
  )

  abbrev Answered : Thread D → List (Syscall A) → Type 0
  Answered t cs = sends cs ≡ (if t.no_echo then [] else map (answer t) (packets cs))

  handle-Answered : (t : Thread D) (p : Pass A) → Answered t (handle t p).1
  unfolding handle reply
  handle-Answered t p = ground arith

  answer_same :
      (t u : Thread D) (ps : List (ℕ × A)) → IsSetUpAs t u → map (answer u) ps ≡ map (answer t) ps
  answer_same t u [] s = refl
  answer_same t u (p ∷ ps) s = ground (arith, answer_same t u ps s)

  Answered-append :
      (t u : Thread D) (cs ds : List (Syscall A))
      → IsSetUpAs t u
      → Answered t cs
      → Answered u ds
      → Answered t (cs ++ ds)
  Answered-append t u cs ds s h k =
      rw (sends-append cs ds, packets-append cs ds, map-append (answer t) (packets cs) (packets ds))
        (ground (arith, answer_same t u (packets ds) s))

  loop-Answered : (t : Thread D) (next : ℕ) (ps : List (Pass A)) → Answered t (loop t next ps).calls
  unfolding loop
  loop-Answered t next [] = ground arith
  loop-Answered t next (p ∷ ps) =
      let u = (handle t p).0 in
      let next' = if leb next p.clock then next + 1 else next in
      let both =
        Answered-append t u (handle t p).1 (loop u next' ps).calls (handle-setup t p)
          (handle-Answered t p) (loop-Answered u next' ps) in
      ground (arith, both, handle-Answered t p)

  -- With answers switched on, the packets that `run` sends are, in order, one for each packet
  -- received, to the address that it came from, of its size or of the fixed size if one is set;
  -- with answers switched off nothing is sent.
  pub run-sends :
      (t : Thread D) (start : ℕ) (ps : List (Pass A))
      → let cs = (run t start ps).calls in
        sends cs ≡ (if t.no_echo then [] else map (answer t) (packets cs))
  unfolding run
  run-sends t start ps = loop-Answered t (start + 1) ps

  -- The two cases of it.
  pub sends_by :
      (t : Thread D) (start : ℕ) (ps : List (Pass A)) (b : Bool)
      → t.no_echo ≡ b
      → let cs = (run t start ps).calls in
        sends cs ≡ (if b then [] else map (answer t) (packets cs))
  sends_by t start ps b e =
      run-sends t start ps
      ∙ ap (λ (c : Bool). if c then [] else map (answer t) (packets (run t start ps).calls)) e

  answers_fit :
      (t : Thread D) (ps : List (ℕ × A))
      → IsPacketSize t.packet_size
      → All (λ p. p.0 ≤ buffer_size) ps
      → All (λ p. p.0 ≤ buffer_size) (map (answer t) ps)
  answers_fit t [] v h = tt
  answers_fit t (p ∷ ps) v h = (ground arith, answers_fit t ps v h.1)

  -- If `recvfrom` writes at most the 4096 bytes that it is given room for and the packet size is one
  -- that `setPacketSize` lets through, no `sendto` reads past the end of the buffer.
  pub run-sends_fit :
      (t : Thread D) (start : ℕ) (ps : List (Pass A))
      → IsPacketSize t.packet_size
      → All (λ p. p.0 ≤ buffer_size) (packets (run t start ps).calls)
      → All (λ p. p.0 ≤ buffer_size) (sends (run t start ps).calls)
  run-sends_fit t start ps v h = elim (Bool-cases t.no_echo) [
    | inl off ↦ rw (sends_by t start ps true off) tt
    | inr on ↦ rw (sends_by t start ps false on) (answers_fit t _ v h)
  ]
