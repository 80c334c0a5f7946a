-- ===== src/Sender/Program/Prepare.antt =====
-- src/sender.cpp: `prepareThreads`.
use mathlib.Core.List.{Perm}
use mathlib.Core.List.Perm
use udppingpong.Base.{
  ℕ, zero, suc, ◌+◌, Bool, true, false, Option, List, [], ◌∷◌, ◌≡◌, arith, length, get_or, All, ap,
  refl, ◌∙◌,
}
use udppingpong.Base.Int.{ℤ, pos_part, pos}
use udppingpong.Double.{Double}
use udppingpong.Exception.{Result, Thrown, done, ok, ◌>>=◌, ok_parts}
use udppingpong.Socket.{is_set}
use udppingpong.Sender.Thread.{
  Packet, SenderThread, create, set_packetsize, set_runtime, set_timeout, set_zeitscheibe,
  set_ignore_responses, set_verbose, set_always_randomize,
}
use udppingpong.Sender.Thread.Connect.{
  new_sender, BufferAnswers, parse_destination, connect, set_source_ip,
}
use udppingpong.Sender.Program.{Settings, next_source}

-- The strings of ppl7, its resolver and the system's: `S` is the type of strings, `Ip` that of IP
-- addresses and `A` that of socket addresses.
pub record Net (S Ip A : Type 0) : Type 0 where
  pub is_empty : S → Bool
  pub tokens : S → List S
  pub to_int : S → ℤ
  pub size : S → ℕ
  pub service : S → Option ℕ
  pub resolve : S → List Ip
  pub sock_addr : Ip → ℤ → A
  pub addresses : S → ℤ → Result (A × List A)

-- What the calls for a thread answer. The pool is a set of pointers in the order of their values, so
-- where a thread stands in it is up to `new`: `place` is the number of threads created after this one
-- that stand before it.
pub record ThreadAnswers (A : Type 0) : Type 0 where
  pub socket : ℤ
  pub bound : Option ℕ
  pub refuses : A → Option ℕ
  pub buffer : BufferAnswers
  pub place : ℕ

module _ {S Ip A : Type 0} (net : Net S Ip A) where
  -- `connect(Ziel)`
  unfoldable pub connect_to : S → ThreadAnswers A → Thrown
  unfolding parse_destination connect
  connect_to ziel os =
      parse_destination net.to_int net.size net.service (net.is_empty ziel) (net.tokens ziel)
      >>= λ hp. (connect (net.addresses hp.0 hp.1) os.refuses os.buffer).outcome

module _ {D S : Type 0} ⦃d : Double D⦄ where
  -- The settings of a new thread.
  unfoldable pub configure : Settings D S → SenderThread D → Result (SenderThread D)
  unfolding set_packetsize set_runtime set_timeout set_zeitscheibe set_ignore_responses set_verbose
      set_always_randomize
  configure s t =
      set_zeitscheibe s.zeitscheibe
        (set_timeout s.timeout (set_runtime s.laufzeit (set_packetsize (pos_part s.packetsize) t)))
      >>= λ u. ok (
          set_always_randomize s.always_randomize
            (set_verbose false (set_ignore_responses s.ignore_responses u)))

module _ {D S Ip A : Type 0} (net : Net S Ip A) where
  -- The source address of a thread, if there are any, of which number si is next.
  unfoldable pub bind_source : Settings D S → ℕ → ThreadAnswers A → Thrown
  unfolding set_source_ip
  bind_source s si os = elim (s.source_ip_list) [
    | [] ↦ done
    | ip ∷ ips ↦
        set_source_ip net.sock_addr (net.resolve (get_or (ip ∷ ips) si ip)) os.bound >>= λ a. done
  ]

-- `addThread`, at a place in the order of the pool.
unfoldable pub add_thread_at : {X : Type 0} → ℕ → X → List X → List X
add_thread_at zero x xs = x ∷ xs
add_thread_at (suc i) x [] = x ∷ []
add_thread_at (suc i) x (y ∷ ys) = y ∷ add_thread_at i x ys

module _ {X : Type 0} where
  length-add_thread_at :
      (i : ℕ) (x : X) (xs : List X) → length (add_thread_at i x xs) ≡ suc (length xs)
  unfolding add_thread_at
  length-add_thread_at zero x xs = refl
  length-add_thread_at (suc i) x [] = refl
  length-add_thread_at (suc i) x (y ∷ ys) = ap suc (length-add_thread_at i x ys)

  All-add_thread_at :
      (P : X → Type 0) (i : ℕ) (x : X) (xs : List X) → P x → All P xs → All P (add_thread_at i x xs)
  unfolding add_thread_at
  All-add_thread_at P zero x xs one all = (one, all)
  All-add_thread_at P (suc i) x [] one all = (one, tt)
  All-add_thread_at P (suc i) x (y ∷ ys) one (first, all) =
      (first, All-add_thread_at P i x ys one all)

  pub add_thread_at-perm : (i : ℕ) (x : X) (xs : List X) → Perm (add_thread_at i x xs) (x ∷ xs)
  unfolding add_thread_at
  add_thread_at-perm zero x xs = Perm.refl (x ∷ xs)
  add_thread_at-perm (suc i) x [] = Perm.refl (x ∷ [])
  add_thread_at-perm (suc i) x (y ∷ ys) =
      Perm.trans (Perm.cons y (add_thread_at-perm i x ys)) (Perm.swap x y ys)

module _ {D S Ip A : Type 0} ⦃d : Double D⦄ (net : Net S Ip A) where
  -- The pool after the loop, with `n` threads to go.
  unfoldable pub prepare_from :
      ℕ → ℕ → ℕ → Packet D → (ℕ → ThreadAnswers A) → Settings D S → Result (List (SenderThread D))
  unfolding new_sender configure bind_source connect_to add_thread_at
  prepare_from zero i si empty os s = ok []
  prepare_from (suc n) i si empty os s =
      let rest = prepare_from n (i + 1) (next_source si (length s.source_ip_list)) empty os s in
      new_sender empty (os i).socket >>= λ made. configure s made >>= λ t.
      bind_source net s si (os i) >>= λ b.
      connect_to net s.ziel (os i) >>= λ c. rest >>= λ ts. ok (add_thread_at (os i).place t ts)

  unfoldable pub prepare_threads :
      Packet D → (ℕ → ThreadAnswers A) → Settings D S → Result (List (SenderThread D))
  unfolding prepare_from
  prepare_threads empty os s = prepare_from (pos_part s.thread_count) 0 0 empty os s

module _ {D : Type 0} ⦃d : Double D⦄ where
  pub new_sender-socket :
      (empty : Packet D) (fd : ℤ) (t : SenderThread D)
      → new_sender empty fd ≡ ok t
      → (t.sockfd ≡ fd) × (is_set fd ≡ true) × (is_set t.sockfd ≡ true)
  unfolding new_sender create
  new_sender-socket empty fd t e = (ground (arith, e), ground (arith, e), ground (arith, e))

module _ {D S : Type 0} ⦃d : Double D⦄ where
  open d use {of_int, div}

  -- A thread that does what the settings say.
  pub record IsPrepared (s : Settings D S) (t : SenderThread D) : Type 0 where
    pub packetsize : t.packetsize ≡ pos_part s.packetsize
    pub runtime : t.runtime ≡ s.laufzeit
    pub timeout : t.timeout ≡ s.timeout
    pub zeitscheibe : t.zeitscheibe ≡ div s.zeitscheibe (of_int (pos 1000))
    pub ignore_responses : t.ignore_responses ≡ s.ignore_responses
    pub always_randomize : t.always_randomize ≡ s.always_randomize
    pub socket : is_set t.sockfd ≡ true

  configure-IsPrepared :
      (s : Settings D S) (t u : SenderThread D)
      → is_set t.sockfd ≡ true
      → configure s t ≡ ok u
      → IsPrepared s u
  unfolding configure
  configure-IsPrepared s t u open_socket e = record {
    packetsize = ground (arith, e);
    runtime = ground (arith, e);
    timeout = ground (arith, e);
    zeitscheibe = ground (arith, e);
    ignore_responses = ground (arith, e);
    always_randomize = ground (arith, e);
    socket = ground (arith, open_socket, e);
  }

module _ {D S Ip A : Type 0} ⦃d : Double D⦄ (net : Net S Ip A) where
  prepare_from-IsPrepared :
      (n i si : ℕ) (empty : Packet D) (os : ℕ → ThreadAnswers A) (s : Settings D S)
      (ts : List (SenderThread D))
      → prepare_from net n i si empty os s ≡ ok ts
      → (length ts ≡ n) × All (IsPrepared s) ts
  unfolding prepare_from
  prepare_from-IsPrepared zero i si empty os s [] e = (refl, tt)
  prepare_from-IsPrepared zero i si empty os s (t ∷ ts) e = ground arith
  prepare_from-IsPrepared (suc n) i si empty os s ts e =
      let next = next_source si (length s.source_ip_list) in
      let (new, opened, e0) = ok_parts (new_sender empty (os i).socket) _ ts e in
      let (t, made, e1) = ok_parts (configure s new) _ ts e0 in
      let (b, bound, e2) = ok_parts (bind_source net s si (os i)) _ ts e1 in
      let (c, connected, e3) = ok_parts (connect_to net s.ziel (os i)) _ ts e2 in
      let (us, rest, e4) = ok_parts (prepare_from net n (i + 1) next empty os s) _ ts e3 in
      let (count, all) = prepare_from-IsPrepared n (i + 1) next empty os s us rest in
      let prepared =
        configure-IsPrepared s new t (new_sender-socket empty (os i).socket new opened).2 made in
      let k = (os i).place in
      let same : add_thread_at k t us ≡ ts = ground (arith, e4) in
      rw (← same) (
        length-add_thread_at k t us ∙ ap suc count,
        All-add_thread_at (IsPrepared s) k t us prepared all,
      )

  -- If `prepareThreads` does not throw, there are as many threads as asked for, each with the packet
  -- size, the running time, the timeout, the slice and the flags of the settings, and a socket.
  pub prepare_threads_lem :
      (empty : Packet D) (os : ℕ → ThreadAnswers A) (s : Settings D S) (ts : List (SenderThread D))
      → prepare_threads net empty os s ≡ ok ts
      → (length ts ≡ pos_part s.thread_count) × All (IsPrepared s) ts
  unfolding prepare_threads
  prepare_threads_lem empty os s ts e =
      prepare_from-IsPrepared (pos_part s.thread_count) 0 0 empty os s ts e
