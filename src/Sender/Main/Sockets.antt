-- ===== src/Sender/Main/Sockets.antt =====
-- The sockets that `prepareThreads` opens, through all loads.
use mathlib.Core.List.{Perm}
use mathlib.Core.List.Perm
use udppingpong.Base.{
  ℕ, zero, suc, ◌+◌, ◌≡◌, refl, true, false, All, List, [], ◌∷◌, ◌++◌, map, length, concat, some,
  arith, ap, inl, inr, Option-cases, Bool-cases, ◌∙◌,
}
use udppingpong.Base.Int.{ℤ}
use udppingpong.Double.{Double}
use udppingpong.Exception.{ok, Result-cases, ok_parts}
use udppingpong.Socket.{Call, close, close_if_set, is_set}
use udppingpong.Sender.Thread.{Packet, SenderThread, set_query_rate}
use udppingpong.Sender.Thread.Run.{RunAnswers, run_sender}
use udppingpong.Sender.Thread.Run.Settings.{run_sender-settings}
use udppingpong.Sender.Thread.Connect.{new_sender, destroy_sender}
use udppingpong.Sender.Program.{Settings, next_source}
use udppingpong.Sender.Program.Prepare.{
  new_sender-socket, ThreadAnswers, Net, configure, bind_source, connect_to, prepare_from,
  add_thread_at, add_thread_at-perm,
}
use udppingpong.Sender.Session.{LoadAnswers, Ending, exit_code, run_load, run_rates}
use udppingpong.Sender.Session.Rates.{run_load-interrupted}
use udppingpong.Sender.Session.Kept.{run_load-kept}
use udppingpong.Sender.Results.{Results, get_results}
use udppingpong.Sender.Main.{pool_of}

-- The sockets of n threads, from number i on.
abbrev pub sockets : {A : Type 0} → (ℕ → ThreadAnswers A) → ℕ → ℕ → List ℤ
sockets os zero i = []
sockets os (suc n) i = (os i).socket ∷ sockets os n (i + 1)

module _ {D : Type 0} where
  abbrev pub socket_of : SenderThread D → ℤ
  socket_of t = t.sockfd

-- Each of these descriptors closed, once.
abbrev pub close_all : {A : Type 0} → List ℤ → List (Call A)
close_all fds = map (λ fd. close fd) fds

-- The calls of `close` when the threads are destroyed.
abbrev pub closing : {D A : Type 0} → List (SenderThread D) → List (Call A)
closing ts = concat (map destroy_sender ts)

module _ {D A : Type 0} where
  pub closing-sockets :
      (ts : List (SenderThread D))
      → closing {A = A} ts ≡ concat (map close_if_set (map socket_of ts))
  unfolding destroy_sender
  closing-sockets [] = refl
  closing-sockets (t ∷ ts) = ap (λ cs. close_if_set t.sockfd ++ cs) (closing-sockets ts)

  -- Threads that have a socket close it.
  pub closing-all :
      (ts : List (SenderThread D))
      → All (λ t. is_set t.sockfd ≡ true) ts
      → concat (map close_if_set (map socket_of ts)) ≡ close_all {A = A} (map socket_of ts)
  closing-all [] all = refl
  closing-all (t ∷ ts) (one, all) = rw one (ap (λ cs. close t.sockfd ∷ cs) (closing-all ts all))

module _ {D : Type 0} ⦃d : Double D⦄ where
  -- A run leaves the socket alone, and so do all loads.
  run_sender-socket :
      (a : RunAnswers D) (t u : SenderThread D) (sent : List (Packet D))
      → run_sender a t ≡ ok (some (u, sent))
      → u.sockfd ≡ t.sockfd
  run_sender-socket a t u sent e = ap (λ s. s.1.1) (run_sender-settings a t u sent e)

  pub run_rates-sockets :
      (i : ℕ) (answers : ℕ → LoadAnswers D) (n : ℤ) (rates : List ℤ) (results : Results D)
      (ts : List (SenderThread D)) (rs : List (Results D)) (end : Ending D)
      → ((j : ℕ) → (answers j).stop_flag ≡ false)
      → run_rates i answers n rates results ts ≡ some (rs, end)
      → exit_code end ≡ 0
      → map socket_of (pool_of end) ≡ map socket_of ts
  unfolding run_rates set_query_rate
  run_rates-sockets i answers n [] results ts rs end on e fine = ground (arith, e)
  run_rates-sockets i answers n (rate ∷ rates) results ts rs end on e fine =
      elim (Option-cases (run_load (answers i) rate ts)) [
        | inl none_left ↦ ground (arith, e, none_left)
        | inr (o, over) ↦ elim (Result-cases o) [
          | inr (x, failed) ↦ ground (arith, e, over, failed, fine)
          | inl ((us, b), good) ↦
              let r = get_results n us (record results { queryrate = rate }) in
              let ran = over ∙ ap some good in
              let same =
                run_load-kept socket_of (λ q t. refl) run_sender-socket (answers i) rate ts us b
                  ran in
              elim (Bool-cases b) [
                | inl stop ↦
                    let flag =
                      run_load-interrupted (answers i) rate ts us
                        (ran ∙ ap (λ b. some (ok (us, b))) stop) in
                    ground (arith, flag, on i)
                | inr go ↦ elim (Option-cases (run_rates (i + 1) answers n rates r us)) [
                  | inl stuck ↦ ground (arith, e, over, good, go, stuck)
                  | inr ((later, c), more) ↦
                      let last : c ≡ end = ground (arith, e, over, good, go, more) in
                      run_rates-sockets (i + 1) answers n rates r us later end on
                        (more ∙ ap (λ c. some (later, c)) last) fine
                      ∙ same
                ]
              ]
        ]
      ]

module _ {D S Ip A : Type 0} ⦃d : Double D⦄ (net : Net S Ip A) where
  configure-socket :
      (s : Settings D S) (t u : SenderThread D) → configure s t ≡ ok u → u.sockfd ≡ t.sockfd
  unfolding configure
  configure-socket s t u e = ground (arith, e)

  -- Each socket that was opened is that of one thread of the pool.
  pub prepare_from-sockets :
      (n i si : ℕ) (empty : Packet D) (os : ℕ → ThreadAnswers A) (s : Settings D S)
      (ts : List (SenderThread D))
      → prepare_from net n i si empty os s ≡ ok ts
      → Perm (map socket_of ts) (sockets os n i)
  unfolding prepare_from
  prepare_from-sockets zero i si empty os s [] e = Perm.refl []
  prepare_from-sockets zero i si empty os s (t ∷ ts) e = ground arith
  prepare_from-sockets (suc n) i si empty os s ts e =
      let next = next_source si (length s.source_ip_list) in
      let (new, opened, e0) = ok_parts (new_sender empty (os i).socket) _ ts e in
      let (t, made, e1) = ok_parts (configure s new) _ ts e0 in
      let (b, bound, e2) = ok_parts (bind_source net s si (os i)) _ ts e1 in
      let (c, connected, e3) = ok_parts (connect_to net s.ziel (os i)) _ ts e2 in
      let (us, rest, e4) = ok_parts (prepare_from net n (i + 1) next empty os s) _ ts e3 in
      let k = (os i).place in
      let same : add_thread_at k t us ≡ ts = ground (arith, e4) in
      let fd = (new_sender-socket empty (os i).socket new opened).0 in
      rw (← same) (
        Perm.trans (Perm.map socket_of (add_thread_at-perm k t us)) (
          Perm.cons' (configure-socket s new t made ∙ fd)
            (prepare_from-sockets n (i + 1) next empty os s us rest)))
