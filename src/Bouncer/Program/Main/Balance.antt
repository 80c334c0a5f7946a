-- ===== src/Bouncer/Program/Main/Balance.antt =====
-- The descriptors of a whole run of the bouncer.
use udppingpong.Bouncer.Descriptors.Kept.{get_counter-holds, stop-holds}
use udppingpong.Socket.{Answers}
use udppingpong.Base.Word.{word_of}
use udppingpong.Bouncer.Program.Main.{serve, World, main, Ended, stops}
use udppingpong.Exception.{Result-cases, done}
use udppingpong.Base.{
  ℕ, ◌≡◌, refl, List, [], ◌∷◌, Bool-cases, inl, inr, arith, Bool, not, ◌&&◌, if◌then◌else◌, ◌∙◌,
  some, ◌++◌, ap, ◌+◌,
}
use udppingpong.Base.Int.{ℤ, pos}
use udppingpong.Double.{Double}
use udppingpong.Bouncer.Thread.{Thread, count}
use udppingpong.Sensor.System.{SystemStat}
use udppingpong.Socket.Descriptors.{held, opened, closed, opened-append, closed-append}
use udppingpong.Bouncer.{
  Bouncer, get_counter, set_interface, set_fixed_response_packet_size, ok, disable_responses, stop,
  create, start, destroy_bouncer,
}
use udppingpong.Bouncer.Descriptors.{
  holds, holds_all, start-Balances, stop-Balances, destroy_bouncer-Balances,
}
use udppingpong.Bouncer.Program.{
  exits, Round, collecting, run_bouncer, work_off, work_off_all, with_size, by_server, Arguments,
  starts, set_up,
}

module _ {D A : Type 0} where
  -- No socket is open.
  abbrev IsClosed : Bouncer D A → Type 0
  IsClosed b = (b.sockfd ≡ pos 0) × (b.threadpool ≡ [])

  IsClosed-holds : (fd : ℤ) (b : Bouncer D A) → IsClosed b → holds_all fd b ≡ 0
  IsClosed-holds fd b (h, k) = rw (h, k) refl

module _ {D : Type 0} where
  work_off-sockfd : (ns : List ℕ) (t : Thread D) → (work_off ns t).sockfd ≡ t.sockfd
  unfolding work_off count
  work_off-sockfd [] t = refl
  work_off-sockfd (n ∷ ns) t = work_off-sockfd ns (count n t)

  work_off_all-holds :
      (fd : ℤ) (handled : ℕ → List ℕ) (i : ℕ) (ts : List (Thread D))
      → holds fd (work_off_all handled i ts) ≡ holds fd ts
  unfolding work_off_all
  work_off_all-holds fd handled i [] = refl
  work_off_all-holds fd handled i (t ∷ ts) =
      rw (work_off-sockfd (handled i) t, work_off_all-holds fd handled (i + 1) ts)

module _ {D A N : Type 0} ⦃d : Double D⦄ where
  collecting-holds :
      (fd : ℤ) (quiet : Bool) (end : D) (stat_start : SystemStat D N) (rs : List (Round D N))
      (b : Bouncer D A)
      → holds_all fd (collecting quiet end stat_start rs b).0 ≡ holds_all fd b
  unfolding collecting
  collecting-holds fd quiet end stat_start [] b = refl
  collecting-holds fd quiet end stat_start (r ∷ rs) b =
      let due = not quiet && d.le end r.now in
      let next = if due then d.add end (d.of_int (pos 1)) else end in
      let a = record b { threadpool = work_off_all r.handled 0 b.threadpool } in
      let b' = (get_counter r.garbage r.sample_time a).1 in
      let kept : holds_all fd a ≡ holds_all fd b =
        ap (λ n. held fd b.sockfd + n) (work_off_all-holds fd r.handled 0 b.threadpool) in
      elim (Bool-cases (r.stop_flag)) [
        | inl stop ↦ rw stop refl
        | inr on ↦ elim (Bool-cases due) [
          | inl now ↦
              rw (on, now)
                (collecting-holds fd quiet (d.add end (d.of_int (pos 1))) r.stat rs b'
                  ∙ get_counter-holds fd r.garbage r.sample_time a
                  ∙ kept)
          | inr later ↦ rw (on, later) (collecting-holds fd quiet end stat_start rs a ∙ kept)
        ]
      ]

module _ {D A : Type 0} where
  set_interface-IsClosed :
      {Ip : Type 0} (sock_addr : Ip → ℤ → A) (ips : List Ip) (port : ℤ) (b c : Bouncer D A)
      → IsClosed b
      → set_interface sock_addr ips port b ≡ ok c
      → IsClosed c
  unfolding set_interface
  set_interface-IsClosed sock_addr [] port b c h e = ground (arith, e)
  set_interface-IsClosed sock_addr (ip ∷ []) port b c (h, k) e =
      (ground (arith, h, e), ground (arith, k, e))
  set_interface-IsClosed sock_addr (ip ∷ other ∷ ips) port b c h e = ground (arith, e)

module _ {D A S : Type 0} where
  with_size-IsClosed :
      (a : Arguments S) (b c : Bouncer D A) (threads : ℤ)
      → IsClosed b
      → with_size a b ≡ ok (starts c threads)
      → IsClosed c
  unfolding with_size set_fixed_response_packet_size
  with_size-IsClosed a b c threads (h, k) e = (ground (arith, h, e), ground (arith, k, e))

  by_server-IsClosed :
      {Ip : Type 0} (to_int : S → ℤ) (resolve : S → List Ip) (sock_addr : Ip → ℤ → A)
      (a : Arguments S) (parts : List S) (b c : Bouncer D A) (threads : ℤ)
      → IsClosed b
      → by_server to_int resolve sock_addr a parts b ≡ ok (starts c threads)
      → IsClosed c
  unfolding by_server
  by_server-IsClosed to_int resolve sock_addr a [] b c threads v e = ground (arith, e)
  by_server-IsClosed to_int resolve sock_addr a (host ∷ []) b c threads v e = ground (arith, e)
  by_server-IsClosed to_int resolve sock_addr a (host ∷ port ∷ x ∷ xs) b c threads v e =
      ground (arith, e)
  by_server-IsClosed to_int resolve sock_addr a (host ∷ port ∷ []) b c threads v e =
      elim (Result-cases (set_interface sock_addr (resolve host) (to_int port) b)) [
        | inr (x, failed) ↦ ground (arith, e, failed)
        | inl (b', bound) ↦
            with_size-IsClosed a (disable_responses a.noecho b') c threads
              (set_interface-IsClosed sock_addr (resolve host) (to_int port) b b' v bound)
              (ground (arith, e, bound))
      ]

  set_up-IsClosed :
      {Ip : Type 0} (to_int : S → ℤ) (resolve : S → List Ip) (sock_addr : Ip → ℤ → A)
      (a : Arguments S) (b c : Bouncer D A) (threads : ℤ)
      → IsClosed b
      → set_up to_int resolve sock_addr a b ≡ ok (starts c threads)
      → IsClosed c
  unfolding set_up
  set_up-IsClosed to_int resolve sock_addr a b c threads v e =
      by_server-IsClosed to_int resolve sock_addr a a.server b c threads v (ground (arith, e))

module _ {D A : Type 0} where
  -- `start`, something that opens and closes no descriptor, `stop` and the destructor.
  served-balance :
      (n : ℕ) (main_os : Answers) (os : ℕ → Answers) (time : D) (fd : ℤ) (b c : Bouncer D A)
      → holds_all fd b ≡ 0
      → (start n main_os os time b).outcome ≡ done
      → holds_all fd c ≡ holds_all fd (start n main_os os time b).bouncer
      → let calls =
          (start n main_os os time b).calls ++ (stop c).calls ++ destroy_bouncer (stop c).bouncer in
        opened fd calls ≡ closed fd calls
  served-balance n main_os os time fd b c none_before started same =
      let first = (start n main_os os time b).calls in
      let t = stop c in
      let last = destroy_bouncer t.bouncer in
      omega (
        arith,
        none_before,
        same,
        start-Balances n main_os os time fd b started,
        stop-Balances fd c,
        stop-holds fd c,
        destroy_bouncer-Balances fd t.bouncer,
        opened-append fd (first ++ t.calls) last,
        closed-append fd (first ++ t.calls) last,
        opened-append fd first t.calls,
        closed-append fd first t.calls,
      )

module _ {D A N : Type 0} ⦃d : Double D⦄ where
  serve-balance :
      (quiet : Bool) (w : World D N) (threads : ℤ) (fd : ℤ) (b : Bouncer D A) (e : Ended D A)
      → holds_all fd b ≡ 0
      → serve quiet w threads b ≡ ok (some e)
      → opened fd e.calls ≡ closed fd e.calls
  unfolding serve run_bouncer
  serve-balance quiet w threads fd b e closed_before h =
      let s = start (word_of threads) w.main_os w.os w.time b in
      let c = (run_bouncer quiet w.loop_start w.stat_start w.rounds s.bouncer).0 in
      let t = stop c in
      elim (Result-cases s.outcome) [
        | inr (x, failed) ↦ ground (arith, h, failed)
        | inl (u, started) ↦ elim (Bool-cases (stops w.rounds)) [
          | inr going ↦ ground (arith, h, started, going)
          | inl ends ↦
              let calls : e.calls ≡ s.calls ++ t.calls ++ destroy_bouncer t.bouncer =
                ground (arith, h, started, ends) in
              rw calls (
                served-balance (word_of threads) w.main_os w.os w.time fd b c closed_before started
                  (collecting-holds fd quiet (d.add w.loop_start (d.of_int (pos 1))) w.stat_start
                    w.rounds s.bouncer))
        ]
      ]

  -- When `main` of the bouncer returns, every descriptor has been closed as often as it was opened.
  pub main-balance :
      {S Ip : Type 0} (to_int : S → ℤ) (resolve : S → List Ip) (sock_addr : Ip → ℤ → A)
      (nowhere : A) (a : Arguments S) (quiet : Bool) (w : World D N) (fd : ℤ) (e : Ended D A)
      → main to_int resolve sock_addr nowhere a quiet w ≡ ok (some e)
      → opened fd e.calls ≡ closed fd e.calls
  unfolding main create set_up
  main-balance to_int resolve sock_addr nowhere a quiet w fd e h =
      elim (Result-cases (set_up {D = D} to_int resolve sock_addr a (create nowhere))) [
        | inr (x, failed) ↦ ground (arith, h, failed)
        | inl (exits code, early) ↦ ground (arith, h, early)
        | inl (starts b threads, prepared) ↦
            let closed_before = IsClosed-holds fd b (
              set_up-IsClosed to_int resolve sock_addr a (create nowhere) b threads (refl, refl)
                prepared) in
            serve-balance quiet w threads fd b e closed_before (ground (arith, h, prepared))
      ]
