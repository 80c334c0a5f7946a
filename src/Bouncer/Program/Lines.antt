-- ===== src/Bouncer/Program/Lines.antt =====
-- src/bouncer.cpp: the packets that the printed lines tell of.
use udppingpong.Base.{
  ℕ, zero, suc, ◌+◌, ◌%◌, ◌≡◌, refl, List, [], ◌∷◌, map, sum, length, if◌then◌else◌, arith,
  Bool-cases, inl, inr, Bool, not, ◌&&◌, ap,
}
use udppingpong.Base.Int.{pos}
use udppingpong.Base.Word.{word_mod, add64}
use udppingpong.Double.{Double}
use udppingpong.Bouncer.{Bouncer, get_counter}
use udppingpong.Bouncer.Sampling.{counts, get_counter_lem}
use udppingpong.Bouncer.Thread.{Thread, count, clear_counts}
use udppingpong.Bouncer.Program.{Round, work_off, work_off_all, collecting, run_bouncer}
use udppingpong.Sensor.System.{SystemStat}

-- How many packets m workers, from number i on, have handled.
abbrev pub handled_by : (ℕ → List ℕ) → ℕ → ℕ → ℕ
handled_by handled i zero = 0
handled_by handled i (suc m) = length (handled i) + handled_by handled (i + 1) m

module _ {D N : Type 0} where
  -- How many they have handled before the loop stops.
  abbrev pub handled_in : List (Round D N) → ℕ → ℕ
  handled_in [] m = 0
  handled_in (r ∷ rs) m =
      let later = handled_in rs m in if r.stop_flag then 0 else handled_by r.handled 0 m + later

module _ {D : Type 0} where
  -- The packets that the workers have counted and that have not been collected yet.
  abbrev pub received_by : List (Thread D) → ℕ
  received_by ts = sum (counts (λ k. k.packets_received) ts)

  work_off-received :
      (ns : List ℕ) (t : Thread D)
      → (work_off ns t).counter.packets_received % word_mod
        ≡ (t.counter.packets_received + length ns) % word_mod
  unfolding work_off count add64
  work_off-received [] t = omega arith
  work_off-received (n ∷ ns) t = omega (arith, work_off-received ns (count n t))

  work_off_all-received :
      (handled : ℕ → List ℕ) (i : ℕ) (ts : List (Thread D))
      → received_by (work_off_all handled i ts) % word_mod
        ≡ (received_by ts + handled_by handled i (length ts)) % word_mod
  unfolding work_off_all
  work_off_all-received handled i [] = refl
  work_off_all-received handled i (t ∷ ts) =
      omega (arith, work_off-received (handled i) t, work_off_all-received handled (i + 1) ts)

  length-work_off_all :
      (handled : ℕ → List ℕ) (i : ℕ) (ts : List (Thread D))
      → length (work_off_all handled i ts) ≡ length ts
  unfolding work_off_all
  length-work_off_all handled i [] = refl
  length-work_off_all handled i (t ∷ ts) = ap suc (length-work_off_all handled (i + 1) ts)

  cleared-received :
      (ts : List (Thread D))
      → (received_by (map clear_counts ts) ≡ 0) × (length (map clear_counts ts) ≡ length ts)
  unfolding clear_counts
  cleared-received [] = (refl, refl)
  cleared-received (t ∷ ts) = omega (arith, cleared-received ts)

module _ {D A N : Type 0} ⦃d : Double D⦄ where
  open d use {of_int, add, le}

  collecting-received :
      (quiet : Bool) (end : D) (stat_start : SystemStat D N) (rs : List (Round D N))
      (b : Bouncer D A)
      → let (last, lines) = collecting quiet end stat_start rs b in
        (sum (map (λ l. l.app_rx) lines) + received_by last.threadpool) % word_mod
        ≡ (received_by b.threadpool + handled_in rs (length b.threadpool)) % word_mod
  unfolding collecting
  collecting-received quiet end stat_start [] b = omega arith
  collecting-received quiet end stat_start (r ∷ rs) b =
      let ts = work_off_all r.handled 0 b.threadpool in
      let a = record b { threadpool = ts } in
      let b' = (get_counter r.garbage r.sample_time a).1 in
      let handled = work_off_all-received r.handled 0 b.threadpool in
      let many = length-work_off_all r.handled 0 b.threadpool in
      elim (Bool-cases (r.stop_flag)) [
        | inl stop ↦ rw stop (omega arith)
        | inr on ↦ elim (Bool-cases (not quiet && le end r.now)) [
          | inr early ↦
              let rest = collecting-received quiet end stat_start rs a in
              rw (on, early) (omega (arith, handled, ap (handled_in rs) many, rest))
          | inl due ↦
              let rest = collecting-received quiet (add end (of_int (pos 1))) r.stat rs b' in
              let (total, _, _, same) = get_counter_lem r.garbage r.sample_time a in
              let pool : b'.threadpool ≡ map clear_counts ts = ap (λ b. b.threadpool) same in
              let (none_left, as_many) = cleared-received ts in
              rw (on, due)
                (omega (
                  arith,
                  handled,
                  ap (handled_in rs) many,
                  ap (λ ts. handled_in rs (length ts)) pool,
                  ap (handled_in rs) as_many,
                  ap received_by pool,
                  none_left,
                  total.packets_received,
                  rest,
                ))
        ]
      ]

  -- If no worker counts while `getCounter` collects, each packet that the workers count while the
  -- bouncer runs is told of in exactly one line, or still in their counters at the end: modulo
  -- 2 ^ 64, the packets of the lines and those that are left add up to those at the start and those
  -- handled in the rounds before the stop flag.
  pub run_bouncer-received :
      (quiet : Bool) (start : D) (stat_start : SystemStat D N) (rs : List (Round D N))
      (b : Bouncer D A)
      → let (last, lines) = run_bouncer quiet start stat_start rs b in
        (sum (map (λ l. l.app_rx) lines) + received_by last.threadpool) % word_mod
        ≡ (received_by b.threadpool + handled_in rs (length b.threadpool)) % word_mod
  unfolding run_bouncer
  run_bouncer-received quiet start stat_start rs b =
      collecting-received quiet (add start (of_int (pos 1))) stat_start rs b
