-- ===== src/Sender/Session/Plan.antt =====
-- What the results of all loads may tell at most.
use mathlib.Core.Path.{subst}
use udppingpong.Base.{
  ℕ, length-map, All-map, map-All, ◌+◌, ◌*◌, ◌≤◌, ◌≡◌, refl, List, [], ◌∷◌, length, All, some,
  arith, ap, inl, inr, Option-cases, Bool-cases, sym, ◌∙◌, Bool,
}
use udppingpong.Base.Int.{ℤ, pos, pos_part}
use udppingpong.Double.{Double}
use udppingpong.Exception.{ok, Result-cases}
use udppingpong.Sender.Thread.{Packet, SenderThread, set_query_rate}
use udppingpong.Sender.Thread.Rate.{total_zeitscheiben}
use udppingpong.Sender.Thread.Run.{RunAnswers, run_sender}
use udppingpong.Sender.Thread.Run.Passes.{slices_of}
use udppingpong.Sender.Thread.Run.Settings.{HasPlan, run_sender-settings}
use udppingpong.Sender.Load.Bound.{IsPlanned}
use udppingpong.Sender.Session.{Ending, LoadAnswers, run_load, run_rates}
use udppingpong.Sender.Session.Rates.{get_results-queryrate}
use udppingpong.Sender.Session.Bound.{get_results_bound}
use udppingpong.Sender.Session.Kept.{run_load-kept}
use udppingpong.Sender.Results.{Results, get_results}

module _ {D : Type 0} where
  -- What a report says of the packets of its load.
  abbrev pub IsWithin : ℕ → Results D → Type 0
  IsWithin s r = r.counter_send + r.counter_0bytes + r.counter_errors ≤ s * pos_part r.queryrate

-- A rate of at least one query for each of m threads.
abbrev pub IsEnough : ℕ → ℤ → Type 0
IsEnough m q = (r : ℕ) × (q ≡ pos r) × (m ≤ r)

module _ {D : Type 0} ⦃d : Double D⦄ where
  open d use {of_int, mul, div, trunc}

  HasPlan-IsPlanned :
      (s n : ℕ) (z : D) (ts : List (SenderThread D))
      → slices_of (pos s) z ≡ pos n
      → All (HasPlan (pos s) z) ts
      → All (IsPlanned s n) ts
  unfolding total_zeitscheiben
  HasPlan-IsPlanned s n z [] e h = tt
  HasPlan-IsPlanned s n z (t ∷ ts) e ((h, k), hs) =
      ((h, rw (h, k) e), HasPlan-IsPlanned s n z ts e hs)

  run_load-HasPlan :
      (a : LoadAnswers D) (r : ℤ) (s : ℤ) (z : D) (ts us : List (SenderThread D)) (b : Bool)
      → All (HasPlan s z) ts
      → run_load a r ts ≡ some (ok (us, b))
      → All (HasPlan s z) us × (length us ≡ length ts)
  unfolding set_query_rate
  run_load-HasPlan a r s z ts us b plans h =
      let settings : SenderThread D → ℤ × D = λ t. (t.runtime, t.zeitscheibe) in
      let holds : ℤ × D → Type 0 = λ p. (p.0 ≡ s) × (p.1 ≡ z) in
      let same : (a : RunAnswers D) (t u : SenderThread D) (sent : List (Packet D))
          → run_sender a t ≡ ok (some (u, sent))
          → settings u ≡ settings t =
        λ a t u sent ran. ap (λ s. (s.0.0, s.1.0)) (run_sender-settings a t u sent ran) in
      let kept = run_load-kept settings (λ q t. refl) same a r ts us b h in
      (
        map-All holds settings us (subst (All holds) (sym kept) (All-map holds settings ts plans)),
        sym (length-map settings us) ∙ ap length kept ∙ length-map settings ts,
      )

  -- One load more.
  report-IsWithin :
      (a : LoadAnswers D) (s n : ℕ) (z : D) (q : ℤ) (ts us : List (SenderThread D)) (b : Bool)
      (thread_count : ℤ) (before : Results D)
      → slices_of (pos s) z ≡ pos n
      → All (HasPlan (pos s) z) ts
      → 1 ≤ length ts
      → IsEnough (length ts) q
      → run_load a q ts ≡ some (ok (us, b))
      → IsWithin s (get_results thread_count us (record before { queryrate = q }))
  report-IsWithin a s n z q [] us b thread_count before e plans one enough h = elim one [ ]
  report-IsWithin a s n z q (t ∷ ts) us b thread_count before e plans one (r, same, enough) h =
      let start = record before { queryrate = q } in
      let bound =
        get_results_bound a s n r t ts us b thread_count start
          (HasPlan-IsPlanned s n z (t ∷ ts) e plans) enough
          (ap (λ q. run_load a q (t ∷ ts)) (sym same) ∙ h) in
      rw (get_results-queryrate thread_count us start ∙ same) bound

  -- The loads are all sent by at least one worker, each set for s seconds and n slices, and every rate
  -- is one of at least one query for each worker. Then no report tells of more packets than s times
  -- its rate: those sent, those not sent in full and the errors taken together.
  pub run_rates_bound :
      (i : ℕ) (answers : ℕ → LoadAnswers D) (s n : ℕ) (z : D) (thread_count : ℤ) (rates : List ℤ)
      (results : Results D) (ts : List (SenderThread D)) (rs : List (Results D)) (end : Ending D)
      → slices_of (pos s) z ≡ pos n
      → All (HasPlan (pos s) z) ts
      → 1 ≤ length ts
      → All (IsEnough (length ts)) rates
      → run_rates i answers thread_count rates results ts ≡ some (rs, end)
      → All (IsWithin s) rs
  unfolding run_rates
  run_rates_bound i answers s n z thread_count [] results ts rs end e plans one enough h =
      let none_left : [] ≡ rs = ground (arith, h) in rw (← none_left) tt
  run_rates_bound i answers s n z thread_count (q ∷ rates) results ts rs end e plans one
        (first, others) h =
      elim (Option-cases (run_load (answers i) q ts)) [
        | inl stuck ↦ ground (arith, h, stuck)
        | inr (o, over) ↦ elim (Result-cases o) [
          | inr (x, failed) ↦
              let none_left : [] ≡ rs = ground (arith, h, over, failed) in rw (← none_left) tt
          | inl ((us, b), fine) ↦
              let ran = over ∙ ap some fine in
              let r = get_results thread_count us (record results { queryrate = q }) in
              let within =
                report-IsWithin (answers i) s n z q ts us b thread_count results e plans one first
                  ran in
              let after = run_load-HasPlan (answers i) q (pos s) z ts us b plans ran in
              elim (Bool-cases b) [
                | inl stop ↦
                    let same : r ∷ [] ≡ rs = ground (arith, h, ran, stop) in
                    rw (← same) (within, tt)
                | inr on ↦ elim (Option-cases (run_rates (i + 1) answers thread_count rates r us)) [
                  | inl gap ↦ ground (arith, h, ran, on, gap)
                  | inr ((later, c), more) ↦
                      let same : r ∷ later ≡ rs = ground (arith, h, ran, on, more) in
                      let rest =
                        run_rates_bound (i + 1) answers s n z thread_count rates r us later c e
                          after.0 (subst (λ c. 1 ≤ c) (sym after.1) one)
                          (subst (λ c. All (IsEnough c) rates) (sym after.1) others) more in
                      rw (← same) (within, rest)
                ]
              ]
        ]
      ]
