-- ===== src/Sender/Session/Bound.antt =====
-- What the results of a load may tell at most.
use udppingpong.Base.{
  ℕ, ◌+◌, ◌*◌, ◌≤◌, ◌≡◌, refl, List, [], ◌∷◌, map, sum, length, All, some, arith, ap, inl, inr,
  Option-cases, Bool, ◌∙◌,
}
use udppingpong.Base.Int.{ℤ, pos}
use udppingpong.Double.{Double}
use udppingpong.Exception.{ok, Result-cases}
use udppingpong.Sender.Thread.{SenderThread}
use udppingpong.Sender.Thread.Run.{RunAnswers, run_sender}
use udppingpong.Sender.Thread.Run.Packets.{counted}
use udppingpong.Sender.Thread.Run.Accounts.{run_sender-IsAccounted}
use udppingpong.Sender.Load.{run_workers, set_query_rates, end_of_run}
use udppingpong.Sender.Load.Bound.{IsPlanned, packets_of, run_workers_bound}
use udppingpong.Sender.Session.{LoadAnswers, threads_after, run_load}
use udppingpong.Sender.Results.{Results, get_results}
use udppingpong.Sender.Results.Totals.{each, get_results_lem}

module _ {D : Type 0} where
  sum-counted :
      (us : List (SenderThread D))
      → sum (each (λ t. t.counter_send) us)
          + sum (each (λ t. t.counter_0bytes) us)
          + sum (each (λ t. t.errors) us)
        ≡ sum (map counted us)
  sum-counted [] = refl
  sum-counted (u ∷ us) = omega (arith, sum-counted us)

module _ {D : Type 0} ⦃d : Double D⦄ where
  threads_after-counted :
      (answers : ℕ → RunAnswers D) (i : ℕ) (ts us : List (SenderThread D))
      → threads_after (run_workers answers i ts) ≡ some us
      → sum (map counted us) ≤ sum (map packets_of (run_workers answers i ts))
  unfolding threads_after run_workers
  threads_after-counted answers i [] us h =
      let none_left : [] ≡ us = ground (arith, h) in rw (← none_left) (omega arith)
  threads_after-counted answers i (t ∷ ts) us h =
      let rest = run_workers answers (i + 1) ts in
      elim (Result-cases (run_sender (answers i) t)) [
        | inr (x, failed) ↦ ground (arith, h, failed)
        | inl (o, ran) ↦ elim (Option-cases o) [
          | inl stuck ↦ ground (arith, h, ran, stuck)
          | inr ((u, sent), ended) ↦ elim (Option-cases (threads_after rest)) [
            | inl gap ↦ ground (arith, h, ran, ended, gap)
            | inr (vs, more) ↦
                let same : u ∷ vs ≡ us = ground (arith, h, ran, ended, more) in
                let one = ran ∙ ap ok ended in
                let first = run_sender-IsAccounted (answers i) t u sent one in
                let others = threads_after-counted answers (i + 1) ts vs more in
                rw (← same, one) (omega (arith, first.most, others))
          ]
        ]
      ]

  pub run_load-ended :
      (a : LoadAnswers D) (r : ℤ) (ts us : List (SenderThread D)) (b : Bool)
      → run_load a r ts ≡ some (ok (us, b))
      → threads_after (run_workers a.workers 0 (set_query_rates r ts)) ≡ some us
  unfolding run_load
  run_load-ended a r ts us b h = elim (Option-cases (a.failure)) [
    | inr (x, failed) ↦ ground (arith, h, failed)
    | inl works ↦
        elim (Option-cases (threads_after (run_workers a.workers 0 (set_query_rates r ts)))) [
          | inl stuck ↦ ground (arith, h, works, stuck)
          | inr (vs, ended) ↦ elim (Option-cases (end_of_run a.polls a.stop_flag)) [
            | inl waiting ↦ ground (arith, h, works, ended, waiting)
            | inr (o, over) ↦ elim (Result-cases o) [
              | inl (v, fine) ↦ ground (arith, h, works, ended, over, fine)
              | inr (x, stopped) ↦ ground (arith, h, works, ended, over, stopped)
            ]
          ]
        ]
  ]

  -- A load with workers that are all set for s seconds and the same number of slices, and with a rate
  -- r of at least one query for each of them: its results tell of at most s * r packets, those that
  -- were sent, those that were not sent in full and the errors taken together.
  pub get_results_bound :
      (a : LoadAnswers D) (s n r : ℕ) (t : SenderThread D) (ts us : List (SenderThread D))
      (b : Bool) (thread_count : ℤ) (before : Results D)
      → All (IsPlanned s n) (t ∷ ts)
      → length (t ∷ ts) ≤ r
      → run_load a (pos r) (t ∷ ts) ≡ some (ok (us, b))
      → let res = get_results thread_count us before in
        res.counter_send + res.counter_0bytes + res.counter_errors ≤ s * r
  get_results_bound a s n r t ts us b thread_count before planned enough h =
      let (total, lost) = get_results_lem thread_count us before in
      omega (
        arith,
        total.send,
        total.short,
        total.failures,
        sum-counted us,
        threads_after-counted a.workers 0 (set_query_rates (pos r) (t ∷ ts)) us
            (run_load-ended a (pos r) (t ∷ ts) us b h),
        run_workers_bound a.workers s n r t ts planned enough,
      )
