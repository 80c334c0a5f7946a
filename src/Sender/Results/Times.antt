-- ===== src/Sender/Results/Times.antt =====
-- The times that `getResults` finds.
use udppingpong.Base.{◌≡◌, refl, List, [], ◌∷◌, map, All, sym, ap}
use mathlib.Core.List.{foldl}
use mathlib.Core.Path.{subst}
use udppingpong.Base.Int.{ℤ}
use udppingpong.Double.{Double, IsOrdered}
use udppingpong.Double.Extremes.{
  IsMinimum, IsMaximum, IsPositive, mins, maxs, mins_first, maxs_first,
}
use udppingpong.Receiver.{get_round_trip_time_average}
use udppingpong.Sender.Thread.{SenderThread}
use udppingpong.Sender.Results.{Results, add_thread, add_threads, clear_results, get_results}

module _ {D : Type 0} ⦃d : Double D⦄ where
  open d use {nought, of_int, add, div, lt, eq}

  -- The least and the greatest times of the workers.
  abbrev pub leasts : List (SenderThread D) → List D
  leasts ts = map (λ t. t.receiver.rtt_min) ts

  abbrev pub greatests : List (SenderThread D) → List D
  greatests ts = map (λ t. t.receiver.rtt_max) ts

  record Times (a r : Results D) (ts : List (SenderThread D)) : Type 0 where
    duration : r.duration ≡ foldl add a.duration (map (λ t. t.duration) ts)
    rtt_total :
        r.rtt_total ≡ foldl add a.rtt_total (map (λ t. get_round_trip_time_average t.receiver) ts)
    rtt_min : r.rtt_min ≡ mins a.rtt_min (leasts ts)
    rtt_max : r.rtt_max ≡ maxs a.rtt_max (greatests ts)

  add_threads-Times : (a : Results D) (ts : List (SenderThread D)) → Times a (add_threads a ts) ts
  unfolding add_threads mins maxs
  add_threads-Times a [] = record {
    duration = refl;
    rtt_total = refl;
    rtt_min = refl;
    rtt_max = refl;
  }
  add_threads-Times a (t ∷ ts) =
      let rest = add_threads-Times (add_thread a t) ts in
      record {
        duration = rest.duration;
        rtt_total = rest.rtt_total;
        rtt_min = rest.rtt_min;
        rtt_max = rest.rtt_max;
      }

  -- The duration in the results is the sum of the workers' durations divided by the number of
  -- threads, and `rtt_total` is the sum of their averages, both in the order of the pool.
  get_results_times :
      (n : ℤ) (ts : List (SenderThread D)) (before : Results D)
      → let r = get_results n ts before in
        (r.duration ≡ div (foldl add nought (map (λ t. t.duration) ts)) (of_int n))
        × (r.rtt_total ≡ foldl add nought (map (λ t. get_round_trip_time_average t.receiver) ts))
  unfolding get_results
  get_results_times n ts before =
      let t = add_threads-Times (clear_results before) ts in
      (ap (λ s. div s (of_int n)) t.duration, t.rtt_total)

  -- If the times of every worker are positive, which no worker without an answer has, `rtt_min` and
  -- `rtt_max` of the results are among the least and the greatest times of the workers, and no
  -- worker has a smaller or a greater one.
  pub get_results_extremes :
      (laws : IsOrdered D) (n : ℤ) (t : SenderThread D) (ts : List (SenderThread D))
      (before : Results D)
      → All IsPositive (leasts (t ∷ ts))
      → All IsPositive (greatests (t ∷ ts))
      → let r = get_results n (t ∷ ts) before in
        IsMinimum r.rtt_min (leasts (t ∷ ts)) × IsMaximum r.rtt_max (greatests (t ∷ ts))
  unfolding get_results
  get_results_extremes laws n t ts before p q =
      let times = add_threads-Times (clear_results before) (t ∷ ts) in
      (
        subst (λ m. IsMinimum m (leasts (t ∷ ts))) (sym times.rtt_min)
            (mins_first laws t.receiver.rtt_min (leasts ts) p),
        subst (λ m. IsMaximum m (greatests (t ∷ ts))) (sym times.rtt_max)
            (maxs_first laws t.receiver.rtt_max (greatests ts) q.0),
      )
