-- ===== src/Sender/Load/Spread.antt =====
-- How the query rate is spread over the worker threads.
use udppingpong.Base.{
  ℕ, suc, ◌+◌, ◌-◌, ◌/◌, ◌≤◌, ◌≡◌, refl, ap, List, [], ◌∷◌, map, arith, sum, length, All, ◌∙◌, ◌⊎◌,
  ◌<◌, if◌then◌else◌, none,
}
use udppingpong.Base.Int.{ℤ, pos, pos_part, ◌-ℤ◌, tdiv}
use native.Mathlib.Nat.{div-le_self}
use udppingpong.Shares.{shares, IsNear, sum-shares, shares_even}
use udppingpong.Sender.Thread.{SenderThread, set_query_rate, prepare_run}
use udppingpong.Double.{Double}
use udppingpong.Exception.{ok}
use udppingpong.Sender.Thread.Run.{RunAnswers, run_sender, run_without_rate_limit, finish_run}
use udppingpong.Sender.Load.{spread, set_query_rates}

rest_of : (r k : ℕ) → k ≤ r → pos r -ℤ pos k ≡ pos (r - k)
unfolding ◌-ℤ◌
rest_of r k h = ground arith

pred_suc : (n : ℕ) → suc n - 1 ≡ n
pred_suc n = omega arith

near_of : (q r : ℕ) (rate : ℤ) → rate ≡ pos r → IsNear q r → (rate ≡ pos q) ⊎ (rate ≡ pos (q + 1))
near_of q r rate e h = ground arith

module _ {D : Type 0} where
  spread-shares :
      (r : ℕ) (ts : List (SenderThread D))
      → map (λ t. t.queryrate) (spread (pos r) (length ts) ts) ≡ map pos (shares (length ts) r)
  unfolding spread shares tdiv
  spread-shares r [] = refl
  spread-shares r (t ∷ ts) =
      let n = length ts in
      ap (◌∷◌ (pos (r / suc n))) (
        rw (rest_of r (r / suc n) (div-le_self r (suc n)), pred_suc n)
          (spread-shares (r - r / suc n) ts))

  spread_rest :
      (q : ℤ) (n : ℕ) (ts : List (SenderThread D))
      → map (set_query_rate (pos 0)) (spread q n ts) ≡ map (set_query_rate (pos 0)) ts
  unfolding spread
  spread_rest q n [] = refl
  spread_rest q n (t ∷ ts) =
      ap (◌∷◌ (set_query_rate (pos 0) t)) (spread_rest (q -ℤ tdiv q (pos n)) (n - 1) ts)

  rates_near :
      (q : ℕ) (us : List (SenderThread D)) (rs : List ℕ)
      → map (λ t. t.queryrate) us ≡ map pos rs
      → All (IsNear q) rs
      → All (λ t. (t.queryrate ≡ pos q) ⊎ (t.queryrate ≡ pos (q + 1))) us
        × (sum (map (λ t. pos_part t.queryrate) us) ≡ sum rs)
  rates_near q [] [] e h = (tt, refl)
  rates_near q [] (r ∷ rs) e h = ground arith
  rates_near q (u ∷ us) [] e h = ground arith
  rates_near q (u ∷ us) (r ∷ rs) e (h, hs) =
      let first : u.queryrate ≡ pos r = ground arith in
      let (near, total) = rates_near q us rs (ground arith) hs in
      ((near_of q r u.queryrate first h, near), omega (arith, total, ap pos_part first))

  -- A rate of r queries over a pool of n + 1 threads: the rates of the threads add up to r, and each
  -- is r / (n + 1) or one more. Nothing else of a thread changes.
  pub set_query_rates_lem :
      (r : ℕ) (t : SenderThread D) (ts : List (SenderThread D))
      → let us = set_query_rates (pos r) (t ∷ ts) in
        let q = r / length (t ∷ ts) in
        (sum (map (λ u. pos_part u.queryrate) us) ≡ r)
        × All (λ u. (u.queryrate ≡ pos q) ⊎ (u.queryrate ≡ pos (q + 1))) us
        × (map (set_query_rate (pos 0)) us ≡ map (set_query_rate (pos 0)) (t ∷ ts))
  unfolding set_query_rates
  set_query_rates_lem r t ts =
      let n = length (t ∷ ts) in
      let rates =
        rates_near (r / n) (set_query_rates (pos r) (t ∷ ts)) (shares n r)
          (spread-shares r (t ∷ ts)) (shares_even n r) in
      (rates.1 ∙ sum-shares (length ts) r, rates.0, spread_rest (pos r) n (t ∷ ts))

module _ {D : Type 0} ⦃d : Double D⦄ where
  -- If the rate is less than the number of threads, the first thread gets the rate 0, with which it
  -- runs without any rate limit; the others share the whole rate.
  pub set_query_rates_unlimited :
      (r : ℕ) (t : SenderThread D) (ts : List (SenderThread D)) (a : RunAnswers D)
      → r < length (t ∷ ts)
      → let u = set_query_rate (pos 0) t in
        let run = run_without_rate_limit a.loop_start a.rounds (prepare_run a.random u) in
        (set_query_rates (pos r) (t ∷ ts) ≡ u ∷ set_query_rates (pos r) ts)
        × (run_sender a u ≡ ok (if run.ended then finish_run a run.thread run.packets else none))
  unfolding set_query_rates run_sender tdiv
  set_query_rates_unlimited r t ts a h = (first, refl)
    where
      none_left : r / length (t ∷ ts) ≡ 0
      none_left = grind arith

      whole : pos r -ℤ pos 0 ≡ pos r
      whole = rest_of r 0 (omega arith) ∙ ap pos (omega arith)

      first :
          spread (pos r) (length (t ∷ ts)) (t ∷ ts)
          ≡ set_query_rate (pos 0) t ∷ spread (pos r) (length ts) ts
      first = rw (none_left, whole, pred_suc (length ts)) refl
