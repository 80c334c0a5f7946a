-- ===== src/Sender/Load/Bound.antt =====
-- How much a whole load sends.
use udppingpong.Base.{
  ℕ, suc, ◌+◌, ◌-◌, ◌/◌, zero, [], ◌*◌, ◌≤◌, ◌≡◌, refl, true, ap, List, arith, length, ◌∙◌, Option,
  some, none, concat, length-concat, ◌⊎◌, inl, inr, All, ◌∷◌, sum, map, zero, ◌+◌, ◌/◌, [],
}
use mathlib.Core.Path.{subst}
use udppingpong.Base.Int.{pos, pos_part, ltb_ℤ, tdiv, ◌-ℤ◌, ℤ}
use udppingpong.Double.{Double}
use udppingpong.Exception.{Result, ok, throw}
use udppingpong.Sender.Thread.{Packet, SenderThread, prepare_run}
use udppingpong.Sender.Thread.Rate.{total_zeitscheiben, run_with_rate_limit}
use udppingpong.Sender.Thread.Rate.Quotas.{run_with_rate_limit_quotas}
use udppingpong.Sender.Thread.Run.{RunAnswers, run_sender}
use udppingpong.Sender.Thread.Run.Accounts.{limited_run, finish_run-counted}
use udppingpong.Sender.Load.{spread, set_query_rates, run_workers}
use udppingpong.Sender.Load.Spread.{set_query_rates_lem}
use native.Mathlib.Nat.{le-div_iff_mul-le}

join : (s q total a b rate : ℕ) → rate ≡ q → a ≤ s * q → b ≤ s * total → a + b ≤ s * (rate + total)
join s q total a b rate e h k = rw e (grind (arith, h, k))

module _ {D : Type 0} where
  -- The packets of a run that ended.
  abbrev pub packets_of : Result (Option (SenderThread D × List (Packet D))) → ℕ
  packets_of (throw e) = 0
  packets_of (ok none) = 0
  packets_of (ok (some (u, sent))) = length sent

module _ {D : Type 0} ⦃d : Double D⦄ where
  -- A worker set for s seconds in n slices.
  abbrev pub IsPlanned : ℕ → ℕ → SenderThread D → Type 0
  IsPlanned s n t = (t.runtime ≡ pos s) × (total_zeitscheiben t ≡ pos n)

  prepare_run-IsPlanned :
      (random : Packet D) (s n : ℕ) (t : SenderThread D)
      → IsPlanned s n t
      → IsPlanned s n (prepare_run random t)
  unfolding prepare_run total_zeitscheiben
  prepare_run-IsPlanned random s n t h = h

  prepare_run-queryrate :
      (random : Packet D) (t : SenderThread D) → (prepare_run random t).queryrate ≡ t.queryrate
  unfolding prepare_run
  prepare_run-queryrate random t = refl

  run_sender_limit :
      (a : RunAnswers D) (t u : SenderThread D) (sent : List (Packet D)) (s q n : ℕ)
      → IsPlanned s n t
      → t.queryrate ≡ pos (suc q)
      → run_sender a t ≡ ok (some (u, sent))
      → length sent ≤ s * suc q
  unfolding run_sender
  run_sender_limit a t u sent s q n h rate e =
      let t' = prepare_run a.random t in
      let set = prepare_run-IsPlanned a.random s n t h in
      let limited : ltb_ℤ (pos 0) t.queryrate ≡ true = ground arith in
      let (r, loop, ends) =
        limited_run a t u sent (run_with_rate_limit a.sock_errno a.nsec a.loop_start a.slices t')
          (rw limited at e) in
      let bound =
        run_with_rate_limit_quotas a.sock_errno a.nsec a.loop_start a.slices t' r s (suc q) n set.0
          (prepare_run-queryrate a.random t ∙ rate) set.1 loop in
      let same = finish_run-counted a r.thread u (concat r.slices) sent ends in
      omega (arith, bound.0, ap length same.1, length-concat r.slices)

  packets_of-limit :
      (a : RunAnswers D) (t : SenderThread D) (s q n : ℕ)
      → IsPlanned s n t
      → t.queryrate ≡ pos q
      → 1 ≤ q
      → packets_of (run_sender a t) ≤ s * q
  packets_of-limit a t s zero n h rate one = elim one [ ]
  packets_of-limit a t s (suc q) n h rate one = by_result (run_sender a t) refl
    where
      by_result :
          (res : Result (Option (SenderThread D × List (Packet D))))
          → run_sender a t ≡ res
          → packets_of res ≤ s * suc q
      by_result (throw e) same = omega arith
      by_result (ok none) same = omega arith
      by_result (ok (some (u, sent))) same = run_sender_limit a t u sent s q n h rate same

  -- A pool whose threads have all one of the two rates nearest to some q > 0.
  run_workers-limit :
      (answers : ℕ → RunAnswers D) (i s q n : ℕ) (us : List (SenderThread D))
      → 1 ≤ q
      → All (IsPlanned s n) us
      → All (λ u. (u.queryrate ≡ pos q) ⊎ (u.queryrate ≡ pos (q + 1))) us
      → sum (map packets_of (run_workers answers i us))
        ≤ s * sum (map (λ u. pos_part u.queryrate) us)
  unfolding run_workers
  run_workers-limit answers i s q n [] one h k = omega arith
  run_workers-limit answers i s q n (u ∷ us) one (h, hs) (inl e, ks) =
      let rest = run_workers-limit answers (i + 1) s q n us one hs ks in
      let first = packets_of-limit (answers i) u s q n h e one in
      join s q _ _ _ (pos_part u.queryrate) (ap pos_part e) first rest
  run_workers-limit answers i s q n (u ∷ us) one (h, hs) (inr e, ks) =
      let rest = run_workers-limit answers (i + 1) s q n us one hs ks in
      let first = packets_of-limit (answers i) u s (q + 1) n h e (omega arith) in
      join s (q + 1) _ _ _ (pos_part u.queryrate) (ap pos_part e) first rest

  spread-IsPlanned :
      (r : ℤ) (m s n : ℕ) (ts : List (SenderThread D))
      → All (IsPlanned s n) ts
      → All (IsPlanned s n) (spread r m ts)
  unfolding spread total_zeitscheiben
  spread-IsPlanned r m s n [] h = tt
  spread-IsPlanned r m s n (t ∷ ts) (h, hs) =
      (h, spread-IsPlanned (r -ℤ tdiv r (pos m)) (m - 1) s n ts hs)

  set_query_rates-IsPlanned :
      (r s n : ℕ) (ts : List (SenderThread D))
      → All (IsPlanned s n) ts
      → All (IsPlanned s n) (set_query_rates (pos r) ts)
  unfolding set_query_rates
  set_query_rates-IsPlanned r s n ts h = spread-IsPlanned (pos r) (length ts) s n ts h

  -- All workers set for s seconds and the same number of slices, and a rate r of at least one query
  -- for each of them: then the workers whose runs end have together sent at most s * r packets.
  pub run_workers_bound :
      (answers : ℕ → RunAnswers D) (s n r : ℕ) (t : SenderThread D) (ts : List (SenderThread D))
      → All (IsPlanned s n) (t ∷ ts)
      → length (t ∷ ts) ≤ r
      → sum (map packets_of (run_workers answers 0 (set_query_rates (pos r) (t ∷ ts)))) ≤ s * r
  run_workers_bound answers s n r t ts h enough =
      let us = set_query_rates (pos r) (t ∷ ts) in
      let rates = set_query_rates_lem r t ts in
      let limit =
        run_workers-limit answers 0 s (r / length (t ∷ ts)) n us (at_least_one r (length ts) enough)
          (set_query_rates-IsPlanned r s n (t ∷ ts) h) rates.1 in
      subst (λ k. sum (map packets_of (run_workers answers 0 us)) ≤ s * k) rates.0 limit
    where
      at_least_one : (r m : ℕ) → suc m ≤ r → 1 ≤ r / suc m
      at_least_one r m h = (le-div_iff_mul-le (omega arith)).1 (omega arith)
