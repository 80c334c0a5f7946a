-- ===== src/Sender/Session/Kept.antt =====
-- What a run of a worker leaves alone, every load leaves alone, over the whole pool.
use udppingpong.Base.{
  ℕ, ◌+◌, ◌-◌, ◌≡◌, refl, List, [], ◌∷◌, map, length, some, Bool, arith, ap, inl, inr, Option-cases,
  ◌∙◌,
}
use udppingpong.Base.Int.{ℤ, pos, ◌-ℤ◌, tdiv}
use udppingpong.Double.{Double}
use udppingpong.Exception.{ok, Result-cases}
use udppingpong.Sender.Thread.{Packet, SenderThread, set_query_rate}
use udppingpong.Sender.Thread.Run.{RunAnswers, run_sender}
use udppingpong.Sender.Load.{spread, run_workers, set_query_rates}
use udppingpong.Sender.Session.{LoadAnswers, threads_after, run_load}
use udppingpong.Sender.Session.Bound.{run_load-ended}

module _ {D B : Type 0} ⦃d : Double D⦄ (f : SenderThread D → B)
    (rate : (q : ℤ) (t : SenderThread D) → f (set_query_rate q t) ≡ f t)
    (same : (a : RunAnswers D) (t u : SenderThread D) (sent : List (Packet D))
      → run_sender a t ≡ ok (some (u, sent))
      → f u ≡ f t) where
  pub spread-kept : (r : ℤ) (m : ℕ) (ts : List (SenderThread D)) → map f (spread r m ts) ≡ map f ts
  unfolding spread
  spread-kept r m [] = refl
  spread-kept r m (t ∷ ts) =
      let q = tdiv r (pos m) in rw (rate q t, spread-kept (r -ℤ q) (m - 1) ts)

  threads_after-kept :
      (answers : ℕ → RunAnswers D) (i : ℕ) (ts us : List (SenderThread D))
      → threads_after (run_workers answers i ts) ≡ some us
      → map f us ≡ map f ts
  unfolding threads_after run_workers
  threads_after-kept answers i [] us h =
      let none_left : [] ≡ us = ground (arith, h) in rw (← none_left) refl
  threads_after-kept answers i (t ∷ ts) us h =
      let rest = run_workers answers (i + 1) ts in
      elim (Result-cases (run_sender (answers i) t)) [
        | inr (x, failed) ↦ ground (arith, h, failed)
        | inl (o, ran) ↦ elim (Option-cases o) [
          | inl stuck ↦ ground (arith, h, ran, stuck)
          | inr ((u, sent), ended) ↦ elim (Option-cases (threads_after rest)) [
            | inl gap ↦ ground (arith, h, ran, ended, gap)
            | inr (vs, more) ↦
                let all : u ∷ vs ≡ us = ground (arith, h, ran, ended, more) in
                let first = same (answers i) t u sent (ran ∙ ap ok ended) in
                let others = threads_after-kept answers (i + 1) ts vs more in
                rw (← all, first, others)
          ]
        ]
      ]

  pub run_load-kept :
      (a : LoadAnswers D) (r : ℤ) (ts us : List (SenderThread D)) (b : Bool)
      → run_load a r ts ≡ some (ok (us, b))
      → map f us ≡ map f ts
  unfolding set_query_rates
  run_load-kept a r ts us b h =
      threads_after-kept a.workers 0 (set_query_rates r ts) us (run_load-ended a r ts us b h)
      ∙ spread-kept r (length ts) ts
