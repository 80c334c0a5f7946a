-- ===== src/Sender/Session/Returns.antt =====
-- When the loads of a session come to their end.
use mathlib.Core.Path.{subst}
use udppingpong.Base.{
  ℕ, suc, ◌+◌, not, ◌&&◌, ◌≡◌, refl, true, false, List, [], ◌∷◌, some, none, Bool, arith, All, Any,
  All-map, map-All, ap, inl, inr, Bool-cases, Option-cases, ◌∙◌, sym,
}
use udppingpong.Base.Int.{ℤ}
use udppingpong.Double.{Double}
use udppingpong.Exception.{ok, Result, Result-cases}
use udppingpong.Socket.{is_set}
use udppingpong.Sender.Thread.{Packet, SenderThread, set_query_rate}
use udppingpong.Sender.Thread.Run.{RunAnswers, run_sender}
use udppingpong.Sender.Thread.Run.Returns.{run_sender-returns}
use udppingpong.Sender.Thread.Run.Passes.{Passes}
use udppingpong.Sender.Thread.Run.Settings.{run_sender-settings}
use udppingpong.Sender.Load.{Poll, run_workers, set_query_rates, wait_for_threads, end_of_run}
use udppingpong.Sender.Results.{Results, get_results}
use udppingpong.Sender.Session.{LoadAnswers, Ending, threads_after, run_load, run_rates}
use udppingpong.Sender.Session.Kept.{run_load-kept, spread-kept}

-- The pool is done, or the stop flag is set, at some time.
abbrev pub IsOver : List Poll → Type 0
IsOver polls = Any (λ p. (p.running && not p.stop_flag) ≡ false) polls

wait_for_threads-IsOver :
    (polls : List Poll) → IsOver polls → (sleeps : ℕ) × (wait_for_threads polls ≡ some sleeps)
unfolding wait_for_threads
wait_for_threads-IsOver [] h = absurd h
wait_for_threads-IsOver (p ∷ ps) h = elim (Bool-cases (p.running && not p.stop_flag)) [
  | inr over ↦ (0, rw over refl)
  | inl on ↦ elim h [
    | inl over ↦ ground (arith, on, over)
    | inr later ↦ let (k, ends) = wait_for_threads-IsOver ps later in (suc k, rw (on, ends) refl)
  ]
]

module _ {D : Type 0} where
  -- What the end of a run depends on: running time, timeout, slice, and whether there is a socket.
  abbrev pub plan_of : SenderThread D → (ℤ × ℤ) × (D × Bool)
  plan_of t = ((t.runtime, t.timeout), (t.zeitscheibe, is_set t.sockfd))

  abbrev pub IsReady : ℤ → ℤ → D → SenderThread D → Type 0
  IsReady runtime timeout slice t = plan_of t ≡ ((runtime, timeout), (slice, true))

module _ {D : Type 0} ⦃d : Double D⦄ where
  -- The answers for the workers of a load let each of them return.
  abbrev pub AllPass : ℤ → ℤ → D → (ℕ → RunAnswers D) → Type 0
  AllPass runtime timeout slice answers =
      (j : ℕ) → Passes runtime timeout slice (answers j) × ((answers j).sock_errno ≡ none)

  -- The answers for a load let it come to its end.
  abbrev pub LoadPasses : ℤ → ℤ → D → LoadAnswers D → Type 0
  LoadPasses runtime timeout slice a = AllPass runtime timeout slice a.workers × IsOver a.polls

  run_sender-plan :
      (a : RunAnswers D) (t u : SenderThread D) (sent : List (Packet D))
      → run_sender a t ≡ ok (some (u, sent))
      → plan_of u ≡ plan_of t
  run_sender-plan a t u sent e =
      ap (λ s. (s.0, (s.1.0, is_set s.1.1))) (run_sender-settings a t u sent e)

  threads_after-returns :
      (runtime timeout : ℤ) (slice : D) (answers : ℕ → RunAnswers D) (i : ℕ)
      (ts : List (SenderThread D))
      → All (IsReady runtime timeout slice) ts
      → AllPass runtime timeout slice answers
      → (us : List (SenderThread D)) × (threads_after (run_workers answers i ts) ≡ some us)
  unfolding threads_after run_workers
  threads_after-returns runtime timeout slice answers i [] all h = ([], refl)
  threads_after-returns runtime timeout slice answers i (t ∷ ts) (plan, plans) h =
      let (passes, fine) = h i in
      let passes_t =
        subst (λ (p : (ℤ × ℤ) × (D × Bool)). Passes p.0.0 p.0.1 p.1.0 (answers i)) (sym plan)
          passes in
      let (u, (sent, ran)) =
        run_sender-returns (answers i) t (ap (λ p. p.1.1) plan) fine passes_t in
      let (us, rest) = threads_after-returns runtime timeout slice answers (i + 1) ts plans h in
      (u ∷ us, ground (arith, ran, rest))

  run_load-IsReady :
      (runtime timeout : ℤ) (slice : D) (a : LoadAnswers D) (r : ℤ) (ts us : List (SenderThread D))
      (b : Bool)
      → All (IsReady runtime timeout slice) ts
      → run_load a r ts ≡ some (ok (us, b))
      → All (IsReady runtime timeout slice) us
  unfolding set_query_rate
  run_load-IsReady runtime timeout slice a r ts us b ready h =
      let P = λ (p : (ℤ × ℤ) × (D × Bool)). p ≡ ((runtime, timeout), (slice, true)) in
      let kept = run_load-kept plan_of (λ q t. refl) run_sender-plan a r ts us b h in
      map-All P plan_of us (subst (All P) (sym kept) (All-map P plan_of ts ready))

  set_query_rates-IsReady :
      (runtime timeout : ℤ) (slice : D) (r : ℤ) (ts : List (SenderThread D))
      → All (IsReady runtime timeout slice) ts
      → All (IsReady runtime timeout slice) (set_query_rates r ts)
  unfolding set_query_rates set_query_rate
  set_query_rates-IsReady runtime timeout slice r ts ready =
      let P = λ (p : (ℤ × ℤ) × (D × Bool)). p ≡ ((runtime, timeout), (slice, true)) in
      let kept = spread-kept plan_of (λ q t. refl) run_sender-plan r _ ts in
      map-All P plan_of (set_query_rates r ts)
        (subst (All P) (sym kept) (All-map P plan_of ts ready))

  run_load-returns :
      (runtime timeout : ℤ) (slice : D) (a : LoadAnswers D) (r : ℤ) (ts : List (SenderThread D))
      → All (IsReady runtime timeout slice) ts
      → LoadPasses runtime timeout slice a
      → (o : Result (List (SenderThread D) × Bool)) × (run_load a r ts ≡ some o)
  unfolding run_load end_of_run
  run_load-returns runtime timeout slice a r ts ready (passes, over) =
      let (us, ran) =
        threads_after-returns runtime timeout slice a.workers 0 (set_query_rates r ts)
          (set_query_rates-IsReady runtime timeout slice r ts ready) passes in
      let (sleeps, ends) = wait_for_threads-IsOver a.polls over in
      elim (Option-cases (run_load a r ts)) [
        | inr found ↦ found
        | inl stuck ↦ ground (arith, stuck, ran, ends)
      ]

  -- The session comes to an end when the clocks get on in each of its loads, past the times of each
  -- worker, and each pool is done or the stop flag is set.
  pub run_rates-returns :
      (runtime timeout : ℤ) (slice : D) (i : ℕ) (answers : ℕ → LoadAnswers D) (n : ℤ)
      (rates : List ℤ) (results : Results D) (ts : List (SenderThread D))
      → All (IsReady runtime timeout slice) ts
      → ((j : ℕ) → LoadPasses runtime timeout slice (answers j))
      → (x : List (Results D) × Ending D) × (run_rates i answers n rates results ts ≡ some x)
  unfolding run_rates
  run_rates-returns runtime timeout slice i answers n [] results ts ready h = (_, refl)
  run_rates-returns runtime timeout slice i answers n (rate ∷ rates) results ts ready h =
      let (o, over) = run_load-returns runtime timeout slice (answers i) rate ts ready (h i) in
      elim (Option-cases (run_rates i answers n (rate ∷ rates) results ts)) [
        | inr found ↦ found
        | inl stuck ↦ elim (Result-cases o) [
          | inr (x, failed) ↦ ground (arith, stuck, over, failed)
          | inl ((us, b), fine) ↦
              let r = get_results n us (record results { queryrate = rate }) in
              let after =
                run_load-IsReady runtime timeout slice (answers i) rate ts us b ready
                  (over ∙ ap some fine) in
              let (x, rest) =
                run_rates-returns runtime timeout slice (i + 1) answers n rates r us after h in
              elim (Bool-cases b) [
                | inl stop ↦ ground (arith, stuck, over, fine, stop)
                | inr on ↦ ground (arith, stuck, over, fine, on, rest)
              ]
        ]
      ]
