-- ===== src/Sender/Session.antt =====
-- src/sender.cpp: the part of `main` that works through the list of query rates.
pub mod Rates
pub mod Bound
pub mod Plan
pub mod Kept
pub mod Returns
pub mod Examples
use udppingpong.Base.{ℕ, ◌+◌, Bool, Option, none, some, List, [], ◌∷◌, false, if◌then◌else◌, true}
use mathlib.Core.Option
use udppingpong.Base.Int.{ℤ}
use udppingpong.Double.{Double}
use udppingpong.Exception.{Exception, Result, ok, throw}
use udppingpong.Sender.Thread.{Packet, SenderThread}
use udppingpong.Sender.Thread.Run.{RunAnswers}
use udppingpong.Sender.Load.{Poll, set_query_rates, run_workers, end_of_run}
use udppingpong.Sender.Results.{Results, get_results}

-- What the calls during one load answer: those of the workers, and those of the loop that waits.
-- `failure` is the exception of a sample, or of the start of a thread, that fails.
pub record LoadAnswers (D : Type 0) : Type 0 where
  pub workers : ℕ → RunAnswers D
  pub polls : List Poll
  pub stop_flag : Bool
  pub failure : Option Exception

-- How the loads end: all done, with the pool after them, or with one that is interrupted or fails.
pub data Ending (D : Type 0) : Type 0 where
  finished : List (SenderThread D) → Ending D
  broken_off : Ending D
  failed : Ending D

-- The exit code.
abbrev pub exit_code : {D : Type 0} → Ending D → ℕ
exit_code (finished ts) = 0
exit_code broken_off = 0
exit_code failed = 1

module _ {D : Type 0} where
  -- The threads after their runs, if all of these have ended without an exception. An exception of a
  -- thread ends the program, without a result of the load or a return of `main`: it is `none` too.
  unfoldable pub threads_after :
      List (Result (Option (SenderThread D × List (Packet D)))) → Option (List (SenderThread D))
  threads_after [] = some []
  threads_after (ok (some (u, sent)) ∷ rest) = Option.map (λ us. u ∷ us) (threads_after rest)
  threads_after (ok none ∷ rest) = none
  threads_after (throw e ∷ rest) = none

-- The results of a load, before those of the loads after it.
abbrev pub with_report :
    {D : Type 0} → Results D → List (Results D) × Ending D → List (Results D) × Ending D
with_report r (rs, end) = (r ∷ rs, end)

module _ {D : Type 0} ⦃d : Double D⦄ where
  -- `run(queryrate)`: the threads after it, and whether it was interrupted, or the exception of what
  -- has failed. `none` if the answers given do not reach its end.
  unfoldable pub run_load :
      LoadAnswers D → ℤ → List (SenderThread D) → Option (Result (List (SenderThread D) × Bool))
  unfolding set_query_rates run_workers threads_after end_of_run
  run_load a queryrate ts = elim (a.failure) [
    | some e ↦ some (throw e)
    | none ↦ elim (threads_after (run_workers a.workers 0 (set_query_rates queryrate ts))) [
      | none ↦ none
      | some us ↦ elim (end_of_run a.polls a.stop_flag) [
        | none ↦ none
        | some (ok _) ↦ some (ok (us, false))
        | some (throw e) ↦ some (ok (us, true))
      ]
    ]
  ]

  -- The results that are presented and saved, one for each rate, up to the one that is interrupted or
  -- to that before the one that fails; and how they end.
  unfoldable pub run_rates :
      ℕ
      → (ℕ → LoadAnswers D)
      → ℤ
      → List ℤ
      → Results D
      → List (SenderThread D)
      → Option (List (Results D) × Ending D)
  unfolding run_load get_results
  run_rates i answers thread_count [] results ts = some ([], finished ts)
  run_rates i answers thread_count (rate ∷ rates) results ts = elim (run_load (answers i) rate ts) [
    | none ↦ none
    | some (throw e) ↦ some ([], failed)
    | some (ok (us, interrupted)) ↦
        let r = get_results thread_count us (record results { queryrate = rate }) in
        let later = run_rates (i + 1) answers thread_count rates r us in
        if interrupted then some (r ∷ [], broken_off) else Option.map (with_report r) later
  ]
