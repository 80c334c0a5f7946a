-- ===== src/Sender/Load.antt =====
-- src/sender.cpp: `run`, which spreads a query rate over the worker threads, starts them and waits
-- for them. What it prints in the meantime is in Sender/Load/Lines.antt.
pub mod Spread
pub mod Bound
pub mod Lines
pub mod Examples
use udppingpong.Base.{
  ℕ, suc, ◌+◌, not, ◌-◌, Bool, true, false, Option, none, some, List, [], ◌∷◌, length,
  if◌then◌else◌, ◌&&◌, not,
}
use mathlib.Core.Option
use udppingpong.Base.Int.{ℤ, pos, ◌-ℤ◌, tdiv}
use udppingpong.Exception.{Result, Thrown, throw, done, operation_interrupted}
use udppingpong.Sender.Thread.{Packet, SenderThread, set_query_rate}
use udppingpong.Sender.Thread.Run.{RunAnswers, run_sender}
use udppingpong.Double.{Double}

module _ {D : Type 0} where
  -- The loop over the pool, with what is left of the rate and of the threads.
  unfoldable pub spread : ℤ → ℕ → List (SenderThread D) → List (SenderThread D)
  unfolding set_query_rate
  spread queries_rest threads_rest [] = []
  spread queries_rest threads_rest (t ∷ ts) =
      let queries_thread = tdiv queries_rest (pos threads_rest) in
      set_query_rate queries_thread t
      ∷ spread (queries_rest -ℤ queries_thread) (threads_rest - 1) ts

  unfoldable pub set_query_rates : ℤ → List (SenderThread D) → List (SenderThread D)
  unfolding spread
  set_query_rates queryrate ts = spread queryrate (length ts) ts

module _ {D : Type 0} ⦃d : Double D⦄ where
  -- The threads of the pool, started; thread i gets `answers i`.
  unfoldable pub run_workers :
      (ℕ → RunAnswers D)
      → ℕ
      → List (SenderThread D)
      → List (Result (Option (SenderThread D × List (Packet D))))
  unfolding run_sender
  run_workers answers i [] = []
  run_workers answers i (t ∷ ts) = run_sender (answers i) t ∷ run_workers answers (i + 1) ts

-- A round of the loop that waits: whether the pool still runs, and the flag that the signal handler
-- sets.
pub record Poll : Type 0 where
  pub running : Bool
  pub stop_flag : Bool

-- `while (threadpool.running()==true && stopFlag==false)`: how often it sleeps for 100 ms, or `none`
-- if it does not end within the polls given.
unfoldable pub wait_for_threads : List Poll → Option ℕ
wait_for_threads [] = none
wait_for_threads (p ∷ ps) =
    let rest = wait_for_threads ps in
    if p.running && not p.stop_flag then Option.map suc rest else some 0

-- What follows the start of the threads; `stop_flag` is the reading after the loop.
unfoldable pub end_of_run : List Poll → Bool → Option Thrown
unfolding wait_for_threads
end_of_run polls stop_flag = elim (wait_for_threads polls) [
  | none ↦ none
  | some sleeps ↦ some (if stop_flag then throw operation_interrupted else done)
]
