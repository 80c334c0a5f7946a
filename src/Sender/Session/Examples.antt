-- ===== src/Sender/Session/Examples.antt =====
-- Two loads on one worker, and the theorem at them.
use udppingpong.Base.{ℕ, ◌≡◌, refl, false, Option, some, none, [], ◌∷◌, List, map, Bool}
use udppingpong.Base.Int.{ℤ, pos, ◌+ℤ◌, ◌-ℤ◌, ◌*ℤ◌, tdiv}
use udppingpong.Base.Word.{add64}
use udppingpong.Exception.{Result, ok, throw}
use udppingpong.Double.Micros.{Micros, micros_double}
use udppingpong.Sender.Thread.{SenderThread, create, send_packets}
use udppingpong.Sender.Thread.Rate.{rate_loop, total_zeitscheiben}
use udppingpong.Sender.Thread.Examples.{worker}
use udppingpong.Sender.Thread.Run.Examples.{run_answers}
use udppingpong.Sender.Results.{Results}
use udppingpong.Sender.Results.Examples.{unset}
use udppingpong.Sender.Session.{Ending, LoadAnswers, run_rates, run_load}

abbrev pub load : ℕ → LoadAnswers Micros
load i = record {
  workers = λ j. run_answers;
  polls = record { running = false; stop_flag = false } ∷ [];
  stop_flag = false;
  failure = none;
}

abbrev pool : List (SenderThread Micros)
pool = worker ∷ []

abbrev rates : List ℤ
rates = pos 10 ∷ pos 4 ∷ []

abbrev or_empty : Option (List (Results Micros) × Ending Micros) → List (Results Micros)
or_empty none = []
or_empty (some (rs, end)) = rs

abbrev reports : List (Results Micros)
reports = or_empty (run_rates 0 load (pos 1) rates unset pool)

tests : map (λ r. r.counter_send) reports ≡ 6 ∷ 4 ∷ []
unfolding run_rates tdiv create rate_loop total_zeitscheiben ◌*ℤ◌ ◌+ℤ◌ send_packets ◌-ℤ◌ add64
tests = refl

abbrev threads_of : Option (Result (List (SenderThread Micros) × Bool)) → List (SenderThread Micros)
threads_of none = []
threads_of (some (throw e)) = []
threads_of (some (ok (us, b))) = us

-- The threads after the first load.
abbrev loaded : List (SenderThread Micros)
loaded = threads_of (run_load (load 0) (pos 10) pool)
