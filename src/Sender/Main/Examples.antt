-- ===== src/Sender/Main/Examples.antt =====
-- A session of the sender with two rates, and the theorems at it.
use udppingpong.Sender.Main.Bound.{main-bound}
use udppingpong.Sender.Main.Returns.{main-returns}
use udppingpong.Sender.Thread.Run.Examples.{passes}
use udppingpong.Sender.Main.Closing.{main-closes}
use udppingpong.Sender.Main.Sockets.{closing, close_all}
use udppingpong.Sender.Session.Plan.{IsWithin}
use udppingpong.Sender.Results.Examples.{unset}
use udppingpong.Sender.Results.Figures.{heading, csv_line}
use udppingpong.Sender.Main.Reports.{main_lem, AreReports}
use udppingpong.Sender.Session.{run_rates, LoadAnswers}
use udppingpong.Sender.Session.Examples.{load}
use udppingpong.Sender.Thread.Examples.{noise}
use udppingpong.Sender.Thread.Rate.{rate_loop, total_zeitscheiben}
use udppingpong.Sender.Program.Examples.{net, os}
use udppingpong.Sender.Program.{numbers, get_query_rates}
use udppingpong.Sender.Thread.{create, send_packets}
use udppingpong.Sender.Program.Prepare.{prepare_threads, ThreadAnswers}
use udppingpong.Sender.Main.{World, Ended, main, Arguments, udp_sender}
use mathlib.Core.List.{Perm}
use udppingpong.Base.{
  ℕ, ◌+◌, ◌≡◌, ◌⊎◌, inl, refl, false, true, some, none, [], ◌∷◌, map, Option, ◌==◌, All, arith,
  if◌then◌else◌,
}
use udppingpong.Base.Int.{pos, ◌+ℤ◌, ◌-ℤ◌, ◌*ℤ◌, tdiv}
use udppingpong.Base.Word.{add64}
use udppingpong.Exception.{Exception, Result, ok, throw, could_not_open_socket}
use udppingpong.Double.Micros.{Micros, micros_double}

abbrev pub world : World Micros ℕ ℕ ℕ
world = record {
  net = net;
  trimmed = λ s. s;
  is_comment = λ s. s == 1;
  to_rate = pos;
  fuel = 0;
  empty = noise;
  threads = os;
  loads = load;
  unset = unset;
}

abbrev arguments : Arguments Micros ℕ
arguments = record {
  help = false;
  ziel = 5001;
  packetsize = pos 0;
  laufzeit = pos 1;
  timeout = pos 0;
  thread_count = pos 0;
  query_rates = numbers (10 ∷ 4 ∷ []);
  zeitscheibe = some (pos 250_000_000);
  csv_file = some (ok []);
  ignore = true;
  source_ips = none;
  list_file = some (ok (40 ∷ 0 ∷ 1 ∷ []));
  always_randomize = false;
}

abbrev nothing_ended : Ended Micros
nothing_ended = record { code = 7; results = []; csv = none; destroyed = [] }

abbrev ended : Result (Option (Ended Micros)) → Ended Micros
ended (ok (some e)) = e
ended (ok none) = nothing_ended
ended (throw x) = nothing_ended

abbrev end : Ended Micros
end = ended (main world arguments (udp_sender 0))

tests : (end.code ≡ 0) × (map (λ r. r.counter_send) end.results ≡ 6 ∷ 4 ∷ [])
unfolding main udp_sender create rate_loop total_zeitscheiben tdiv ◌*ℤ◌ ◌+ℤ◌ ◌-ℤ◌ send_packets add64
    run_rates prepare_threads
tests = (refl, refl)

-- The second load fails.
abbrev failing : ℕ → LoadAnswers Micros
failing i = record (load i) { failure = if i == 1 then some could_not_open_socket else none }

abbrev failed : Ended Micros
failed = ended (main (record world { loads = failing }) arguments (udp_sender 0))

failed_tests :
    (failed.code ≡ 1)
    × (map (λ r. r.counter_send) failed.results ≡ 6 ∷ [])
    × (failed.csv ≡ some (heading ∷ map (csv_line (pos 1)) failed.results))
unfolding main udp_sender create rate_loop total_zeitscheiben tdiv ◌*ℤ◌ ◌+ℤ◌ ◌-ℤ◌ send_packets add64
    run_rates prepare_threads
failed_tests = (refl, refl, refl)

main_lem_example :
    AreReports load (pos 10 ∷ pos 4 ∷ []) end.results
    × (end.csv ≡ some (heading ∷ map (csv_line (pos 1)) end.results))
unfolding main udp_sender create rate_loop total_zeitscheiben tdiv ◌*ℤ◌ ◌+ℤ◌ ◌-ℤ◌ send_packets add64
    run_rates prepare_threads
main_lem_example =
    main_lem world arguments (udp_sender 0) end [] (10 ∷ 4 ∷ []) refl refl refl refl refl

main-bound_example : All (IsWithin 1) end.results
unfolding main udp_sender create rate_loop total_zeitscheiben tdiv ◌*ℤ◌ ◌+ℤ◌ ◌-ℤ◌ send_packets add64
    run_rates prepare_threads
main-bound_example =
    main-bound world 1 4 1 arguments (udp_sender 0) end (10 ∷ 4 ∷ []) refl refl refl refl
      (omega arith) refl ((10, refl, omega arith), ((4, refl, omega arith), tt))

-- The same session with two workers, of sockets 3 and 4; the second stands before the first.
abbrev two_threads : ℕ → ThreadAnswers ℕ
two_threads i = record (os i) { socket = pos (3 + i); place = 1 }

abbrev two_workers : Ended Micros
two_workers = ended (
    main (record world { threads = two_threads }) (record arguments { thread_count = pos 2 })
      (udp_sender 0))

main-closes_example : Perm (closing {A = ℕ} two_workers.destroyed) (close_all (pos 3 ∷ pos 4 ∷ []))
unfolding main udp_sender create rate_loop total_zeitscheiben tdiv ◌*ℤ◌ ◌+ℤ◌ ◌-ℤ◌ send_packets add64
    run_rates prepare_threads
main-closes_example =
    main-closes (record world { threads = two_threads }) (λ j. refl)
      (record arguments { thread_count = pos 2 }) (udp_sender 0) two_workers refl refl refl

main-returns_example :
    ((x : Exception) × (main world arguments (udp_sender 0) ≡ throw x))
    ⊎ ((e : Ended Micros) × (main world arguments (udp_sender 0) ≡ ok (some e)))
unfolding udp_sender tdiv ◌*ℤ◌ ◌+ℤ◌ get_query_rates
main-returns_example =
    main-returns world arguments (udp_sender 0) (10 ∷ 4 ∷ []) refl
      λ j. ((λ k. (passes, refl)), inl refl)
