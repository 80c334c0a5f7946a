-- ===== src/Receiver/Examples.antt =====
-- A run of the receiver, and the theorems at it.
use udppingpong.Base.{ℕ, ◌≡◌, refl, true, false, Option, none, some, List, [], ◌∷◌, ◌++◌, arith}
use udppingpong.Base.Int.{pos, tdiv, ◌+ℤ◌, ◌-ℤ◌, ◌*ℤ◌}
use udppingpong.Base.Word.{add64, signed64}
use udppingpong.Double.Extremes.{IsMinimum, IsMaximum}
use udppingpong.Double.Micros.{Micros, micros_double, Micros-IsOrdered}
use udppingpong.Receiver.{
  Receiver, Arrival, Pass, create, run, set_socket_descriptor, get_packets_received,
  get_round_trip_time_average, get_round_trip_time_min,
}
use udppingpong.Receiver.Measuring.{run_totals, run_extremes}
use udppingpong.Receiver.Stopping.{run_ends}

abbrev sent_and_back : ℕ → ℕ → Arrival Micros
sent_and_back time now = record { bytes = 256; time = some (pos time); now = some (pos now) }

abbrev pass : Option (Arrival Micros) → Pass Micros
pass received = record { received = received; clock = 10; should_stop = false }

abbrev slow : Arrival Micros
slow = sent_and_back 1000 1900

abbrev quick : Arrival Micros
quick = sent_and_back 2000 2100

abbrev passes : List (Pass Micros)
passes = pass (some slow) ∷ pass none ∷ pass (some quick) ∷ []

abbrev last : Pass Micros
last = record { received = none; clock = 11; should_stop = true }

abbrev fresh : Receiver Micros
fresh = record {
  sockfd = pos 3;
  counter_received = 0;
  bytes_received = 0;
  rtt_total = some (pos 0);
  rtt_min = some (pos 0);
  rtt_max = some (pos 0);
}

results :
    let r = (run fresh 9 (passes ++ last ∷ [])).receiver in
    (get_packets_received r ≡ 2)
    × (get_round_trip_time_average r ≡ some (pos 500))
    × (get_round_trip_time_min r ≡ some (pos 100))
    × (set_socket_descriptor (pos 3) create ≡ fresh)
unfolding run get_packets_received get_round_trip_time_average get_round_trip_time_min
    set_socket_descriptor create add64 signed64 tdiv ◌+ℤ◌ ◌-ℤ◌ ◌*ℤ◌
results = (refl, refl, refl, refl)

run_totals_example : (run fresh 9 passes).receiver.bytes_received ≡ 512
unfolding run
run_totals_example = (run_totals fresh 9 passes).1

run_extremes_example :
    let s = (run fresh 9 passes).receiver in
    let times : List Micros = some (pos 900) ∷ some (pos 100) ∷ [] in
    IsMinimum s.rtt_min times × IsMaximum s.rtt_max times
unfolding run ◌-ℤ◌
run_extremes_example =
    run_extremes Micros-IsOrdered fresh 9 passes slow (quick ∷ []) refl (refl, (refl, tt))

run_ends_example : (run fresh 9 (passes ++ last ∷ [])).stopped ≡ true
run_ends_example = run_ends fresh 9 passes last [] (omega arith) (omega arith) refl
