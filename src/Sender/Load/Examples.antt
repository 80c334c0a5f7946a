-- ===== src/Sender/Load/Examples.antt =====
-- A load on a pool of two workers, and the theorems at it.
use udppingpong.Base.Word.{sub64, add64}
use udppingpong.Sensor.{Traffic, get_usage}
use udppingpong.Status.{bouncer_status}
use udppingpong.Counter.{Counter, clear}
use udppingpong.Sensor.System.{SystemStat}
use udppingpong.Sender.Load.Lines.{Lines, print_load_lines, Leads, Tick, print_load_lines-Leads}
use udppingpong.Base.{◌≡◌, refl, true, false, some, none, [], ◌∷◌, arith, ℕ, List, ◌+◌, ◌*◌, map}
use udppingpong.Base.Int.{pos, ◌-ℤ◌, tdiv, ◌+ℤ◌, ◌*ℤ◌}
use udppingpong.Double.Micros.{micros_double, Micros}
use udppingpong.Exception.{done, throw, operation_interrupted}
use udppingpong.Sender.Thread.Examples.{worker}
use udppingpong.Sender.Thread.Run.Examples.{run_answers}
use udppingpong.Sender.Load.{Poll, set_query_rates, end_of_run}
use udppingpong.Sender.Load.Spread.{set_query_rates_unlimited}

abbrev poll : Poll
poll = record { running = true; stop_flag = false }

tests :
    (end_of_run (poll ∷ poll ∷ record { running = false; stop_flag = false } ∷ []) false
      ≡ some done)
    × (end_of_run (poll ∷ []) false ≡ none)
    × (end_of_run (record poll { stop_flag = true } ∷ []) true ≡ some (throw operation_interrupted))
unfolding end_of_run
tests = (refl, refl, refl)

set_query_rates_unlimited_example :
    set_query_rates (pos 1) (worker ∷ worker ∷ [])
    ≡ record worker { queryrate = pos 0 } ∷ record worker { queryrate = pos 1 } ∷ []
unfolding set_query_rates tdiv ◌-ℤ◌
set_query_rates_unlimited_example =
    (set_query_rates_unlimited 1 worker (worker ∷ []) run_answers (omega arith)).0

-- A sample with n packets on the interfaces each way.
abbrev pub stat_of : ℕ → SystemStat Micros ℕ
stat_of n =
    let t : Traffic = record { bytes = n * 262_144; packets = n; errs = 0; drop = 1 } in
    record {
      sample_time = none;
      cpu = record { user = pos n; nice = pos 0; system = pos 0; idle = pos 10; iowait = pos 0 };
      sysinfo = record {
        uptime = 0;
        freeswap = 0;
        totalswap = 0;
        freeram = 0;
        bufferram = 0;
        totalram = 0;
        sharedram = 0;
        procs = pos 0;
      };
      net_total = record { interfaces = []; received = t; transmitted = t };
    }

abbrev counter_of : ℕ → Counter Micros
counter_of n = record {
  packets_received = n;
  packets_send = n + 1;
  bytes_received = 0;
  bytes_send = 0;
  sample_time = none;
}

-- The second round comes too early for a line.
abbrev ticks : List (Tick Micros ℕ)
ticks =
    record { now = some (pos 1_100_000); stat = stat_of 20; counter = counter_of 5 }
    ∷ record { now = some (pos 1_200_000); stat = stat_of 21; counter = counter_of 6 }
    ∷ record { now = some (pos 2_000_000); stat = stat_of 40; counter = counter_of 9 }
    ∷ []

abbrev printed : Lines Micros ℕ
printed = print_load_lines (some (pos 0)) (stat_of 10) (counter_of 77) ticks

line_tests :
    (map (λ l. l.app_tx) printed.lines ≡ 6 ∷ 4 ∷ [])
    × (map (λ l. l.mbit_rx) printed.lines ≡ 20 ∷ 40 ∷ [])
    × ((bouncer_status (stat_of 10) (stat_of 12) (counter_of 3)).drops ≡ 0)
unfolding print_load_lines bouncer_status sub64 add64 ◌+ℤ◌ ◌-ℤ◌ ◌*ℤ◌ tdiv get_usage
line_tests = (refl, refl, refl)

print_load_lines-Leads_example :
    Leads printed.lines (stat_of 10) (clear (counter_of 77)) printed.stat printed.counter
print_load_lines-Leads_example =
    print_load_lines-Leads (some (pos 0)) (stat_of 10) (counter_of 77) ticks (omega arith)
      (omega arith)
      (
        (omega arith, omega arith, omega arith, omega arith),
        (
          (omega arith, omega arith, omega arith, omega arith),
          ((omega arith, omega arith, omega arith, omega arith), tt),
        ),
      )
