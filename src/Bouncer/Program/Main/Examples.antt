-- ===== src/Bouncer/Program/Main/Examples.antt =====
-- A run of the bouncer with two threads, and the theorems at it.
use udppingpong.Bouncer.{
  Bouncer, set_fixed_response_packet_size, start, create, set_interface, ok, throw,
}
use udppingpong.Bouncer.Thread.Setup.{bind}
use udppingpong.Bouncer.Thread.{set_no_echo, set_packet_size, create as create_thread}
use udppingpong.Bouncer.Program.Main.Balance.{main-balance}
use udppingpong.Socket.Descriptors.{opened, closed}
use udppingpong.Bouncer.Program.{Arguments, Round, run_bouncer}
use udppingpong.Bouncer.Program.Lines.{received_by, handled_in, run_bouncer-received}
use udppingpong.Counter.{clear}
use udppingpong.Status.{Status}
use udppingpong.Base.Word.{word_mod, add64, sub64}
use udppingpong.Bouncer.Program.Main.{World, Ended, main}
use udppingpong.Bouncer.Program.Examples.{arguments, resolve, sock_addr, round}
use udppingpong.Exception.{Result}
use udppingpong.Sender.Load.Examples.{stat_of}
use udppingpong.Socket.{Answers}
use udppingpong.Base.{
  ℕ, ◌≡◌, refl, true, false, some, none, [], ◌∷◌, ◌+◌, Option, length, List, map, sum, ◌%◌,
}
use udppingpong.Base.Int.{pos, ◌+ℤ◌, ◌*ℤ◌}
use udppingpong.Double.Micros.{Micros, micros_double}

abbrev two_threads : Arguments ℕ
two_threads = record arguments { thread_count = pos 2 }

abbrev socket_answers : ℕ → Answers
socket_answers fd = record {
  socket = pos fd;
  bind = none;
  rcvbuf = some (pos 200_000);
  rcvbuf_errno = 0;
}

abbrev world : World Micros ℕ
world = record {
  main_os = socket_answers 3;
  os = λ i. socket_answers (i + 4);
  time = some (pos 0);
  loop_start = some (pos 0);
  stat_start = stat_of 1;
  rounds = round 1_000_000 ∷ record (round 1_100_000) { stop_flag = true } ∷ [];
}

abbrev no_run : Ended Micros ℕ
no_run = record { code = 7; calls = []; lines = [] }

abbrev ended_of : Result (Option (Ended Micros ℕ)) → Ended Micros ℕ
ended_of (ok (some e)) = e
ended_of (ok none) = no_run
ended_of (throw x) = no_run

abbrev run : Ended Micros ℕ
run = ended_of (main pos resolve sock_addr 0 two_threads false world)

tests : (run.code ≡ 0) × (length run.lines ≡ 1) × (opened (pos 5) run.calls ≡ 1)
unfolding main create start ◌+ℤ◌ ◌*ℤ◌ set_interface set_fixed_response_packet_size bind set_no_echo
    create_thread set_packet_size
tests = (refl, refl, refl)

main-balance_example : opened (pos 5) run.calls ≡ closed (pos 5) run.calls
unfolding main create start ◌+ℤ◌ ◌*ℤ◌ set_interface set_fixed_response_packet_size bind
main-balance_example = main-balance pos resolve sock_addr 0 two_threads false world (pos 5) run refl

-- The bouncer with its two threads started.
abbrev ready : Bouncer Micros ℕ
ready = (start 2 world.main_os world.os world.time (create 0)).bouncer

abbrev rounds : List (Round Micros ℕ)
rounds =
    round 500_000
    ∷ round 1_000_000
    ∷ round 1_100_000
    ∷ record (round 1_200_000) { stop_flag = true }
    ∷ []

abbrev served : Bouncer Micros ℕ × List (Status Micros)
served = run_bouncer false (some (pos 0)) (stat_of 1) rounds ready

served_tests :
    (map (λ l. l.app_rx) served.1 ≡ 8 ∷ [])
    × (received_by served.0.threadpool ≡ 4)
    × (handled_in rounds (length ready.threadpool) ≡ 12)
unfolding run_bouncer create start ◌+ℤ◌ ◌*ℤ◌ bind set_no_echo create_thread set_packet_size add64
    sub64 clear
served_tests = (refl, refl, refl)

run_bouncer-received_example :
    (sum (map (λ l. l.app_rx) served.1) + received_by served.0.threadpool) % word_mod
    ≡ (received_by ready.threadpool + handled_in rounds (length ready.threadpool)) % word_mod
run_bouncer-received_example = run_bouncer-received false (some (pos 0)) (stat_of 1) rounds ready
