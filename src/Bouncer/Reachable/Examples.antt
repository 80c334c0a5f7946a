-- ===== src/Bouncer/Reachable/Examples.antt =====
-- A bouncer that fails to start, is started again, counts, is asked and stopped.
use udppingpong.Bouncer.Thread.Setup.{bind}
use udppingpong.Bouncer.Thread.{
  count, set_no_echo, set_packet_size, Pass, run, buffer_size, create as create_thread, Thread,
}
use udppingpong.Bouncer.Reachable.Fit.{Reaches-sends_fit}
use udppingpong.Bouncer.Thread.Trace.{sends}
use udppingpong.Bouncer.Reachable.{Reaches, created, sized, started, collected, counted}
use udppingpong.Bouncer.Reachable.Owned.{Reaches-Keeps}
use udppingpong.Bouncer.Descriptors.{holds_all}
use udppingpong.Counter.{Counter}
use udppingpong.Bouncer.{Bouncer, Step, create, start, get_counter, set_fixed_response_packet_size}
use udppingpong.Base.{
  ℕ, refl, List, ◌≤◌, ◌+◌, Option, if◌then◌else◌, [], some, ◌==◌, modify, ◌++◌, none, All, get_or,
  arith, true, false, ◌∷◌,
}
use udppingpong.Base.Int.{pos}
use udppingpong.Socket.{Call, Answers}
use udppingpong.Socket.Descriptors.{opened, closed}

abbrev bound_to : ℕ → Option ℕ → Answers
bound_to n bind = record {
  socket = pos n;
  bind = bind;
  rcvbuf = some (pos 212_992);
  rcvbuf_errno = 0;
}

abbrev sized_bouncer : Bouncer ℕ ℕ
sized_bouncer = record (create 0) { packet_size = 64 }

abbrev garbage : Counter ℕ
garbage = record {
  packets_received = 1;
  packets_send = 1;
  bytes_received = 1;
  bytes_send = 1;
  sample_time = 1;
}

-- The second thread finds its address in use (EADDRINUSE).
abbrev second_in_use : ℕ → Answers
second_in_use i = bound_to (i + 4) (if i == 1 then some 98 else none)

abbrev failed_start : Step ℕ ℕ
failed_start = start 2 (bound_to 3 none) second_in_use 0 sized_bouncer

abbrev good_start : Step ℕ ℕ
good_start = start 2 (bound_to 3 none) (λ i. bound_to (i + 6) none) 0 (failed_start.bouncer)

abbrev counting : Bouncer ℕ ℕ
counting = record (good_start.bouncer) {
  threadpool = modify (good_start.bouncer.threadpool) 1 (count 100);
}

abbrev asked : Bouncer ℕ ℕ
asked = (get_counter garbage 5 counting).1

abbrev all_calls : List (Call ℕ)
all_calls = ([] ++ failed_start.calls) ++ good_start.calls

way : Reaches 0 all_calls asked
unfolding create set_fixed_response_packet_size
way = collected garbage 5 (
    counted 1 100 (
      started 2 (bound_to 3 none) (λ i. bound_to (i + 6) none) 0
        (started 2 (bound_to 3 none) second_in_use 0 (sized 64 created refl))))

Reaches-Keeps_example :
    closed (pos 5) all_calls + holds_all (pos 5) asked ≤ opened (pos 5) all_calls
Reaches-Keeps_example = Reaches-Keeps 0 all_calls asked (pos 5) way

-- The second worker gets a packet of 100 bytes from address 7.
abbrev passes : List (Pass ℕ)
passes =
    record {
      received = some (100, 7);
      select = record { ret = pos 1; is_set = true };
      clock = 0;
      should_stop = false;
    }
    ∷ []

abbrev second : Thread ℕ
second = get_or asked.threadpool 1 (create_thread 0)

Reaches-sends_fit_example : All (λ p. p.0 ≤ buffer_size) (sends (run second 0 passes).calls)
unfolding run get_counter start create bind set_no_echo create_thread set_packet_size count
Reaches-sends_fit_example =
    Reaches-sends_fit 0 all_calls asked 1 (create_thread 0) 0 passes way (omega arith)
      (omega arith, tt)
