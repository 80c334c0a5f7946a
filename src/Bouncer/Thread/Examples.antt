-- ===== src/Bouncer/Thread/Examples.antt =====
-- Runs of a worker, and its theorems at them.
use udppingpong.Base.{
  ◌≡◌, arith, some, none, [], true, refl, ℕ, false, List, ◌∷◌, replicate, map, ◌++◌, ◌==◌, inr,
}
use udppingpong.Base.Int.{pos}
use udppingpong.Base.Word.{add64}
use udppingpong.Bouncer.Thread.{
  Thread, Pass, Pselect, recvfrom, sendto, waited, create, set_packet_size, set_no_echo,
  get_and_clear_counter, run,
}
use udppingpong.Bouncer.Thread.Trace.{sends}
use udppingpong.Bouncer.Thread.Replies.{run-sends}
use udppingpong.Bouncer.Thread.Counting.{IsWord, run-Counts}
use udppingpong.Bouncer.Thread.Stopping.{run_stops}
use udppingpong.Bouncer.Thread.Contents.{echo, own, front, echo_same, echo_stale, echo-own}

-- A worker that answers with 64 bytes.
abbrev fixed : Thread ℕ
fixed = record {
  sockfd = pos 3;
  no_echo = false;
  counter = record {
    packets_received = 0;
    packets_send = 0;
    bytes_received = 0;
    bytes_send = 0;
    sample_time = 0;
  };
  packet_size = 64;
}

abbrev idle : Pselect
idle = record { ret = pos 0; is_set = false }

-- Two packets from the clients 7 and 8, then a timeout, then a packet in the second that ends it.
abbrev packet_7 : Pass ℕ
packet_7 = record { received = some (256, 7); select = idle; clock = 10; should_stop = false }

abbrev packet_8 : Pass ℕ
packet_8 = record { received = some (300, 8); select = idle; clock = 10; should_stop = false }

abbrev timeout : Pass ℕ
timeout = record { received = none; select = idle; clock = 10; should_stop = false }

abbrev last : Pass ℕ
last = record { received = some (256, 7); select = idle; clock = 11; should_stop = true }

abbrev passes : List (Pass ℕ)
passes = packet_7 ∷ packet_8 ∷ timeout ∷ last ∷ packet_8 ∷ []

run_calls :
    (run fixed 10 passes).calls
    ≡ recvfrom (some (256, 7))
      ∷ sendto 64 7
      ∷ recvfrom (some (300, 8))
      ∷ sendto 64 8
      ∷ recvfrom none
      ∷ waited false
      ∷ recvfrom (some (256, 7))
      ∷ sendto 64 7
      ∷ []
unfolding run
run_calls = refl

created_sizes :
    ((set_packet_size {D = ℕ} 31 (create 0)).packet_size ≡ 0)
    × ((set_packet_size {D = ℕ} 64 (set_no_echo {D = ℕ} true (create 0))).no_echo ≡ true)
    × ((get_and_clear_counter (run fixed 10 passes).thread).0.packets_send ≡ 3)
    × ((get_and_clear_counter (run fixed 10 passes).thread).1.counter.packets_send ≡ 0)
unfolding create set_packet_size set_no_echo get_and_clear_counter run add64
created_sizes = (refl, refl, refl, refl)

fixed-IsWord : IsWord fixed.counter
fixed-IsWord = omega arith

run-sends_example : sends (run fixed 10 passes).calls ≡ (64, 7) ∷ (64, 8) ∷ (64, 7) ∷ []
unfolding run
run-sends_example = run-sends fixed 10 passes

run-Counts_example : (run fixed 10 passes).thread.counter.bytes_received ≡ 812
unfolding run add64
run-Counts_example = (run-Counts fixed 10 passes fixed-IsWord).bytes_in

run_stops_example : (run fixed 10 passes).stopped ≡ true
run_stops_example =
    run_stops fixed 10 (packet_7 ∷ packet_8 ∷ timeout ∷ []) last (packet_8 ∷ []) (omega arith)
      (omega arith) refl

-- A buffer of 6 bytes, and packets of the clients 7 and 8.
abbrev zeros : List ℕ
zeros = 0 ∷ 0 ∷ 0 ∷ 0 ∷ 0 ∷ 0 ∷ []

abbrev long : List ℕ
long = replicate 70 5

abbrev short : List ℕ
short = replicate 20 6

abbrev traffic : List (List ℕ × ℕ)
traffic = (long, 7) ∷ (short, 8) ∷ []

echo_same_example : echo (record fixed { packet_size = 0 }) zeros traffic ≡ traffic
echo_same_example = echo_same (record fixed { packet_size = 0 }) zeros traffic refl refl

echo_stale_example :
    echo fixed zeros traffic ≡ (replicate 64 5, 7) ∷ (short ++ replicate 44 5, 8) ∷ []
echo_stale_example =
    echo_stale fixed zeros long short 7 8 refl (omega arith) (omega arith) (omega arith)
      (omega arith)

echo-own_example :
    map (front 16) (own (λ a. a == 8) (echo fixed zeros traffic)) ≡ (replicate 16 6, 8) ∷ []
echo-own_example =
    echo-own (λ a. a == 8) fixed 16 zeros traffic refl (inr (omega arith, omega arith))
      (omega arith) (omega arith)
