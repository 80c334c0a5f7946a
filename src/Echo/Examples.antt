-- ===== src/Echo/Examples.antt =====
-- A run of a worker whose packets travel, and the theorems at it.
use udppingpong.Base.{
  ℕ, ◌%◌, ◌≡◌, refl, true, false, some, none, [], ◌∷◌, ◌++◌, List, map, arith, get_or, replicate,
  Option, ◌+◌, ◌==◌, inr,
}
use udppingpong.Base.Int.{pos, ◌+ℤ◌, ◌-ℤ◌, ◌*ℤ◌, tdiv}
use udppingpong.Base.Word.{add64}
use udppingpong.Double.Micros.{Micros, micros_double}
use udppingpong.Exception.{Result, ok, throw}
use udppingpong.Network.{nothing, delivered, lost}
use udppingpong.Bouncer.Thread.{Thread}
use udppingpong.Bouncer.Thread.Contents.{echo}
use udppingpong.Receiver
use udppingpong.Receiver.Contents.{readings}
use udppingpong.Sender.Thread.{
  Packet, SenderThread, create, prepare_run, send_packets, get_packets_send,
}
use udppingpong.Sender.Thread.Examples.{noise}
use udppingpong.Sender.Thread.Rate.{rate_loop, total_zeitscheiben}
use udppingpong.Sender.Thread.Run.{RunAnswers, run_sender}
use udppingpong.Sender.Thread.Run.Examples.{run_answers}
use udppingpong.Echo.{Trip, datagram}
use udppingpong.Echo.Losses.{run_sender-Trip}
use udppingpong.Sender.Thread.Run.Accepted.{accepted_in}
use udppingpong.Sender.Thread.Getters.{get_packets_received}
use udppingpong.Base.Word.{word_mod}
use udppingpong.Sender.Program.{Settings}
use udppingpong.Sender.Program.Prepare.{prepare_threads}
use udppingpong.Sender.Program.Examples.{net, os}
use udppingpong.Sender.Load.{set_query_rates}
use udppingpong.Sender.Session.Examples.{load}
use udppingpong.Sender.Main.{World, Ended, work}
use udppingpong.Sender.Main.Examples.{world}

-- A byte is a number of microseconds; the time stands in byte 8 whole.
abbrev bytes_of : Packet Micros → List Micros
bytes_of p = replicate 8 none ++ p.time ∷ replicate 7 none ++ map (λ n. some (pos n)) p.payload

abbrev time_at : List Micros → Micros
time_at b = get_or b 8 none

abbrev answers : RunAnswers Micros
answers = record run_answers {
  receiver_passes =
      record {
        received = some (record { bytes = 64; time = some (pos 0); now = some (pos 350) });
        clock = 0;
        should_stop = false;
      }
      ∷ record { received = none; clock = 1; should_stop = true }
      ∷ [];
}

-- A load on one worker, of 10 packets in a second.
abbrev settings : Settings Micros ℕ
settings = record {
  ziel = 5001;
  source_ip_list = [];
  packetsize = pos 512;
  laufzeit = pos 1;
  timeout = pos 5;
  thread_count = pos 1;
  zeitscheibe = some (pos 250_000_000);
  ignore_responses = false;
  always_randomize = false;
}

abbrev pool_of : Result (List (SenderThread Micros)) → List (SenderThread Micros)
pool_of (ok ts) = ts
pool_of (throw e) = []

abbrev pool : List (SenderThread Micros)
pool = pool_of (prepare_threads net noise os settings)

abbrev first_of : List (SenderThread Micros) → SenderThread Micros
first_of [] = create noise (pos 0)
first_of (t ∷ ts) = t

abbrev starter : SenderThread Micros
starter = first_of (set_query_rates (pos 10) pool)

abbrev echo_world : World Micros ℕ ℕ ℕ
echo_world = record world { loads = λ i. record (load i) { workers = λ j. answers } }

abbrev worker_of :
    Result (Option (SenderThread Micros × List (Packet Micros))) → SenderThread Micros
worker_of (ok (some (u, sent))) = u
worker_of (ok none) = starter
worker_of (throw e) = starter

abbrev packets_of :
    Result (Option (SenderThread Micros × List (Packet Micros))) → List (Packet Micros)
packets_of (ok (some (u, sent))) = sent
packets_of (ok none) = []
packets_of (throw e) = []

abbrev worker : SenderThread Micros
worker = worker_of (run_sender answers starter)

abbrev sent : List (Packet Micros)
sent = packets_of (run_sender answers starter)

-- The packet sent at a time of a slice; number 1 of each slice is refused.
abbrev packet : ℕ → Packet Micros
packet i = record noise { time = some (pos i) }

abbrev all_packets : List (Packet Micros)
all_packets =
    packet 0
    ∷ packet 1
    ∷ packet 0
    ∷ packet 1
    ∷ packet 0
    ∷ packet 1
    ∷ packet 2
    ∷ packet 0
    ∷ packet 1
    ∷ packet 2
    ∷ []

abbrev outgoing : List (Packet Micros)
outgoing = packet 0 ∷ packet 0 ∷ packet 0 ∷ packet 2 ∷ packet 0 ∷ packet 2 ∷ []

tests : (sent ≡ all_packets) × (worker.counter_send ≡ 6) × (accepted_in answers starter ≡ outgoing)
unfolding run_sender prepare_run create ◌*ℤ◌ ◌+ℤ◌ tdiv Receiver.run add64 rate_loop send_packets
    ◌-ℤ◌ total_zeitscheiben prepare_threads set_query_rates accepted_in
tests = (refl, refl, refl)

-- A worker of the bouncer that answers with 64 bytes; client 9 sends between the packets of client 7.
abbrev bouncer : Thread Micros
bouncer = record {
  sockfd = pos 3;
  no_echo = false;
  counter = record {
    packets_received = 0;
    packets_send = 0;
    bytes_received = 0;
    bytes_send = 0;
    sample_time = none;
  };
  packet_size = 64;
}

abbrev bytes : ℕ → List Micros
bytes i = bytes_of (packet i)

abbrev arrived : List (List Micros × ℕ)
arrived = (bytes 2, 7) ∷ (replicate 100 none, 9) ∷ (bytes 0, 7) ∷ []

abbrev zeros : List Micros
zeros = replicate 200 (some (pos 0))

-- What comes back: the answer to the packet that arrived last.
abbrev answer : List Micros
answer = bytes 0 ++ replicate 46 none

-- Four of the six accepted packets get lost on their way, and one answer; the two packets that arrive have changed places.
trip : Trip bytes_of time_at ℕ answers starter worker
unfolding run_sender prepare_run create ◌*ℤ◌ ◌+ℤ◌ tdiv Receiver.run add64 rate_loop send_packets
    ◌-ℤ◌ total_zeitscheiben prepare_threads set_query_rates datagram echo readings accepted_in
trip = record {
  address = 7;
  is_own = λ a. a == 7;
  bouncer = bouncer;
  buffer = zeros;
  arrived = arrived;
  no_echo = refl;
  packet_size = inr (omega arith, omega arith);
  losses_there = 4;
  copies_there = 0;
  there = delivered ((bytes 2, 7) ∷ []) [] (lost (lost (delivered [] [] (lost (lost nothing)))));
  returned = answer ∷ [];
  losses_back = 1;
  copies_back = 0;
  back = lost (delivered [] [] nothing);
  recbuffer = zeros;
  measured = refl;
}

run_sender-Trip_example :
    (worker.receiver.counter_received + trip.losses_there + trip.losses_back) % word_mod
    ≡ (worker.counter_send + trip.copies_there + trip.copies_back) % word_mod
unfolding run_sender prepare_run create ◌*ℤ◌ ◌+ℤ◌ tdiv Receiver.run add64 rate_loop send_packets
    ◌-ℤ◌ total_zeitscheiben prepare_threads set_query_rates get_packets_received
    Receiver.get_packets_received get_packets_send
run_sender-Trip_example =
    run_sender-Trip {A = ℕ} bytes_of time_at answers starter worker sent refl refl trip

abbrev results_of : Option (Ended Micros) → Ended Micros
results_of none = record { code = 7; results = []; csv = none; destroyed = [] }
results_of (some e) = e

abbrev presented : Ended Micros
presented = results_of (work echo_world (pos 10 ∷ []) none settings)
