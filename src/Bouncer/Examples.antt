-- ===== src/Bouncer/Examples.antt =====
-- The theorems on the bouncer, at concrete inputs.
use udppingpong.Base.{
  ℕ, ◌+◌, ◌%◌, ◌≡◌, refl, false, Option, none, some, List, [], ◌∷◌, ◌++◌, ◌*◌, ◌^◌,
}
use udppingpong.Base.Int.{pos}
use udppingpong.Socket.{Answers}
use udppingpong.Socket.Descriptors.{opened, closed}
use udppingpong.Bouncer.{Bouncer, start, get_counter, destroy_bouncer}
use udppingpong.Bouncer.Descriptors.Leak.{start_leak}
use udppingpong.Bouncer.Sampling.{get_counter_lem}
use udppingpong.Bouncer.Thread.{Thread}
use udppingpong.Bouncer.Thread.Setup.{bind}
use udppingpong.Bouncer.Thread.Sharing.{worker, collector, Turn, run_turns, at_rest}
use udppingpong.Bouncer.Thread.Sharing.Losses.{tally, run_turns_account}
use udppingpong.Base.Word.{add64}

-- Addresses are numbers here, and so are times.
abbrev address : ℕ
address = 5000

abbrev bouncer : Bouncer ℕ ℕ
bouncer = record {
  threadpool = [];
  threads_started = false;
  sockaddr = address;
  sockfd = pos 0;
  packet_size = 64;
  no_echo = false;
  running = false;
}

-- Socket number n, which can be bound or not.
abbrev answers : ℕ → Option ℕ → Answers
answers n bind = record {
  socket = pos n;
  bind = bind;
  rcvbuf = some (pos 212992);
  rcvbuf_errno = 0;
}

-- The workers get the sockets 4, 5 and so on.
abbrev free : ℕ → Answers
free i = answers (i + 4) none

-- The address is in use (EADDRINUSE).
abbrev in_use : ℕ → Answers
in_use i = answers (i + 4) (some 98)

start_leak_example :
    let s = start 2 (answers 3 none) in_use 0 bouncer in
    let calls = s.calls ++ destroy_bouncer s.bouncer in
    0 + opened (pos 4) calls ≡ closed (pos 4) calls + 1
start_leak_example = (start_leak 2 98 (answers 3 none) in_use 0 (pos 4) bouncer refl refl refl).1

abbrev busy : ℕ → Thread ℕ
busy n = record {
  sockfd = pos 4;
  no_echo = false;
  counter = record {
    packets_received = n;
    packets_send = n;
    bytes_received = 256 * n;
    bytes_send = 256 * n;
    sample_time = 0;
  };
  packet_size = 0;
}

abbrev two_busy : Bouncer ℕ ℕ
two_busy = record bouncer { threadpool = busy 5 ∷ busy 6 ∷ [] }

get_counter_example :
    let total = (get_counter (busy 7).counter 9 two_busy).0 in total.packets_received ≡ 11
get_counter_example = (get_counter_lem (busy 7).counter 9 two_busy).0.packets_received

-- Three packets of one worker: the second is lost, and the store for the third brings back what it
-- had loaded before the assignment of 0.
abbrev turns : List Turn
turns = worker ∷ worker ∷ collector ∷ worker ∷ worker ∷ worker ∷ collector ∷ worker ∷ []

turns_test : run_turns turns (at_rest 0 (1 ∷ 1 ∷ 1 ∷ [])) ≡ (at_rest 3 [], 1 ∷ [])
unfolding run_turns add64
turns_test = refl

run_turns_account_example : (1 + 3 + 0 + 1) % 2 ^ 64 ≡ (0 + 3 + 2) % 2 ^ 64
unfolding run_turns tally add64
run_turns_account_example = run_turns_account turns 0 (1 ∷ 1 ∷ 1 ∷ [])
