-- ===== src/Sender/Thread/Run/Examples.antt =====
-- Whole runs of a worker of the sender, and its theorems at them.
use udppingpong.Base.{
  arith, ℕ, ◌≡◌, refl, true, false, some, none, [], ◌∷◌, ◌++◌, List, length, concat, Bool, ◌%◌, ◌+◌,
  inl, inr,
}
use udppingpong.Base.Word.{word_mod, add64}
use udppingpong.Base.Int.{pos, ◌+ℤ◌, ◌-ℤ◌, ◌*ℤ◌, tdiv}
use udppingpong.Double.Micros.{Micros, micros_double}
use udppingpong.Receiver.{get_packets_received, run as run_receiver}
use udppingpong.Sender.Thread.{SenderThread, create, prepare_run, send_packets, get_counter_0bytes}
use udppingpong.Sender.Thread.Examples.{noise, worker, answers, slice}
use udppingpong.Sender.Thread.Rate.{total_zeitscheiben, rate_loop, RateRun}
use udppingpong.Sender.Thread.Run.{Round, Reading, RunAnswers, run_sender, run_without_rate_limit}
use udppingpong.Sender.Thread.Run.Passes.{Passes}
use udppingpong.Sender.Thread.Run.Accounts.{run_sender_accounts}

abbrev round : Bool → ℕ → Round Micros
round ready time = record {
  writable = some ready;
  send = answers time;
  now = some (pos time);
  should_stop = false;
}

abbrev rounds : List (Round Micros)
rounds = round true 300_000 ∷ round false 600_000 ∷ round true 900_000 ∷ []

abbrev reading : ℕ → Reading Micros
reading time = record { now = some (pos time); should_stop = false }

-- The packets of the slices, and an answer to one of them.
abbrev pub run_answers : RunAnswers Micros
run_answers = record {
  random = noise;
  start = some (pos 0);
  sock_errno = none;
  nsec = some (pos 0);
  loop_start = some (pos 0);
  slices = slice;
  rounds = rounds ++ round true 1_000_001 ∷ [];
  finish = some (pos 1_000_100);
  wait_start = some (pos 1_000_100);
  waits = reading 2_000_000 ∷ reading 6_000_100 ∷ [];
  receiver_start = 0;
  receiver_passes =
      record {
        received = some (record { bytes = 512; time = some (pos 100); now = some (pos 350) });
        clock = 0;
        should_stop = false;
      }
      ∷ record { received = none; clock = 1; should_stop = true }
      ∷ [];
}

abbrev patient : SenderThread Micros
patient = record worker { ignore_responses = false; counter_send = 40 }

abbrev loop : RateRun Micros
loop =
    rate_loop 4 0 (pos 10) (some (pos 0)) (some (pos 100_000)) (some (pos 1_000_000)) slice
      (prepare_run noise patient)

abbrev after : SenderThread Micros
after = record loop.thread {
  duration = some (pos 1_000_100);
  receiver = (run_receiver loop.thread.receiver 0 run_answers.receiver_passes).receiver;
}

unpaced_tests :
    (length (run_without_rate_limit (some (pos 0)) rounds worker).packets ≡ 2)
    × (get_packets_received after.receiver ≡ 1)
    × (get_counter_0bytes after ≡ 0)
unfolding run_without_rate_limit prepare_run create ◌*ℤ◌ ◌+ℤ◌ tdiv get_packets_received run_receiver
    add64 get_counter_0bytes rate_loop send_packets ◌-ℤ◌
unpaced_tests = (refl, refl, refl)

run_sender_accounts_example : (6 + 0 + 4) % word_mod ≡ 10 % word_mod
unfolding run_sender prepare_run create ◌*ℤ◌ ◌+ℤ◌ tdiv run_receiver add64 rate_loop send_packets
    ◌-ℤ◌ total_zeitscheiben
run_sender_accounts_example =
    (run_sender_accounts run_answers patient after (concat loop.slices) refl).0

-- The clock gets on in these answers.
pub passes : Passes (pos 1) (pos 5) (some (pos 250_000)) run_answers
unfolding ◌+ℤ◌ ◌*ℤ◌ tdiv
passes = record {
  slices = (inr (inl refl), (inr (inl refl), (inr (inl refl), (inr (inl refl), tt))));
  rounds = inr (inr (inr (inl refl)));
  waits = inr (inl refl);
  receiver = (_ ∷ [], (_, ([], refl, (omega arith, tt), omega arith, refl)));
}
