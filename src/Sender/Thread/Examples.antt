-- ===== src/Sender/Thread/Examples.antt =====
-- Runs of a worker of the sender, and its theorems at them.
use udppingpong.Sender.Thread.Sending.{tally, is_error}
use udppingpong.Sender.Thread.Codes.{send_packets_codes}
use udppingpong.Sender.Thread.Contents.{send_packets_contents}
use udppingpong.Shares.{IsNear}
use udppingpong.Sender.Thread.Rate.Quotas.{
  run_with_rate_limit_quotas, run_with_rate_limit_completed,
}
use udppingpong.Base.Word.{add64, word_mod}
use udppingpong.Base.{
  ℕ, ◌+◌, ◌*◌, false, some, [], ◌∷◌, if◌then◌else◌, ◌==◌, map, ◌≡◌, ◌%◌, length, All, sum, refl,
  ◌/◌, none,
}
use udppingpong.Base.Int.{pos, ◌+ℤ◌, ◌-ℤ◌, ◌*ℤ◌, tdiv}
use udppingpong.Double.Micros.{Micros, micros_double}
use udppingpong.Sender.Thread.{
  Packet, SenderThread, Sent, sent, failed, SendAnswers, create, send_packets, get_packets_send,
  get_counter_error_code, get_errors,
}
use udppingpong.Sender.Thread.Rate.{
  SliceAnswers, RateRun, rate_loop, total_zeitscheiben, run_with_rate_limit,
}

abbrev pub noise : Packet Micros
noise = record { id = 77; time = some (pos 5); payload = 1 ∷ 2 ∷ [] }

-- A running time of 1 s, 10 packets a second and slices of 250 ms.
abbrev pub worker : SenderThread Micros
worker = record (create noise (pos 3)) {
  runtime = pos 1;
  queryrate = pos 10;
  zeitscheibe = some (pos 250_000);
}

-- Round 1 meets error 11, all others send the packet.
abbrev answer : ℕ → Sent
answer i = if i == 1 then failed 11 else sent 512

abbrev pub answers : ℕ → SendAnswers Micros
answers i = record { random = noise; now = some (pos i); send = answer i }

-- Slice z is slept through until it ends.
abbrev pub slice : ℕ → SliceAnswers Micros
slice z = record {
  sends = answers;
  readings = some (pos (z * 250_000)) ∷ some (pos ((z + 1) * 250_000)) ∷ [];
  should_stop = false;
  micro = some (pos 0);
}

abbrev rate_run : RateRun Micros
rate_run =
    rate_loop 4 0 (pos 10) (some (pos 0)) (some (pos 100_000)) (some (pos 1_000_000)) slice worker

tests :
    (map length rate_run.slices ≡ 2 ∷ 2 ∷ 3 ∷ 3 ∷ [])
    × (get_packets_send rate_run.thread ≡ 6)
    × (get_counter_error_code (pos 11) rate_run.thread ≡ some 4)
    × (get_errors rate_run.thread ≡ 4)
unfolding rate_loop send_packets get_packets_send get_counter_error_code get_errors add64 ◌+ℤ◌ ◌-ℤ◌
    ◌*ℤ◌ tdiv create
tests = (refl, refl, refl, refl)

send_packets_codes_example : 1 % word_mod ≡ tally (is_error 11) 3 0 answers % word_mod
unfolding send_packets get_counter_error_code create add64
send_packets_codes_example = send_packets_codes 11 3 0 answers worker 1 refl (λ h. refl) refl

send_packets_contents_example :
    map (λ p. p.id) (send_packets 3 0 answers worker).1 ≡ 77 ∷ 77 ∷ 77 ∷ []
unfolding create
send_packets_contents_example = (send_packets_contents 3 0 answers worker refl).1

run_with_rate_limit_quotas_example : All (IsNear (10 / 4)) (map length rate_run.slices)
unfolding create total_zeitscheiben run_with_rate_limit ◌+ℤ◌ ◌*ℤ◌ tdiv
run_with_rate_limit_quotas_example =
    (run_with_rate_limit_quotas none (some (pos 0)) (some (pos 0)) slice worker rate_run 1 10 4 refl
      refl refl refl).1

run_with_rate_limit_completed_example : sum (map length rate_run.slices) ≡ 10
unfolding create total_zeitscheiben run_with_rate_limit rate_loop ◌+ℤ◌ ◌*ℤ◌ ◌-ℤ◌ tdiv send_packets
run_with_rate_limit_completed_example =
    (run_with_rate_limit_completed none (some (pos 0)) (some (pos 0)) slice worker rate_run 1 10 3
      refl refl refl refl refl).1
