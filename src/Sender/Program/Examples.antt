-- ===== src/Sender/Program/Examples.antt =====
-- The settings of the sender at examples, and the theorems about them.
use udppingpong.Base.{ℕ, ◌≡◌, ◌==◌, refl, false, some, none, [], ◌∷◌}
use udppingpong.Base.Int.{pos}
use udppingpong.Base.Word.{add64}
use udppingpong.Exception.{ok}
use udppingpong.Double.Micros.{Micros, micros_double}
use udppingpong.Sender.Thread.{SenderThread, create}
use udppingpong.Sender.Thread.Examples.{noise}
use udppingpong.Sender.Thread.Connect.Examples.{to_int, service, refuses, buffer, size}
use udppingpong.Sender.Program.{
  Settings, fill_in, get_query_rates, range, numbers, empty, read_source_ip_list,
}
use udppingpong.Sender.Program.Prepare.{Net, ThreadAnswers}

-- Numbers stand for strings, IP addresses and socket addresses; the target is 99:5001.
abbrev pub net : Net ℕ ℕ ℕ
net = record {
  is_empty = λ s. s == 0;
  tokens = λ s. 99 ∷ s ∷ [];
  to_int = to_int;
  size = size;
  service = service;
  resolve = λ s. s ∷ [];
  sock_addr = λ ip port. ip;
  addresses = λ host port. ok (1, 3 ∷ []);
}

abbrev settings : Settings Micros ℕ
settings = record {
  ziel = 5001;
  source_ip_list = 40 ∷ 41 ∷ [];
  packetsize = pos 0;
  laufzeit = pos 0;
  timeout = pos 0;
  thread_count = pos 3;
  zeitscheibe = some (pos 0);
  ignore_responses = false;
  always_randomize = false;
}

abbrev pub os : ℕ → ThreadAnswers ℕ
os i = record { socket = pos 3; bound = none; refuses = refuses; buffer = buffer; place = 0 }

abbrev filled : Settings Micros ℕ
filled = fill_in settings

abbrev prepared : SenderThread Micros
prepared = record (create noise (pos 3)) {
  packetsize = 512;
  runtime = pos 10;
  timeout = pos 5;
  zeitscheibe = some (pos 1000);
  ignore_responses = false;
}

tests :
    (filled.packetsize ≡ pos 512)
    × (filled.timeout ≡ pos 5)
    × (get_query_rates 5 (range 10 30 10) ≡ some (10 ∷ 20 ∷ 30 ∷ []))
    × (get_query_rates 0 empty ≡ some (0 ∷ []))
    × (get_query_rates 0 (numbers (7 ∷ [])) ≡ some (7 ∷ []))
    × (read_source_ip_list (λ s. s) (λ s. s == 0) (λ s. s == 1) (8 ∷ 0 ∷ 1 ∷ 9 ∷ []) []
        ≡ 8 ∷ 9 ∷ [])
unfolding fill_in get_query_rates read_source_ip_list add64
tests = (refl, refl, refl, refl, refl, refl)
