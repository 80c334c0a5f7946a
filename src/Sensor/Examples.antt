-- ===== src/Sensor/Examples.antt =====
-- Samples of the sensors, and the theorems at them.
use udppingpong.Base.{ℕ, ◌+◌, ◌≡◌, refl, Bool, ◌==◌, true, some, [], ◌∷◌, List, arith, ◌↔◌}
use udppingpong.Base.Int.{pos, ◌+ℤ◌, ◌-ℤ◌, ◌*ℤ◌, tdiv}
use udppingpong.Base.Word.{add64}
use udppingpong.Double.Micros.{micros_double}
use udppingpong.Sensor.{
  Cpu, Interface, Line, Sample, IfAddr, get_usage, get_delta, find, sample_network, sample_addrs,
  clear_traffic,
}
use udppingpong.Sensor.Network.{find-sample_network}

-- Names are numbers here.
abbrev same : ℕ → ℕ → Bool
same a b = a == b

same_iff : (a b : ℕ) → (same a b ≡ true) ↔ (a ≡ b)
same_iff a b = (λ h. ground arith, λ h. ground arith)

-- The heading, and the lines of two interfaces.
abbrev lines : List (Line ℕ)
lines =
    record { colon = pos 0; name = 0; token = λ i. 0 }
    ∷ record { colon = pos 2; name = 1; token = λ i. 10 + i }
    ∷ record { colon = pos 4; name = 2; token = λ i. 100 + i }
    ∷ []

abbrev old : Interface ℕ
old = record { name = 1; receive = clear_traffic; transmit = clear_traffic }

abbrev busy : Cpu
busy = record { user = pos 60; nice = pos 0; system = pos 20; idle = pos 20; iowait = pos 0 }

abbrev quiet : Cpu
quiet = record { user = pos 0; nice = pos 0; system = pos 0; idle = pos 0; iowait = pos 0 }

abbrev addrs : List (IfAddr ℕ)
addrs =
    record { is_link = true; name = 1; received = clear_traffic; transmitted = clear_traffic } ∷ []

tests :
    let nothing : Sample ℕ = record {
      interfaces = [];
      received = clear_traffic;
      transmitted = clear_traffic;
    } in
    (get_usage quiet busy ≡ some (pos 80_000_000))
    × (get_delta clear_traffic clear_traffic ≡ clear_traffic)
    × ((sample_addrs same addrs nothing).interfaces ≡ old ∷ [])
unfolding get_usage get_delta sample_addrs ◌+ℤ◌ ◌-ℤ◌ ◌*ℤ◌ tdiv add64
tests = (refl, refl, refl)

find-sample_network_example :
    find same 1 (sample_network same lines (old ∷ [])).interfaces ≡ some old
unfolding find
find-sample_network_example = find-sample_network same same_iff 1 lines (old ∷ [])
