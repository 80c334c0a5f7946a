-- ===== src/Sensor/Exchange/Examples.antt =====
-- A sample of two interfaces that goes through an array, and the theorems at it.
use udppingpong.Sensor.Exchange.Missing.{import_from_array_without_interfaces}
use udppingpong.Sensor.Exchange.RoundTrip.{stat_round_trip}
use udppingpong.Exception.{done, key_not_found}
use udppingpong.Sensor.Exchange.Two.{
  two, same_bit, no_array, two-IsNested, two-KeysAreSet, same_bit_iff,
}
use udppingpong.Sensor.Exchange.{import_from_array, export_to_array, with_interfaces, throw}
use udppingpong.Arrays.Table.{Text, texts, texts-IsExact}
use udppingpong.Sensor.{Interface, pos, clear_traffic, find}
use udppingpong.Arrays.{Formats}
use udppingpong.Sensor.System.{SystemStat}
use udppingpong.Base.{ℕ, Bool, [], true, ◌/◌, ◌∷◌, ◌*◌, false, ◌≡◌, refl, arith}

abbrev interface : Bool → ℕ → Interface Bool
interface n b = record {
  name = n;
  receive = record { bytes = b; packets = 2; errs = 0; drop = 1 };
  transmit = record { bytes = 7; packets = 3; errs = 0; drop = 0 };
}

abbrev zero_stat : SystemStat ℕ Bool
zero_stat = record {
  sample_time = 0;
  cpu = record { user = pos 0; nice = pos 0; system = pos 0; idle = pos 0; iowait = pos 0 };
  sysinfo = record {
    uptime = 0;
    freeswap = 0;
    totalswap = 0;
    freeram = 0;
    bufferram = 0;
    totalram = 0;
    sharedram = 0;
    procs = pos 0;
  };
  net_total = record { interfaces = []; received = clear_traffic; transmitted = clear_traffic };
}

abbrev stat : SystemStat ℕ Bool
stat = record {
  sample_time = 1234;
  cpu = record { user = pos 5; nice = pos 0; system = pos 6; idle = pos 70; iowait = pos 1 };
  sysinfo = record {
    uptime = 100;
    freeswap = 20;
    totalswap = 40;
    freeram = 300;
    bufferram = 5;
    totalram = 1000;
    sharedram = 6;
    procs = pos 80;
  };
  net_total = record {
    interfaces = interface true 10 ∷ interface false 20 ∷ [];
    received = record { bytes = 30; packets = 4; errs = 0; drop = 2 };
    transmitted = record { bytes = 14; packets = 6; errs = 0; drop = 0 };
  };
}

abbrev formats : Formats ℕ (Text ℕ)
formats = texts (λ t. t / 10 * 10) 0

tests : (import_from_array formats two same_bit no_array stat).1 ≡ throw key_not_found
unfolding import_from_array
tests = refl

stat_round_trip_example :
    let r =
      import_from_array formats two same_bit
        (export_to_array formats two stat no_array)
        zero_stat in
    (r.1 ≡ done)
    × (find same_bit true (r.0.net_total.interfaces) ≡ find same_bit true stat.net_total.interfaces)
    × (with_interfaces stat.net_total.interfaces r.0 ≡ record stat { sample_time = 1230 })
unfolding find
stat_round_trip_example =
    stat_round_trip formats (texts-IsExact (λ t. t / 10 * 10) 0) two same_bit same_bit two-IsNested
      two-KeysAreSet same_bit_iff true stat zero_stat no_array (interface true 10)
      (interface false 20 ∷ []) (omega arith) refl (refl, (refl, tt))
      ((refl, (refl, tt)), ((refl, (refl, tt)), tt)) (refl, (refl, tt)) refl refl

import_from_array_without_interfaces_example :
    import_from_array formats two same_bit
      (export_to_array formats two (with_interfaces [] stat) no_array)
      zero_stat
    ≡ (
      record zero_stat { sample_time = 1230; net_total = (with_interfaces [] stat).net_total },
      throw key_not_found,
    )
import_from_array_without_interfaces_example =
    import_from_array_without_interfaces formats (texts-IsExact (λ t. t / 10 * 10) 0) two same_bit
      same_bit two-IsNested (with_interfaces [] stat) zero_stat no_array key_not_found (omega arith)
      (omega arith) refl refl
