-- ===== src/Counter/Exchange/Examples.antt =====
-- A counter that goes through an array, and the theorem at it.
use udppingpong.Base.{ℕ, ◌≡◌, ◌*◌, ◌/◌, refl, arith}
use udppingpong.Exception.{done, throw, key_not_found}
use udppingpong.Arrays.Table.{table, table-IsArrays, nothing, texts, texts-IsExact, Text}
use udppingpong.Counter.{Counter}
use udppingpong.Counter.Exchange.{same, import_from_array, export_to_array}
use udppingpong.Counter.Exchange.RoundTrip.{import_from_array-export_to_array}

-- Printing a time drops its last digit.
abbrev round : ℕ → ℕ
round t = t / 10 * 10

abbrev counter : Counter ℕ
counter = record {
  packets_received = 5;
  packets_send = 4;
  bytes_received = 300;
  bytes_send = 200;
  sample_time = 1234;
}

tests :
    import_from_array (texts round 0) (table same) nothing counter ≡ (counter, throw key_not_found)
unfolding import_from_array
tests = refl

import_from_array-export_to_array_example :
    import_from_array
      (texts round 0)
      (table same)
      (export_to_array (texts round 0) (table same) counter nothing)
      counter
    ≡ (record counter { sample_time = 1230 }, done)
import_from_array-export_to_array_example =
    import_from_array-export_to_array (texts round 0) (table same) (table-IsArrays (Text ℕ) same)
      (texts-IsExact round 0) counter counter nothing (omega arith) (omega arith) (omega arith)
      (omega arith)
