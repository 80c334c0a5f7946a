-- ===== src/Sensor/Delta.antt =====
-- The difference of two samples of a counter.
use udppingpong.Base.{ℕ, ◌+◌, ◌-◌, ◌<◌, ◌≡◌, arith, ltb, if◌then◌else◌}
use udppingpong.Base.Word.{word_mod, add64}
use udppingpong.Sensor.{delta_with_overflow}

-- A counter that has grown by k since the first sample, as a 64-bit word: the difference is k as
-- long as the counter has not wrapped, and k - 1 if it has.
delta_with_overflow_lem :
    (sample1 k : ℕ)
    → sample1 < word_mod
    → k < word_mod
    → delta_with_overflow sample1 (add64 sample1 k)
      ≡ (if ltb (sample1 + k) word_mod then k else k - 1)
unfolding delta_with_overflow add64
delta_with_overflow_lem sample1 k h g = ground arith
