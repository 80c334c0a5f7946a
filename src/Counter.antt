-- ===== src/Counter.antt =====
-- src/UDPEchoCounter.cpp and the class in include/udpecho.h.
pub mod Exchange
use udppingpong.Base.{ℕ}

-- The four counts are `int64_t`, held as 64-bit words.
pub record Counter (D : Type 0) : Type 0 where
  pub packets_received : ℕ
  pub packets_send : ℕ
  pub bytes_received : ℕ
  pub bytes_send : ℕ
  pub sample_time : D

-- `sampleTime` is left as it is.
unfoldable pub clear : {D : Type 0} → Counter D → Counter D
clear c = record c { packets_received = 0; packets_send = 0; bytes_received = 0; bytes_send = 0 }
