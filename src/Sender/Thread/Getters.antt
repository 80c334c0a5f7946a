-- ===== src/Sender/Thread/Getters.antt =====
-- src/UDPEchoSenderThread.cpp: what a worker of the sender tells of its receiver, and its clock.
use udppingpong.Base.{ℕ}
use udppingpong.Base.Int.{ℤ, pos}
use udppingpong.Double.{Double}
use udppingpong.Receiver
use udppingpong.Sender.Thread.{SenderThread}

module _ {D : Type 0} where
  unfoldable pub get_packets_received : SenderThread D → ℕ
  unfolding Receiver.get_packets_received
  get_packets_received t = Receiver.get_packets_received t.receiver

  unfoldable pub get_bytes_received : SenderThread D → ℕ
  unfolding Receiver.get_bytes_received
  get_bytes_received t = Receiver.get_bytes_received t.receiver

  unfoldable pub get_round_trip_time_min : SenderThread D → D
  unfolding Receiver.get_round_trip_time_min
  get_round_trip_time_min t = Receiver.get_round_trip_time_min t.receiver

  unfoldable pub get_round_trip_time_max : SenderThread D → D
  unfolding Receiver.get_round_trip_time_max
  get_round_trip_time_max t = Receiver.get_round_trip_time_max t.receiver

module _ {D : Type 0} ⦃d : Double D⦄ where
  open d use {of_int, add, div}

  unfoldable pub get_round_trip_time_average : SenderThread D → D
  unfolding Receiver.get_round_trip_time_average
  get_round_trip_time_average t = Receiver.get_round_trip_time_average t.receiver

  -- The seconds of a `timespec`, whose two fields `clock_gettime` has set.
  unfoldable pub get_nsec : (tv_sec tv_nsec : ℤ) → D
  get_nsec tv_sec tv_nsec = add (of_int tv_sec) (div (of_int tv_nsec) (of_int (pos 1_000_000_000)))
