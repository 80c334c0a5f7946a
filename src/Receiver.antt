-- ===== src/Receiver.antt =====
-- src/UDPEchoReceiverThread.cpp: the thread that takes the answers in and measures round trips.
pub mod Measuring
pub mod Contents
pub mod Stopping
pub mod Examples
use udppingpong.Base.{
  ℕ, ◌+◌, Bool, true, false, Option, none, some, List, [], ◌∷◌, ◌++◌, ◌&&◌, leb, if◌then◌else◌,
}
use udppingpong.Base.Int.{ℤ, pos}
use udppingpong.Base.Word.{add64, signed64}
use udppingpong.Double.{Double}

pub record Receiver (D : Type 0) : Type 0 where
  pub sockfd : ℤ
  pub counter_received : ℕ
  pub bytes_received : ℕ
  pub rtt_total : D
  pub rtt_min : D
  pub rtt_max : D

-- A packet taken in: its bytes, the field `time` that the buffer holds after `recv`, and the time
-- that `GetMicrotime` answers.
pub record Arrival (D : Type 0) : Type 0 where
  pub bytes : ℕ
  pub time : D
  pub now : D

-- One pass of the loop in `run`. `none` is -1 of `recv`.
pub record Pass (D : Type 0) : Type 0 where
  pub received : Option (Arrival D)
  pub clock : ℕ
  pub should_stop : Bool

-- What is left of a run: the thread, the packets that it took in, and whether it ended by the stop
-- flag (or the list of passes ended first).
pub record Run (D : Type 0) : Type 0 where
  pub receiver : Receiver D
  pub arrivals : List (Arrival D)
  pub stopped : Bool

module _ {D : Type 0} where
  unfoldable pub set_socket_descriptor : ℤ → Receiver D → Receiver D
  set_socket_descriptor sockfd r = record r { sockfd = sockfd }

module _ {D : Type 0} ⦃d : Double D⦄ where
  open d use {nought, of_int, add, sub, div, lt, eq}

  unfoldable pub reset_counter : Receiver D → Receiver D
  reset_counter r = record r {
    bytes_received = 0;
    counter_received = 0;
    rtt_total = nought;
    rtt_min = nought;
    rtt_max = nought;
  }

  -- The constructor.
  unfoldable pub create : Receiver D
  create = record {
    sockfd = pos 0;
    counter_received = 0;
    bytes_received = 0;
    rtt_total = nought;
    rtt_min = nought;
    rtt_max = nought;
  }

  -- The round trip time of a packet.
  abbrev pub rtt_of : Arrival D → D
  rtt_of a = sub a.now a.time

  -- `rtt_min==0` stands for "none so far".
  unfoldable pub count_packet : Arrival D → Receiver D → Receiver D
  count_packet a r =
      let rtt = rtt_of a in
      record r {
        counter_received = add64 r.counter_received 1;
        bytes_received = add64 r.bytes_received a.bytes;
        rtt_total = add r.rtt_total rtt;
        rtt_min = if eq r.rtt_min nought then rtt else if lt rtt r.rtt_min then rtt else r.rtt_min;
        rtt_max = if lt r.rtt_max rtt then rtt else r.rtt_max;
      }

  -- The first half of a pass. After -1 it waits for 10 ms at most, by a `pselect` whose answer is
  -- not used.
  unfoldable pub handle : Receiver D → Option (Arrival D) → Receiver D × List (Arrival D)
  unfolding count_packet
  handle r (some a) = (count_packet a r, a ∷ [])
  handle r none = (r, [])

  -- The loop of `run`. The stop flag is read only in a pass whose clock has reached `next_check`.
  unfoldable pub loop : Receiver D → ℕ → List (Pass D) → Run D
  unfolding handle
  loop r next_check [] = record { receiver = r; arrivals = []; stopped = false }
  loop r next_check (p ∷ ps) =
      let r' = (handle r p.received).0 in
      let taken = (handle r p.received).1 in
      let due = leb next_check p.clock in
      let rest = loop r' (if due then next_check + 1 else next_check) ps in
      if due && p.should_stop
      then record { receiver = r'; arrivals = taken; stopped = true }
      else record rest { arrivals = taken ++ rest.arrivals }

  -- `run`, started at a time of the clock
  unfoldable pub run : Receiver D → ℕ → List (Pass D) → Run D
  unfolding reset_counter loop
  run r start ps = loop (reset_counter r) (start + 1) ps

  unfoldable pub get_round_trip_time_average : Receiver D → D
  get_round_trip_time_average r = div r.rtt_total (of_int (signed64 r.counter_received))

module _ {D : Type 0} where
  unfoldable pub get_packets_received : Receiver D → ℕ
  get_packets_received r = r.counter_received

  unfoldable pub get_bytes_received : Receiver D → ℕ
  get_bytes_received r = r.bytes_received

  unfoldable pub get_round_trip_time_min : Receiver D → D
  get_round_trip_time_min r = r.rtt_min

  unfoldable pub get_round_trip_time_max : Receiver D → D
  get_round_trip_time_max r = r.rtt_max
