-- ===== src/Sender/Thread.antt =====
-- src/UDPEchoSenderThread.cpp: a worker of the sender, its settings and `sendPacket`.
pub mod Sending
pub mod Codes
pub mod Contents
pub mod Rate
pub mod Run
pub mod Connect
pub mod Getters
pub mod Examples
use udppingpong.Base.{
  ℕ, ◌+◌, Bool, true, false, not, ◌&&◌, ◌||◌, Option, none, some, List, [], ◌∷◌, ◌++◌, ltb, leb,
  ◌==◌, if◌then◌else◌, replicate, modify, get_or, suc, zero,
}
use udppingpong.Base.Int.{ℤ, pos, negsuc, ltb_ℤ}
use udppingpong.Base.Word.{add64}
use udppingpong.Double.{Double}
use udppingpong.Exception.{Result, ok, throw, invalid_arguments}
use udppingpong.Receiver.{Receiver, set_socket_descriptor, reset_counter, create as create_receiver}

-- `PACKET` and what follows it in the buffer. The field `id` is the first 8 bytes, `payload` the
-- bytes from number 16 on.
pub record Packet (D : Type 0) : Type 0 where
  pub id : ℕ
  pub time : D
  pub payload : List ℕ

pub record SenderThread (D : Type 0) : Type 0 where
  pub buffer : Packet D
  pub receiver : Receiver D
  pub packetsize : ℕ
  pub queryrate : ℤ
  pub counter_send : ℕ
  pub errors : ℕ
  pub counter_0bytes : ℕ
  pub counter_errorcodes : List ℕ
  pub runtime : ℤ
  pub timeout : ℤ
  pub zeitscheibe : D
  pub duration : D
  pub sockfd : ℤ
  pub ignore_responses : Bool
  pub verbose : Bool
  pub always_randomize : Bool

-- What `send` answers.
pub data Sent : Type 0 where
  sent : (n : ℕ) → Sent
  failed : (errno : ℕ) → Sent

-- What the calls of one `sendPacket` answer; `random` is the buffer as `ppl7::rand` would fill it.
pub record SendAnswers (D : Type 0) : Type 0 where
  pub random : Packet D
  pub now : D
  pub send : Sent

-- The number of error codes that are counted apart.
abbrev pub error_codes : ℕ
error_codes = 255

module _ {D : Type 0} where
  unfoldable pub set_packetsize : ℕ → SenderThread D → SenderThread D
  set_packetsize size t = record t { packetsize = size }

  unfoldable pub set_runtime : ℤ → SenderThread D → SenderThread D
  set_runtime seconds t = record t { runtime = seconds }

  unfoldable pub set_timeout : ℤ → SenderThread D → SenderThread D
  set_timeout seconds t = record t { timeout = seconds }

  unfoldable pub set_query_rate : ℤ → SenderThread D → SenderThread D
  set_query_rate qps t = record t { queryrate = qps }

  unfoldable pub set_ignore_responses : Bool → SenderThread D → SenderThread D
  set_ignore_responses flag t = record t { ignore_responses = flag }

  unfoldable pub set_verbose : Bool → SenderThread D → SenderThread D
  set_verbose verbose t = record t { verbose = verbose }

  unfoldable pub set_always_randomize : Bool → SenderThread D → SenderThread D
  set_always_randomize flag t = record t { always_randomize = flag }

  -- `if (errno<255) counter_errorcodes[errno]++; errors++;`
  unfoldable pub count_error : ℕ → SenderThread D → SenderThread D
  count_error errno t = record t {
    counter_errorcodes =
        if ltb errno error_codes
        then modify t.counter_errorcodes errno (λ n. add64 n 1)
        else t.counter_errorcodes;
    errors = add64 t.errors 1;
  }

  -- The counting in `sendPacket`.
  unfoldable pub count_sent : Sent → SenderThread D → SenderThread D
  unfolding count_error
  count_sent (sent n) t =
      if ltb 0 n && n == t.packetsize
      then record t { counter_send = add64 t.counter_send 1 }
      else record t { counter_0bytes = add64 t.counter_0bytes 1 }
  count_sent (failed errno) t = count_error errno t

  -- The packet in the buffer gets the time; its `id` is never set.
  unfoldable pub fill : SendAnswers D → SenderThread D → Packet D
  fill a t = record (if t.always_randomize then a.random else t.buffer) { time = a.now }

  -- `sendPacket`, with the packet that it hands to `send`.
  unfoldable pub send_packet : SendAnswers D → SenderThread D → SenderThread D × Packet D
  unfolding count_sent fill
  send_packet a t = let p = fill a t in (count_sent a.send (record t { buffer = p }), p)

  unfoldable pub get_packets_send : SenderThread D → ℕ
  get_packets_send t = t.counter_send

  unfoldable pub get_errors : SenderThread D → ℕ
  get_errors t = t.errors

  unfoldable pub get_counter_0bytes : SenderThread D → ℕ
  get_counter_0bytes t = t.counter_0bytes

  -- Below 0 the array is read out of bounds, which is `none`.
  unfoldable pub get_counter_error_code : ℤ → SenderThread D → Option ℕ
  get_counter_error_code (pos err) t =
      some (if ltb err error_codes then get_or t.counter_errorcodes err 0 else 0)
  get_counter_error_code (negsuc err) t = none

  unfoldable pub get_duration : SenderThread D → D
  get_duration t = t.duration

module _ {D : Type 0} ⦃d : Double D⦄ where
  open d use {nought, of_int, div, lt, eq}

  -- The members as the constructor sets them, with the answer of `socket`; the buffer is filled by
  -- `run`.
  unfoldable pub create : Packet D → ℤ → SenderThread D
  create empty sockfd = record {
    buffer = empty;
    receiver = create_receiver;
    packetsize = 512;
    queryrate = pos 0;
    counter_send = 0;
    errors = 0;
    counter_0bytes = 0;
    counter_errorcodes = replicate error_codes 0;
    runtime = pos 10;
    timeout = pos 5;
    zeitscheibe = nought;
    duration = nought;
    sockfd = sockfd;
    ignore_responses = true;
    verbose = false;
    always_randomize = false;
  }

  -- In milliseconds. Only 0 and what is more than 1000 is refused.
  unfoldable pub set_zeitscheibe : D → SenderThread D → Result (SenderThread D)
  set_zeitscheibe ms t =
      if eq ms nought || lt (of_int (pos 1000)) ms
      then throw invalid_arguments
      else ok (record t { zeitscheibe = div ms (of_int (pos 1000)) })

  -- The first half of `run`, up to the choice of the loop.
  unfoldable pub prepare_run : Packet D → SenderThread D → SenderThread D
  prepare_run random t = record t {
    buffer = random;
    receiver = reset_counter (set_socket_descriptor t.sockfd t.receiver);
    counter_send = 0;
    counter_0bytes = 0;
    errors = 0;
    duration = nought;
    counter_errorcodes = replicate error_codes 0;
  }

module _ {D : Type 0} where
  -- `sendPacket` as often as told; `answers i` are the answers in round i.
  unfoldable pub send_packets :
      ℕ → ℕ → (ℕ → SendAnswers D) → SenderThread D → SenderThread D × List (Packet D)
  unfolding send_packet
  send_packets zero i answers t = (t, [])
  send_packets (suc n) i answers t =
      let (t', p) = send_packet (answers i) t in
      let (last, ps) = send_packets n (i + 1) answers t' in (last, p ∷ ps)
