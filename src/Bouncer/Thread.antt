-- ===== src/Bouncer/Thread.antt =====
-- src/UDPEchoBouncerThread.cpp: a worker of the bouncer. `A` is the type of client addresses, `D`
-- that of `double`.
pub mod Trace
pub mod Counting
pub mod Setup
pub mod Sharing
pub mod Replies
pub mod Contents
pub mod Stopping
pub mod Examples
pub use udppingpong.Datagram.{buffer_size}
use udppingpong.Base.{
  ℕ, ◌+◌, Bool, true, false, not, ◌&&◌, ◌||◌, Option, none, some, List, [], ◌∷◌, ◌++◌, leb, ◌==◌,
  if◌then◌else◌,
}
use udppingpong.Base.Int.{ℤ, pos, ltb_ℤ}
use udppingpong.Base.Word.{add64}
use udppingpong.Counter.{Counter}

-- `servaddr` only hands the address to `bind`; the mutex is treated in `Sharing`.
pub record Thread (D : Type 0) : Type 0 where
  pub sockfd : ℤ
  pub no_echo : Bool
  pub counter : Counter D
  pub packet_size : ℕ

-- What the operating system answers to `pselect`.
pub record Pselect : Type 0 where
  pub ret : ℤ
  pub is_set : Bool

-- The calls that a worker makes, with what they answer where the code can see it.
pub data Syscall (A : Type 0) : Type 0 where
  -- `none` is -1, `some (n, from)` a packet of n bytes
  recvfrom : Option (ℕ × A) → Syscall A
  sendto : ℕ → A → Syscall A
  -- with the result of `waitForSocketReadable`
  waited : Bool → Syscall A

-- One pass of the loop in `run`: what its calls answer.
pub record Pass (A : Type 0) : Type 0 where
  pub received : Option (ℕ × A)
  pub select : Pselect
  pub clock : ℕ
  pub should_stop : Bool

module _ {D : Type 0} where
  -- The constructor; `sampleTime` is not initialised there, so its value is an argument.
  unfoldable pub create : D → Thread D
  create t = record {
    sockfd = pos 0;
    no_echo = false;
    counter = record {
      packets_received = 0;
      packets_send = 0;
      bytes_received = 0;
      bytes_send = 0;
      sample_time = t;
    };
    packet_size = 0;
  }

  unfoldable pub set_no_echo : Bool → Thread D → Thread D
  set_no_echo flag t = record t { no_echo = flag }

  -- A size out of range is ignored.
  unfoldable pub set_packet_size : ℕ → Thread D → Thread D
  set_packet_size bytes t =
      if leb bytes 4096 && leb 32 bytes || bytes == 0 then record t { packet_size = bytes } else t

  -- The four assignments of 0 in `getAndClearCounter`.
  unfoldable pub clear_counts : Thread D → Thread D
  clear_counts t = record t {
    counter = record (t.counter) {
      packets_received = 0;
      packets_send = 0;
      bytes_received = 0;
      bytes_send = 0;
    };
  }

  unfoldable pub get_and_clear_counter : Thread D → Counter D × Thread D
  unfolding clear_counts
  get_and_clear_counter t = (t.counter, clear_counts t)

  -- The four updates of the counter; the local `bytes_send` is not used.
  unfoldable pub count : ℕ → Thread D → Thread D
  count n t = record t { counter = c }
    where
      c : Counter D
      c = record {
        packets_received = add64 t.counter.packets_received 1;
        packets_send =
            if not t.no_echo then add64 t.counter.packets_send 1 else t.counter.packets_send;
        bytes_received = add64 t.counter.bytes_received n;
        bytes_send = add64 t.counter.bytes_send n;
        sample_time = t.counter.sample_time;
      }

-- `pselect(...) > 0` and the socket in the set
unfoldable pub wait_for_socket_readable : Pselect → Bool
wait_for_socket_readable s = ltb_ℤ (pos 0) s.ret && s.is_set

-- What is left of a run: the worker, its calls, and whether it ended by the stop flag (or the
-- list of passes ended first).
pub record Run (D A : Type 0) : Type 0 where
  pub thread : Thread D
  pub calls : List (Syscall A)
  pub stopped : Bool

module _ {D A : Type 0} where
  -- The answer to a packet of n bytes: what is sent, and the local variable `bytes_send`.
  unfoldable pub reply : Thread D → ℕ → A → List (Syscall A) × ℕ
  reply t n from =
      if t.no_echo
      then ([], 0)
      else if t.packet_size == 0
      then (sendto n from ∷ [], n)
      else (sendto t.packet_size from ∷ [], t.packet_size)

  -- The first half of a pass: the packet.
  unfoldable pub handle : Thread D → Pass A → Thread D × List (Syscall A)
  unfolding reply count wait_for_socket_readable
  handle t p = elim p.received [
    | some (n, from) ↦ (count n t, recvfrom (some (n, from)) ∷ (reply t n from).0)
    | none ↦ (t, recvfrom none ∷ waited (wait_for_socket_readable p.select) ∷ [])
  ]

  -- The loop of `run`. The stop flag is read only in a pass whose clock has reached `next_check`.
  unfoldable pub loop : Thread D → ℕ → List (Pass A) → Run D A
  unfolding handle
  loop t next_check [] = record { thread = t; calls = []; stopped = false }
  loop t next_check (p ∷ ps) =
      let t' = (handle t p).0 in
      let calls = (handle t p).1 in
      let due = leb next_check p.clock in
      let rest = loop t' (if due then next_check + 1 else next_check) ps in
      if due && p.should_stop
      then record { thread = t'; calls = calls; stopped = true }
      else record rest { calls = calls ++ rest.calls }

  -- `run`, started at a time of the clock
  unfoldable pub run : Thread D → ℕ → List (Pass A) → Run D A
  unfolding loop
  run t start ps = loop t (start + 1) ps
