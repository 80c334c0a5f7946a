-- ===== src/Sender/Results.antt =====
-- src/sender.cpp: `getResults` and `getCounter`, the sums over the worker threads, and the figures
-- that are printed and saved.
pub mod Totals
pub mod Times
pub mod Figures
pub mod Order
pub mod Pool
pub mod Examples
use udppingpong.Base.{ℕ, List, [], ◌∷◌, if◌then◌else◌, replicate}
use udppingpong.Base.Int.{ℤ, pos, ◌*ℤ◌, tdiv}
use udppingpong.Base.Word.{add64, sub64, signed64}
use udppingpong.Counter.{Counter, clear}
use udppingpong.Double.{Double}
use udppingpong.Sender.Thread.Getters.{
  get_packets_received, get_bytes_received, get_round_trip_time_average, get_round_trip_time_min,
  get_round_trip_time_max,
}
use udppingpong.Sender.Thread.{
  SenderThread, error_codes, get_packets_send, get_errors, get_counter_0bytes, get_duration,
}

pub record Results (D : Type 0) : Type 0 where
  pub queryrate : ℤ
  pub counter_send : ℕ
  pub counter_received : ℕ
  pub bytes_received : ℕ
  pub counter_errors : ℕ
  pub packages_lost : ℕ
  pub counter_0bytes : ℕ
  pub counter_errorcodes : List ℕ
  pub duration : D
  pub rtt_total : D
  pub rtt_min : D
  pub rtt_max : D

-- `result.counter_errorcodes[i] += ...` for all i.
unfoldable pub add_codes : List ℕ → List ℕ → List ℕ
add_codes [] more = []
add_codes (a ∷ codes) [] = a ∷ codes
add_codes (a ∷ codes) (b ∷ more) = add64 a b ∷ add_codes codes more

module _ {D : Type 0} ⦃d : Double D⦄ where
  open d use {nought, of_int, add, mul, div, lt, eq, trunc}

  -- What `getResults` sets before its loop.
  unfoldable pub clear_results : Results D → Results D
  clear_results r = record r {
    counter_send = 0;
    counter_received = 0;
    bytes_received = 0;
    counter_errors = 0;
    counter_0bytes = 0;
    duration = nought;
    rtt_total = nought;
    rtt_min = nought;
    rtt_max = nought;
    counter_errorcodes = replicate error_codes 0;
  }

  -- The body of the loop.
  unfoldable pub add_thread : Results D → SenderThread D → Results D
  unfolding get_packets_send get_errors get_counter_0bytes get_duration get_packets_received
      get_bytes_received get_round_trip_time_average get_round_trip_time_min get_round_trip_time_max
      add_codes
  add_thread r t =
      let least = get_round_trip_time_min t in
      let greatest = get_round_trip_time_max t in
      record r {
        counter_send = add64 r.counter_send (get_packets_send t);
        counter_received = add64 r.counter_received (get_packets_received t);
        bytes_received = add64 r.bytes_received (get_bytes_received t);
        counter_errors = add64 r.counter_errors (get_errors t);
        counter_0bytes = add64 r.counter_0bytes (get_counter_0bytes t);
        duration = add r.duration (get_duration t);
        rtt_total = add r.rtt_total (get_round_trip_time_average t);
        rtt_min =
            if eq r.rtt_min nought then least else if lt least r.rtt_min then least else r.rtt_min;
        rtt_max = if lt r.rtt_max greatest then greatest else r.rtt_max;
        counter_errorcodes = add_codes r.counter_errorcodes t.counter_errorcodes;
      }

  unfoldable pub add_threads : Results D → List (SenderThread D) → Results D
  unfolding add_thread
  add_threads r [] = r
  add_threads r (t ∷ ts) = add_threads (add_thread r t) ts

  unfoldable pub get_results : ℤ → List (SenderThread D) → Results D → Results D
  unfolding clear_results add_threads
  get_results thread_count ts result =
      let r = add_threads (clear_results result) ts in
      record r {
        packages_lost = sub64 r.counter_send r.counter_received;
        duration = div r.duration (of_int thread_count);
      }

module _ {D : Type 0} where
  -- The loop of `getCounter`: the bytes are not added up.
  unfoldable pub add_counters : Counter D → List (SenderThread D) → Counter D
  unfolding get_packets_send get_packets_received
  add_counters c [] = c
  add_counters c (t ∷ ts) =
      add_counters
        (record c {
          packets_send = add64 c.packets_send (get_packets_send t);
          packets_received = add64 c.packets_received (get_packets_received t);
        })
        ts

  -- `garbage` is the uninitialised local counter.
  unfoldable pub get_sender_counter : Counter D → D → List (SenderThread D) → Counter D
  unfolding add_counters clear
  get_sender_counter garbage now ts = add_counters (record (clear garbage) { sample_time = now }) ts
