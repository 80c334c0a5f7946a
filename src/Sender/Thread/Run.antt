-- ===== src/Sender/Thread/Run.antt =====
-- src/UDPEchoSenderThread.cpp: `runWithoutRateLimit`, `waitForTimeout` and `run`, the body of the
-- worker with its receiver.
pub mod Ending
pub mod Accepted
pub mod Counting
pub mod Passes
pub mod Returns
pub mod Packets
pub mod Accounts
pub mod Kept
pub mod Settings
pub mod Examples
use udppingpong.Base.{
  ℕ, suc, Bool, true, false, ◌&&◌, ◌||◌, Option, none, some, List, [], ◌∷◌, ◌++◌, if◌then◌else◌,
  map, concat,
}
use mathlib.Core.Option
use udppingpong.Base.Int.{ℤ, pos, ltb_ℤ}
use udppingpong.Double.{Double}
use udppingpong.Exception.{Result, ok, throw}
use udppingpong.Receiver.{Receiver, Pass, run as run_receiver}
use udppingpong.Sender.Thread.{Packet, SenderThread, SendAnswers, send_packet, prepare_run}
use udppingpong.Sender.Thread.Rate.{SliceAnswers, RateRun, tenth, run_with_rate_limit, is_waiting}

-- A round of the loop without rate limit: whether `select` marks the socket as writable (`none` is
-- its -1), the calls of `sendPacket`, the time read after it, and the stop flag.
pub record Round (D : Type 0) : Type 0 where
  pub writable : Option Bool
  pub send : SendAnswers D
  pub now : D
  pub should_stop : Bool

-- What is left of the loop, and whether it ended (or the list of rounds ended first).
pub record FreeRun (D : Type 0) : Type 0 where
  pub thread : SenderThread D
  pub packets : List (Packet D)
  pub ended : Bool

-- A reading of the clock in `waitForTimeout`, and the stop flag.
pub record Reading (D : Type 0) : Type 0 where
  pub now : D
  pub should_stop : Bool

unfoldable pub socket_ready : Option Bool → Bool
socket_ready none = false
socket_ready (some writable) = writable

module _ {D : Type 0} where
  -- `if (socketReady()) sendPacket();`
  unfoldable pub send_if_ready : Round D → SenderThread D → SenderThread D × List (Packet D)
  unfolding socket_ready send_packet
  send_if_ready r t =
      let (t', p) = send_packet r.send t in
      if socket_ready r.writable then (t', p ∷ []) else (t, [])

module _ {D : Type 0} ⦃d : Double D⦄ where
  open d use {of_int, add, sub, lt}

  unfoldable pub free_loop : D → D → List (Round D) → SenderThread D → FreeRun D
  unfolding send_if_ready
  free_loop check end [] t = record { thread = t; packets = []; ended = false }
  free_loop check end (r ∷ rs) t =
      let (t', ps) = send_if_ready r t in
      let due = lt check r.now in
      let rest = free_loop (if due then add r.now tenth else check) end rs t' in
      if due && r.should_stop
      then record { thread = t'; packets = ps; ended = true }
      else if lt end r.now
      then record { thread = t'; packets = ps; ended = true }
      else record rest { packets = ps ++ rest.packets }

  unfoldable pub run_without_rate_limit : D → List (Round D) → SenderThread D → FreeRun D
  unfolding free_loop
  run_without_rate_limit start rs t =
      free_loop (add start tenth) (add start (of_int t.runtime)) rs t

  -- How often `waitForTimeout` sleeps for 10 ms before it returns, if it does within the readings.
  unfoldable pub wait_loop : D → D → List (Reading D) → Option ℕ
  wait_loop check end [] = none
  wait_loop check end (r ∷ rs) =
      let due = lt check r.now in
      let rest = wait_loop (if due then add r.now tenth else check) end rs in
      if lt r.now end then if due && r.should_stop then some 0 else Option.map suc rest else some 0

  unfoldable pub wait_for_timeout : D → List (Reading D) → SenderThread D → Option ℕ
  unfolding wait_loop
  wait_for_timeout start rs t = wait_loop (add start tenth) (add start (of_int t.timeout)) rs

-- What the calls of `run` answer: `ppl7::Random`, `GetMicrotime` before and after the sending, the
-- readings in the two loops (of which one runs), and what the receiver meets until it is stopped.
pub record RunAnswers (D : Type 0) : Type 0 where
  pub random : Packet D
  pub start : D
  pub sock_errno : Option ℕ
  pub nsec : D
  pub loop_start : D
  pub slices : ℕ → SliceAnswers D
  pub rounds : List (Round D)
  pub finish : D
  pub wait_start : D
  pub waits : List (Reading D)
  pub receiver_start : ℕ
  pub receiver_passes : List (Pass D)

module _ {D : Type 0} ⦃d : Double D⦄ where
  open d use {sub}

  -- What `run` does after the sending. The receiver runs beside it if answers are wanted;
  -- `threadStop` waits for its end, so it is `none` too if the passes given do not stop the receiver.
  unfoldable pub finish_run :
      RunAnswers D → SenderThread D → List (Packet D) → Option (SenderThread D × List (Packet D))
  unfolding wait_for_timeout run_receiver
  finish_run a t packets =
      let r = run_receiver t.receiver a.receiver_start a.receiver_passes in
      let u = record t {
        duration = sub a.finish a.start;
        receiver = if t.ignore_responses then t.receiver else r.receiver;
      } in
      elim (wait_for_timeout a.wait_start a.waits t) [
        | none ↦ none
        | some sleeps ↦ if t.ignore_responses || r.stopped then some (u, packets) else none
      ]

  -- `run`, with the packets that it hands to `send`. It is `none` if the readings of the clock
  -- and the passes of the receiver given do not reach its end.
  unfoldable pub run_sender :
      RunAnswers D → SenderThread D → Result (Option (SenderThread D × List (Packet D)))
  unfolding prepare_run run_with_rate_limit run_without_rate_limit finish_run
  run_sender a t =
      let t' = prepare_run a.random t in
      if ltb_ℤ (pos 0) t.queryrate
      then elim (run_with_rate_limit a.sock_errno a.nsec a.loop_start a.slices t') [
        | throw e ↦ throw e
        | ok r ↦ ok (if is_waiting r.end then none else finish_run a r.thread (concat r.slices))
      ]
      else let r = run_without_rate_limit a.loop_start a.rounds t' in
        ok (if r.ended then finish_run a r.thread r.packets else none)
