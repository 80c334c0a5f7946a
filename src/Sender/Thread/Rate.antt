-- ===== src/Sender/Thread/Rate.antt =====
-- src/UDPEchoSenderThread.cpp: `runWithRateLimit`.
pub mod Quotas
use udppingpong.Base.{
  ℕ, zero, suc, ◌+◌, Bool, true, false, ◌&&◌, Option, none, some, List, [], ◌∷◌, ◌==◌,
  if◌then◌else◌,
}
use udppingpong.Base.Int.{ℤ, pos, pos_part, ◌-ℤ◌, ◌*ℤ◌, tdiv, eq_ℤ}
use udppingpong.Double.{Double}
use udppingpong.Exception.{Result, ok, throw, not_connected, socket_exception}
use udppingpong.Socket.{is_set}
use udppingpong.Sender.Thread.{Packet, SenderThread, SendAnswers, send_packets}

-- What the calls in one slice of time answer: `sendPacket`, `getNsec` as often as it is read in the
-- slice, `threadShouldStop` and `GetMicrotime`.
pub record SliceAnswers (D : Type 0) : Type 0 where
  pub sends : ℕ → SendAnswers D
  pub readings : List D
  pub should_stop : Bool
  pub micro : D

-- How the loop ends: after the last slice, by the stop flag, at the end of the running time; or not
-- at all, as the clock readings given do not reach the end of a slice.
pub data End : Type 0 where
  completed stopped timed_out waiting : End

abbrev pub is_waiting : End → Bool
is_waiting waiting = true
is_waiting completed = false
is_waiting stopped = false
is_waiting timed_out = false

-- A worker, the packets sent in each slice, and how the loop ended.
pub record RateRun (D : Type 0) : Type 0 where
  pub thread : SenderThread D
  pub slices : List (List (Packet D))
  pub end : End

-- The packets of a slice, with `n + 1` slices to go.
unfoldable pub quota : ℕ → ℤ → ℤ
quota n queries_rest = if suc n == 1 then queries_rest else tdiv queries_rest (pos (suc n))

module _ {D : Type 0} ⦃d : Double D⦄ where
  open d use {of_int, add, mul, div, lt, le, trunc}

  -- 0.1
  abbrev pub tenth : D
  tenth = div (of_int (pos 1)) (of_int (pos 10))

  -- The loop that sleeps until the next slice begins: the first reading that is not before it.
  unfoldable pub wait_for_slice : D → List D → Option D
  wait_for_slice next [] = none
  wait_for_slice next (now ∷ readings) =
      if lt now next then wait_for_slice next readings else some now

  -- The loop over the slices, with `n` of them to go, in slice number z.
  unfoldable pub rate_loop :
      ℕ → ℕ → ℤ → D → D → D → (ℕ → SliceAnswers D) → SenderThread D → RateRun D
  unfolding wait_for_slice quota
  rate_loop zero z queries_rest next check end answers t = record {
    thread = t;
    slices = [];
    end = completed;
  }
  rate_loop (suc n) z queries_rest next check end answers t =
      let a = answers z in
      let next' = add next t.zeitscheibe in
      let q = quota n queries_rest in
      let (t', ps) = send_packets (pos_part q) 0 a.sends t in
      elim (wait_for_slice next' a.readings) [
        | none ↦ record { thread = t'; slices = ps ∷ []; end = waiting }
        | some now ↦
            let due = lt check now in
            let check' = if due then add now tenth else check in
            let rest = rate_loop n (z + 1) (queries_rest -ℤ q) next' check' end answers t' in
            if due && a.should_stop
            then record { thread = t'; slices = ps ∷ []; end = stopped }
            else if due && le end a.micro
            then record { thread = t'; slices = ps ∷ []; end = timed_out }
            else record rest { slices = ps ∷ rest.slices }
      ]

  -- runtime*1000/(Zeitscheibe*1000.0). The first product is one of `int`, without a bound here: it
  -- overflows from a runtime of 2147484 seconds on, which no result is about.
  unfoldable pub total_zeitscheiben : SenderThread D → ℤ
  total_zeitscheiben t =
      trunc (div (of_int (t.runtime *ℤ pos 1000)) (mul t.zeitscheibe (of_int (pos 1000))))

  -- `getSockAddr`, which `runWithRateLimit` calls for its exceptions. `none` is success of
  -- `getsockname`, `some` its `errno`.
  unfoldable pub check_sock_addr : Option ℕ → SenderThread D → Result (Unit {0})
  check_sock_addr errno t = elim errno [
    | none ↦ if is_set t.sockfd then ok tt else throw not_connected
    | some e ↦ if is_set t.sockfd then throw (socket_exception e) else throw not_connected
  ]

  -- The whole method, started at the times `now` of `getNsec` and `start` of `GetMicrotime`. What it
  -- prints when it is verbose is left out.
  unfoldable pub run_with_rate_limit :
      Option ℕ → D → D → (ℕ → SliceAnswers D) → SenderThread D → Result (RateRun D)
  unfolding check_sock_addr
  run_with_rate_limit errno now start answers t = elim (check_sock_addr errno t) [
    | ok _ ↦ ok (
        rate_loop (pos_part (total_zeitscheiben t)) 0 (t.runtime *ℤ t.queryrate) now (add now tenth)
          (add start (of_int t.runtime)) answers t)
    | throw e ↦ throw e
  ]
