-- ===== src/Sender/Thread/Run/Kept.antt =====
-- What every call of `sendPacket` keeps of a worker, a run keeps up to its end.
use udppingpong.Sender.Thread.Rate.Quotas.{loop_of}
use udppingpong.Sender.Thread.Run.Accounts.{limited_run}
use udppingpong.Sender.Thread.Rate.{
  rate_loop, SliceAnswers, tenth, quota, wait_for_slice, run_with_rate_limit, total_zeitscheiben,
}
use udppingpong.Sender.Thread.Run.{
  send_if_ready, free_loop, finish_run, run_sender, Round, RunAnswers, run_without_rate_limit,
  socket_ready,
}
use mathlib.Core.Path.{subst}
use udppingpong.Base.{
  ℕ, zero, suc, ◌+◌, ◌≡◌, ◌&&◌, some, List, [], ◌∷◌, arith, Bool-cases, Option-cases, inl, inr,
  if◌then◌else◌, concat,
}
use udppingpong.Base.Int.{ℤ, pos, pos_part, ◌-ℤ◌, ltb_ℤ, ◌*ℤ◌}
use udppingpong.Double.{Double}
use udppingpong.Exception.{ok}
use udppingpong.Sender.Thread.{
  SenderThread, SendAnswers, send_packet, send_packets, Packet, prepare_run,
}

module _ {D : Type 0} (P : SenderThread D → Type 0)
    (step : (a : SendAnswers D) (t : SenderThread D) → P t → P (send_packet a t).0) where
  pub send_packets-kept :
      (m i : ℕ) (answers : ℕ → SendAnswers D) (t : SenderThread D)
      → P t
      → P (send_packets m i answers t).0
  unfolding send_packets
  send_packets-kept zero i answers t h = h
  send_packets-kept (suc m) i answers t h =
      send_packets-kept m (i + 1) answers (send_packet (answers i) t).0 (step (answers i) t h)

  send_if_ready-kept : (r : Round D) (t : SenderThread D) → P t → P (send_if_ready r t).0
  unfolding send_if_ready
  send_if_ready-kept r t h =
      let sent = step r.send t h in
      elim (Bool-cases (socket_ready r.writable)) [ inl e ↦ rw e sent | inr e ↦ rw e h ]

module _ {D : Type 0} ⦃d : Double D⦄ (P : SenderThread D → Type 0)
    (step : (a : SendAnswers D) (t : SenderThread D) → P t → P (send_packet a t).0) where
  open d use {add, lt, le}

  pub free_loop-kept :
      (check end : D) (rs : List (Round D)) (t : SenderThread D)
      → P t
      → P (free_loop check end rs t).thread
  unfolding free_loop
  free_loop-kept check end [] t h = h
  free_loop-kept check end (r ∷ rs) t h =
      let sent = send_if_ready r t in
      let one = send_if_ready-kept P step r t h in
      let check' = if lt check r.now then add r.now tenth else check in
      let rest = free_loop-kept check' end rs sent.0 one in
      elim (Bool-cases (lt check r.now && r.should_stop)) [
        | inl e ↦ rw e one
        | inr e ↦ elim (Bool-cases (lt end r.now)) [
          | inl e' ↦ rw (e, e') one
          | inr e' ↦ rw (e, e') rest
        ]
      ]

  pub rate_loop-kept :
      (slices i : ℕ) (queries : ℤ) (next check end : D) (answers : ℕ → SliceAnswers D)
      (t : SenderThread D)
      → P t
      → P (rate_loop slices i queries next check end answers t).thread
  unfolding rate_loop
  rate_loop-kept zero i queries next check end answers t h = h
  rate_loop-kept (suc slices) i queries next check end answers t h =
      let a = answers i in
      let q = quota slices queries in
      let next' = add next t.zeitscheibe in
      let sent = send_packets (pos_part q) 0 a.sends t in
      let one = send_packets-kept P step (pos_part q) 0 a.sends t h in
      elim (Option-cases (wait_for_slice next' a.readings)) [
        | inl e ↦ rw (e, rate_loop) one
        | inr (now, e) ↦
            let due = lt check now in
            let check' = if due then add now tenth else check in
            let rest =
              rate_loop-kept slices (i + 1) (queries -ℤ q) next' check' end answers sent.0 one in
            elim (Bool-cases (due && a.should_stop)) [
              | inl st ↦ rw (e, rate_loop, st) one
              | inr st ↦ elim (Bool-cases (due && le end a.micro)) [
                | inl m ↦ rw (e, rate_loop, st, m) one
                | inr m ↦ rw (e, rate_loop, st, m) rest
              ]
            ]
      ]

  -- A run that ends has come to its end from a worker with the property.
  pub run_sender-kept :
      (a : RunAnswers D) (t u : SenderThread D) (sent : List (Packet D))
      → P (prepare_run a.random t)
      → run_sender a t ≡ ok (some (u, sent))
      → (w : SenderThread D) × P w
        × ((packets : List (Packet D)) × (finish_run a w packets ≡ some (u, sent)))
  unfolding run_sender run_without_rate_limit
  run_sender-kept a t u sent start e =
      let t' = prepare_run a.random t in
      elim (Bool-cases (ltb_ℤ (pos 0) t.queryrate)) [
        | inl limited ↦
            let (r, loop, ends) =
              limited_run a t u sent
                (run_with_rate_limit a.sock_errno a.nsec a.loop_start a.slices t')
                (rw limited at e) in
            let same = loop_of a.sock_errno a.nsec a.loop_start a.slices t' r loop in
            let kept =
              rate_loop-kept (pos_part (total_zeitscheiben t')) 0 (t'.runtime *ℤ t'.queryrate)
                a.nsec (add a.nsec tenth) (add a.loop_start (d.of_int t'.runtime)) a.slices t'
                start in
            (r.thread, subst (λ q. P q.thread) same kept, (concat r.slices, ends))
        | inr free ↦
            let r = run_without_rate_limit a.loop_start a.rounds t' in
            let kept =
              free_loop-kept (add a.loop_start tenth) (add a.loop_start (d.of_int t'.runtime))
                a.rounds t' start in
            (r.thread, kept, (r.packets, ground (arith, e, free)))
      ]
