-- ===== src/Sender/Thread/Run/Returns.antt =====
-- When `run` of a worker returns.
use mathlib.Core.Path.{subst}
use udppingpong.Base.{
  ◌∙◌, Option, ℕ, ◌≡◌, refl, true, false, some, none, List, arith, Any, inl, inr, Bool-cases,
  Option-cases, concat, sym, ap,
}
use udppingpong.Base.Int.{pos, pos_part, ltb_ℤ, ◌*ℤ◌}
use udppingpong.Double.{Double}
use udppingpong.Exception.{ok}
use udppingpong.Socket.{is_set}
use udppingpong.Sender.Thread.{Packet, SenderThread, prepare_run}
use udppingpong.Sender.Thread.Rate.{
  SliceAnswers, tenth, rate_loop, run_with_rate_limit, check_sock_addr, total_zeitscheiben,
}
use udppingpong.Sender.Thread.Run.{
  RunAnswers, free_loop, run_without_rate_limit, finish_run, run_sender, wait_for_timeout,
}
use udppingpong.Sender.Thread.Run.Kept.{free_loop-kept, rate_loop-kept}
use udppingpong.Sender.Thread.Run.Settings.{settings_of, HasSettings, send_packet-HasSettings}
use udppingpong.Receiver
use udppingpong.Receiver.Stopping.{run_ends}
use udppingpong.Sender.Thread.Run.Passes.{
  ReceiverStops, Passes, rate_loop-SlicesPass, free_loop-Any, wait_loop-Any,
}

module _ {D : Type 0} ⦃d : Double D⦄ where
  open d use {of_int, add, lt}

  finish_run-Any :
      (a : RunAnswers D) (t : SenderThread D) (packets : List (Packet D))
      → Any (λ r. lt r.now (add a.wait_start (of_int t.timeout)) ≡ false) a.waits
      → ReceiverStops a
      → (u : SenderThread D) × ((sent : List (Packet D)) × (finish_run a t packets
            ≡ some (u, sent)))
  unfolding finish_run wait_for_timeout
  finish_run-Any a t packets h (ps, (p, (qs, split, early, late, stop))) =
      let (sleeps, ends) =
        wait_loop-Any (add a.wait_start tenth) (add a.wait_start (of_int t.timeout)) a.waits h in
      let stops : (Receiver.run t.receiver a.receiver_start a.receiver_passes).stopped ≡ true =
        ap (λ xs. (Receiver.run t.receiver a.receiver_start xs).stopped) split
        ∙ run_ends t.receiver a.receiver_start ps p qs early late stop in
      elim (Option-cases (finish_run a t packets)) [
        | inl stuck ↦ ground (arith, stuck, ends, stops)
        | inr ((u, sent), done) ↦ (u, (sent, done))
      ]

  run_with_rate_limit-open :
      (errno : Option ℕ) (now start : D) (answers : ℕ → SliceAnswers D) (t : SenderThread D)
      → is_set t.sockfd ≡ true
      → errno ≡ none
      → run_with_rate_limit errno now start answers t
        ≡ ok (
            rate_loop
              (pos_part (total_zeitscheiben t))
              0
              (t.runtime *ℤ t.queryrate)
              now
              (add now tenth)
              (add start (of_int t.runtime))
              answers
              t)
  unfolding run_with_rate_limit check_sock_addr
  run_with_rate_limit-open errno now start answers t open_socket fine =
      ground (arith, fine, open_socket)

  finish_run-HasSettings :
      (a : RunAnswers D) (t w : SenderThread D) (packets : List (Packet D))
      → HasSettings (settings_of t) w
      → Any (λ r. lt r.now (add a.wait_start (of_int t.timeout)) ≡ false) a.waits
      → ReceiverStops a
      → (u : SenderThread D) × ((sent : List (Packet D)) × (finish_run a w packets
            ≡ some (u, sent)))
  finish_run-HasSettings a t w packets same h stops =
      finish_run-Any a w packets
        (subst (λ s. Any (λ r. lt r.now (add a.wait_start (of_int s)) ≡ false) a.waits)
          (sym (ap (λ s. s.0.1) same)) h)
        stops

  -- `run` of a worker returns when the clock gets on: in each slice to the next one, in the loop
  -- without rate limit past the running time, and then past the timeout; and its receiver is
  -- stopped. Its socket must be open.
  pub run_sender-returns :
      (a : RunAnswers D) (t : SenderThread D)
      → is_set t.sockfd ≡ true
      → a.sock_errno ≡ none
      → Passes t.runtime t.timeout t.zeitscheibe a
      → (u : SenderThread D) × ((sent : List (Packet D)) × (run_sender a t ≡ ok (some (u, sent))))
  unfolding run_sender prepare_run run_without_rate_limit total_zeitscheiben
  run_sender-returns a t open_socket fine p =
      let t' = prepare_run a.random t in
      let check = add a.nsec tenth in
      let end = add a.loop_start (of_int t.runtime) in
      elim (Bool-cases (ltb_ℤ (pos 0) t.queryrate)) [
        | inl limited ↦
            let n = pos_part (total_zeitscheiben t') in
            let q = t.runtime *ℤ t.queryrate in
            let r = rate_loop n 0 q a.nsec check end a.slices t' in
            let ends = rate_loop-SlicesPass n 0 q a.nsec check end a.slices t' p.slices in
            let kept =
              rate_loop-kept (HasSettings (settings_of t)) (send_packet-HasSettings (settings_of t))
                n 0 q a.nsec check end a.slices t' refl in
            let (u, (sent, done)) =
              finish_run-HasSettings a t r.thread (concat r.slices) kept p.waits p.receiver in
            let loop =
              run_with_rate_limit-open a.sock_errno a.nsec a.loop_start a.slices t' open_socket
                fine in
            (u, (sent, ground (arith, limited, loop, ends, done)))
        | inr free ↦
            let r = free_loop (add a.loop_start tenth) end a.rounds t' in
            let ends = free_loop-Any (add a.loop_start tenth) end a.rounds t' p.rounds in
            let kept =
              free_loop-kept (HasSettings (settings_of t)) (send_packet-HasSettings (settings_of t))
                (add a.loop_start tenth) end a.rounds t' refl in
            let (u, (sent, done)) =
              finish_run-HasSettings a t r.thread r.packets kept p.waits p.receiver in
            (u, (sent, ground (arith, free, ends, done)))
      ]
