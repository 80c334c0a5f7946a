-- ===== src/Sender/Thread/Run/Accounts.antt =====
-- The packets of a whole run of a worker, and what its counters make of them.
use udppingpong.Base.{
  ℕ, zero, suc, ◌+◌, ◌%◌, ◌≡◌, refl, false, ◌&&◌, Option, none, some, List, [], ◌∷◌, arith,
  if◌then◌else◌, Bool-cases, Option-cases, inl, inr, length, concat, length-append, ap, ◌≤◌,
}
use udppingpong.Base.Word.{word_mod}
use udppingpong.Base.Int.{ℤ, pos_part, ◌-ℤ◌, ltb_ℤ, pos, ◌*ℤ◌}
use udppingpong.Double.{Double}
use udppingpong.Sender.Thread.{SenderThread, send_packets, Packet, prepare_run, ok}
use udppingpong.Sender.Thread.Rate.{
  SliceAnswers, RateRun, rate_loop, quota, wait_for_slice, tenth, is_waiting, run_with_rate_limit,
  total_zeitscheiben,
}
use udppingpong.Sender.Thread.Rate.Quotas.{length-send_packets, loop_of}
use mathlib.Core.Path.{subst}
use udppingpong.Exception.{Result, ok, throw}
use udppingpong.Sender.Thread.Run.{
  Round, send_if_ready, free_loop, finish_run, run_sender, RunAnswers, run_without_rate_limit,
}
use udppingpong.Sender.Thread.Run.Packets.{
  counted, IsAccount, send_packets-IsAccount, send_if_ready-IsAccount, cut, joined,
}

module _ {D : Type 0} ⦃d : Double D⦄ where
  open d use {add, lt, le}

  free_loop-IsAccount :
      (check end : D) (rs : List (Round D)) (t : SenderThread D) (n k : ℕ)
      → IsAccount n k t
      → let run = free_loop check end rs t in IsAccount n (k + length run.packets) run.thread
  unfolding free_loop
  free_loop-IsAccount check end [] t n k h = record {
    word = h.word;
    total = omega (arith, h.total);
    most = omega (arith, h.most);
  }
  free_loop-IsAccount check end (r ∷ rs) t n k h =
      let sent = send_if_ready r t in
      let one = send_if_ready-IsAccount r t n k h in
      let check' = if lt check r.now then add r.now tenth else check in
      let run = free_loop check' end rs sent.0 in
      let rest = free_loop-IsAccount check' end rs sent.0 n (k + length sent.1) one in
      let joined = length-append sent.1 run.packets in
      elim (Bool-cases (lt check r.now && r.should_stop)) [
        | inl e ↦ rw e one
        | inr e ↦ elim (Bool-cases (lt end r.now)) [
          | inl e' ↦ rw (e, e') one
          | inr e' ↦
              rw (e, e')
                (record {
                  word = rest.word;
                  total = omega (arith, rest.total, joined);
                  most = omega (arith, rest.most, joined);
                })
        ]
      ]

  rate_loop-IsAccount :
      (slices z : ℕ) (queries : ℤ) (next check end : D) (answers : ℕ → SliceAnswers D)
      (t : SenderThread D) (n k : ℕ)
      → IsAccount n k t
      → let run = rate_loop slices z queries next check end answers t in
        IsAccount n (k + length (concat run.slices)) run.thread
  unfolding rate_loop
  rate_loop-IsAccount zero z queries next check end answers t n k h = record {
    word = h.word;
    total = omega (arith, h.total);
    most = omega (arith, h.most);
  }
  rate_loop-IsAccount (suc slices) z queries next check end answers t n k h =
      let a = answers z in
      let q = quota slices queries in
      let next' = add next t.zeitscheibe in
      let sent = send_packets (pos_part q) 0 a.sends t in
      let spent = send_packets-IsAccount (pos_part q) 0 a.sends t n k h in
      let many = length-send_packets (pos_part q) 0 a.sends t in
      let one = cut sent.0 sent.1 (pos_part q) n k many spent in
      elim (Option-cases (wait_for_slice next' a.readings)) [
        | inl e ↦ rw (e, rate_loop) one
        | inr (now, e) ↦
            let due = lt check now in
            let check' = if due then add now tenth else check in
            let run = rate_loop slices (z + 1) (queries -ℤ q) next' check' end answers sent.0 in
            let rest =
              rate_loop-IsAccount slices (z + 1) (queries -ℤ q) next' check' end answers sent.0 n
                (k + pos_part q) spent in
            elim (Bool-cases (due && a.should_stop)) [
              | inl s ↦ rw (e, rate_loop, s) one
              | inr s ↦ elim (Bool-cases (due && le end a.micro)) [
                | inl m ↦ rw (e, rate_loop, s, m) one
                | inr m ↦
                    rw (e, rate_loop, s, m)
                      (joined run.thread sent.1 run.slices (pos_part q) n k many rest)
              ]
            ]
      ]

  prepared : (random : Packet D) (t : SenderThread D) → IsAccount 0 0 (prepare_run random t)
  unfolding prepare_run
  prepared random t = record { word = ground arith; total = refl; most = ground arith }

  pub finish_run-counted :
      (a : RunAnswers D) (t u : SenderThread D) (packets sent : List (Packet D))
      → finish_run a t packets ≡ some (u, sent)
      → (counted u ≡ counted t) × (sent ≡ packets) × (u.duration ≡ d.sub a.finish a.start)
  unfolding finish_run
  finish_run-counted a t u packets sent e = ground arith

  -- What a run that has come to its end has counted.
  pub record IsAccounted (a : RunAnswers D) (u : SenderThread D) (sent : List (Packet D))
      : Type 0 where
    pub total : counted u % word_mod ≡ length sent % word_mod
    pub most : counted u ≤ length sent
    pub time : u.duration ≡ d.sub a.finish a.start

  accounts_of :
      (a : RunAnswers D) (w u : SenderThread D) (packets sent : List (Packet D))
      → IsAccount 0 (0 + length packets) w
      → finish_run a w packets ≡ some (u, sent)
      → IsAccounted a u sent
  accounts_of a w u packets sent h e =
      let (count, same, time) = finish_run-counted a w u packets sent e in
      record {
        total = omega (arith, h.total, count, ap length same);
        most = omega (arith, h.most, count, ap length same);
        time = time;
      }

  run_with_rate_limit-IsAccount :
      (errno : Option ℕ) (now start : D) (answers : ℕ → SliceAnswers D) (t : SenderThread D)
      (run : RateRun D)
      → IsAccount 0 0 t
      → run_with_rate_limit errno now start answers t ≡ ok run
      → IsAccount 0 (0 + length (concat run.slices)) run.thread
  run_with_rate_limit-IsAccount errno now start answers t run h e =
      subst (λ r. IsAccount 0 (0 + length (concat r.slices)) r.thread)
        (loop_of errno now start answers t run e)
        (rate_loop-IsAccount (pos_part (total_zeitscheiben t)) 0 (t.runtime *ℤ t.queryrate) now
          (add now tenth) (add start (d.of_int t.runtime)) answers t 0 0 h)

  pub limited_run :
      (a : RunAnswers D) (t u : SenderThread D) (sent : List (Packet D)) (loop : Result (RateRun D))
      → (elim loop [
        | throw e ↦ throw e
        | ok r ↦ ok (if is_waiting r.end then none else finish_run a r.thread (concat r.slices))
      ])
        ≡ ok (some (u, sent))
      → (r : RateRun D) × (loop ≡ ok r) × (finish_run a r.thread (concat r.slices) ≡ some (u, sent))
  limited_run a t u sent (throw x) e = ground arith
  limited_run a t u sent (ok r) e = (r, refl, ground arith)

  pub run_sender-IsAccounted :
      (a : RunAnswers D) (t u : SenderThread D) (sent : List (Packet D))
      → run_sender a t ≡ ok (some (u, sent))
      → IsAccounted a u sent
  unfolding run_sender run_without_rate_limit
  run_sender-IsAccounted a t u sent e =
      let t' = prepare_run a.random t in
      let start = prepared a.random t in
      elim (Bool-cases (ltb_ℤ (pos 0) t.queryrate)) [
        | inl limited ↦
            let (r, loop, ends) =
              limited_run a t u sent
                (run_with_rate_limit a.sock_errno a.nsec a.loop_start a.slices t')
                (rw limited at e) in
            accounts_of a r.thread u (concat r.slices) sent
              (run_with_rate_limit-IsAccount a.sock_errno a.nsec a.loop_start a.slices t' r start
                loop)
              ends
        | inr free ↦
            let r = run_without_rate_limit a.loop_start a.rounds t' in
            accounts_of a r.thread u r.packets sent
              (free_loop-IsAccount (add a.loop_start tenth) (add a.loop_start (d.of_int t'.runtime))
                a.rounds t' 0 0 start)
              (ended free)
      ]
    where
      ended :
          ltb_ℤ (pos 0) t.queryrate ≡ false
          → let r = run_without_rate_limit a.loop_start a.rounds (prepare_run a.random t) in
            finish_run a r.thread r.packets ≡ some (u, sent)
      ended h = ground arith

  -- A run that comes to its end has counted every packet that it handed to `send` once: modulo
  -- 2 ^ 64 the sum of `counter_send`, `counter_0bytes` and `errors` is their number, whatever the
  -- counters were before. Its duration is the difference of the two readings around the sending.
  pub run_sender_accounts :
      (a : RunAnswers D) (t u : SenderThread D) (sent : List (Packet D))
      → run_sender a t ≡ ok (some (u, sent))
      → (counted u % word_mod ≡ length sent % word_mod) × (u.duration ≡ d.sub a.finish a.start)
  run_sender_accounts a t u sent e =
      let all = run_sender-IsAccounted a t u sent e in (all.total, all.time)
