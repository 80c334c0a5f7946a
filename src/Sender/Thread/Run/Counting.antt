-- ===== src/Sender/Thread/Run/Counting.antt =====
-- How a run counts the packets that `send` has accepted, and the times that it gives them.
use mathlib.Core.Path.{subst}
use udppingpong.Base.{
  ℕ, zero, suc, ◌+◌, ◌%◌, ◌≡◌, refl, ◌&&◌, List, [], ◌∷◌, ◌++◌, length, if◌then◌else◌, arith, All,
  All-append, All-Mem, inl, inr, Bool-cases, Option-cases, some, length-append, concat,
}
use udppingpong.Base.Int.{ℤ, pos, pos_part, ltb_ℤ, ◌-ℤ◌, ◌*ℤ◌}
use udppingpong.Base.Word.{word_mod, add64}
use udppingpong.Double.{Double}
use udppingpong.Exception.{ok}
use udppingpong.Sender.Thread.Run.Accepted.{
  accepts, accepted_packets, accepted_slices, accepted_each, ready_sends, accepted_in, IsSentAt,
  IsCallOf,
}
use udppingpong.Sender.Thread.{
  Packet, SenderThread, SendAnswers, sent, failed, send_packet, send_packets, prepare_run,
  count_sent, count_error, fill,
}
use udppingpong.Sender.Thread.Rate.Quotas.{loop_of}
use udppingpong.Sender.Thread.Run.Accounts.{limited_run}
use udppingpong.Sender.Thread.Rate.{
  SliceAnswers, rate_loop, run_with_rate_limit, tenth, quota, wait_for_slice, total_zeitscheiben,
}
use udppingpong.Sender.Thread.Run.{
  Round, RunAnswers, socket_ready, send_if_ready, free_loop, run_without_rate_limit, run_sender,
  finish_run,
}

module _ {D : Type 0} where
  send_packet-counts :
      (size : ℕ) (a : SendAnswers D) (t : SenderThread D)
      → t.packetsize ≡ size
      → let u = (send_packet a t).0 in
        let n : ℕ = if accepts size a.send then 1 else 0 in
        (u.packetsize ≡ size) × (u.counter_send % word_mod ≡ (t.counter_send + n) % word_mod)
  unfolding send_packet count_sent count_error add64
  send_packet-counts size a t e = elim (a.send) [
    | sent n ↦ (ground (arith, e), ground (arith, e))
    | failed errno ↦ (ground (arith, e), ground (arith, e))
  ]

  send_packet-time : (a : SendAnswers D) (t : SenderThread D) → (send_packet a t).1.time ≡ a.now
  unfolding send_packet fill
  send_packet-time a t = refl

module _ {D : Type 0} (Q : SendAnswers D → Type 0) where
  -- Between `t` and `u`, workers of this packet size, `counter_send` has counted these packets, sent
  -- by calls that Q holds of.
  pub record HasSent (size : ℕ) (ps : List (Packet D)) (t u : SenderThread D) : Type 0 where
    pub same_size : u.packetsize ≡ size
    pub count : u.counter_send % word_mod ≡ (t.counter_send + length ps) % word_mod
    pub times : All (λ p. IsSentAt Q size p.time) ps

  one_more :
      (size : ℕ) (ps : List (Packet D)) (a : SendAnswers D) (t u : SenderThread D)
      → t.packetsize ≡ size
      → Q a
      → HasSent size ps (send_packet a t).0 u
      → HasSent size (if accepts size a.send then (send_packet a t).1 ∷ ps else ps) t u
  one_more size ps a t u e q rest =
      let one = send_packet-counts size a t e in
      elim (Bool-cases (accepts size a.send)) [
        | inl taken ↦ rw taken (record {
          same_size = rest.same_size;
          count = omega (arith, rw taken at one.1, rest.count);
          times = ((a, q, taken, send_packet-time a t), rest.times);
        })
        | inr refused ↦ rw refused (record {
          same_size = rest.same_size;
          count = omega (arith, rw refused at one.1, rest.count);
          times = rest.times;
        })
      ]

  none_sent : (size : ℕ) (t : SenderThread D) → t.packetsize ≡ size → HasSent size [] t t
  none_sent size t e = record { same_size = e; count = omega arith; times = tt }

  send_packets-HasSent :
      (size m i : ℕ) (answers : ℕ → SendAnswers D) (t : SenderThread D)
      → t.packetsize ≡ size
      → ((j : ℕ) → Q (answers j))
      → let (u, ps) = send_packets m i answers t in
        HasSent size (accepted_packets size i answers ps) t u
  unfolding send_packets accepted_packets
  send_packets-HasSent size zero i answers t e q = none_sent size t e
  send_packets-HasSent size (suc m) i answers t e q =
      let (u, p) = send_packet (answers i) t in
      let (v, ps) = send_packets m (i + 1) answers u in
      one_more size (accepted_packets size (i + 1) answers ps) (answers i) t v e (q i) (
        send_packets-HasSent size m (i + 1) answers u (send_packet-counts size (answers i) t e).0 q)

  both :
      (size : ℕ) (ps qs : List (Packet D)) (t u v : SenderThread D)
      → HasSent size ps t u
      → HasSent size qs u v
      → HasSent size (ps ++ qs) t v
  both size ps qs t u v first rest = record {
    same_size = rest.same_size;
    count = omega (arith, first.count, rest.count, length-append ps qs);
    times = All-append (λ p. IsSentAt Q size p.time) ps qs first.times rest.times;
  }

module _ {D : Type 0} ⦃d : Double D⦄ (Q : SendAnswers D → Type 0) where
  open d use {of_int, add, lt, le}

  rate_loop-HasSent :
      (size n z : ℕ) (queries : ℤ) (next check end : D) (answers : ℕ → SliceAnswers D)
      (t : SenderThread D)
      → t.packetsize ≡ size
      → ((i j : ℕ) → Q ((answers i).sends j))
      → let r = rate_loop n z queries next check end answers t in
        HasSent Q size (accepted_slices size z answers r.slices) t r.thread
  unfolding rate_loop accepted_slices
  rate_loop-HasSent size zero z queries next check end answers t e q = none_sent Q size t e
  rate_loop-HasSent size (suc n) z queries next check end answers t e q =
      let a = answers z in
      let k = quota n queries in
      let next' = add next t.zeitscheibe in
      let s = send_packets (pos_part k) 0 a.sends t in
      let one = send_packets-HasSent Q size (pos_part k) 0 a.sends t e (q z) in
      let first = accepted_packets size 0 a.sends s.1 in
      let alone = both Q size first [] t s.0 s.0 one (none_sent Q size s.0 one.same_size) in
      elim (Option-cases (wait_for_slice next' a.readings)) [
        | inl w ↦ rw (w, rate_loop) alone
        | inr (now, w) ↦
            let due = lt check now in
            let check' = if due then add now tenth else check in
            let r = rate_loop n (z + 1) (queries -ℤ k) next' check' end answers s.0 in
            let rest =
              rate_loop-HasSent size n (z + 1) (queries -ℤ k) next' check' end answers s.0
                one.same_size q in
            let later = accepted_slices size (z + 1) answers r.slices in
            elim (Bool-cases (due && a.should_stop)) [
              | inl st ↦ rw (w, rate_loop, st) alone
              | inr st ↦ elim (Bool-cases (due && le end a.micro)) [
                | inl m ↦ rw (w, rate_loop, st, m) alone
                | inr m ↦ rw (w, rate_loop, st, m) (both Q size first later t s.0 r.thread one rest)
              ]
            ]
      ]

  free_loop-HasSent :
      (size : ℕ) (check end : D) (rs : List (Round D)) (t : SenderThread D)
      → t.packetsize ≡ size
      → All (λ r. Q r.send) rs
      → let r = free_loop check end rs t in
        HasSent Q size (accepted_each size r.packets (ready_sends rs)) t r.thread
  unfolding free_loop accepted_each send_if_ready
  free_loop-HasSent size check end [] t e q = none_sent Q size t e
  free_loop-HasSent size check end (r ∷ rs) t e (q, qs) =
      let u = (send_packet r.send t).0 in
      let same = (send_packet-counts size r.send t e).0 in
      let check' = if lt check r.now then add r.now tenth else check in
      let later = accepted_each size (free_loop check' end rs u).packets (ready_sends rs) in
      let alone = one_more Q size [] r.send t u e q (none_sent Q size u same) in
      let more =
        one_more Q size later r.send t (free_loop check' end rs u).thread e q
          (free_loop-HasSent size check' end rs u same qs) in
      elim (Bool-cases (socket_ready r.writable)) [
        | inl ready ↦ elim (Bool-cases (lt check r.now && r.should_stop)) [
          | inl stop ↦ rw (ready, stop) alone
          | inr on ↦ elim (Bool-cases (lt end r.now)) [
            | inl over ↦ rw (ready, on, over) alone
            | inr under ↦ rw (ready, on, under) more
          ]
        ]
        | inr full ↦ elim (Bool-cases (lt check r.now && r.should_stop)) [
          | inl stop ↦ rw (full, stop) (none_sent Q size t e)
          | inr on ↦ elim (Bool-cases (lt end r.now)) [
            | inl over ↦ rw (full, on, over) (none_sent Q size t e)
            | inr under ↦ rw (full, on, under) (free_loop-HasSent size check' end rs t e qs)
          ]
        ]
      ]

  finish_run-HasSent :
      (a : RunAnswers D) (w u : SenderThread D) (packets handed : List (Packet D)) (size : ℕ)
      (t : SenderThread D) (ps : List (Packet D))
      → HasSent Q size ps t w
      → finish_run a w packets ≡ some (u, handed)
      → HasSent Q size ps t u
  unfolding finish_run
  finish_run-HasSent a w u packets handed size t ps has e = record {
    same_size = ground (arith, has.same_size, e);
    count = ground (arith, has.count, e);
    times = has.times;
  }

  pub run_sender-HasSent :
      (a : RunAnswers D) (t u : SenderThread D) (handed : List (Packet D))
      → ((z i : ℕ) → Q ((a.slices z).sends i))
      → All (λ r. Q r.send) a.rounds
      → run_sender a t ≡ ok (some (u, handed))
      → HasSent Q t.packetsize (accepted_in a t) (prepare_run a.random t) u
  unfolding run_sender prepare_run run_without_rate_limit accepted_in
  run_sender-HasSent a t u handed q qs e =
      let t' = prepare_run a.random t in
      elim (Bool-cases (ltb_ℤ (pos 0) t.queryrate)) [
        | inl limited ↦
            let (r, loop, ends) =
              limited_run a t u handed
                (run_with_rate_limit a.sock_errno a.nsec a.loop_start a.slices t')
                (rw limited at e) in
            let same = loop_of a.sock_errno a.nsec a.loop_start a.slices t' r loop in
            let has =
              rate_loop-HasSent t.packetsize (pos_part (total_zeitscheiben t')) 0
                (t'.runtime *ℤ t'.queryrate) a.nsec (add a.nsec tenth)
                (add a.loop_start (of_int t'.runtime)) a.slices t' refl q in
            rw (limited, loop)
              (finish_run-HasSent a r.thread u (concat r.slices) handed t.packetsize t'
                (accepted_slices t.packetsize 0 a.slices r.slices)
                (subst
                  (λ v.
                    HasSent Q t.packetsize (accepted_slices t.packetsize 0 a.slices v.slices) t'
                      v.thread)
                  same has)
                ends)
        | inr free ↦
            let r = run_without_rate_limit a.loop_start a.rounds t' in
            rw free (
              finish_run-HasSent a r.thread u r.packets handed t.packetsize t'
                (accepted_each t.packetsize r.packets (ready_sends a.rounds))
                (free_loop-HasSent t.packetsize (add a.loop_start tenth)
                  (add a.loop_start (of_int t'.runtime)) a.rounds t' refl qs)
                (ground (arith, e, free)))
      ]

module _ {D : Type 0} ⦃d : Double D⦄ where
  -- What a run of the worker has counted as sent, and the times of these packets.
  pub run_sender-accepted :
      (a : RunAnswers D) (t u : SenderThread D) (handed : List (Packet D))
      → run_sender a t ≡ ok (some (u, handed))
      → (u.packetsize ≡ t.packetsize)
        × (u.counter_send % word_mod ≡ length (accepted_in a t) % word_mod)
        × All (λ p. IsSentAt (IsCallOf a) t.packetsize p.time) (accepted_in a t)
  unfolding prepare_run
  run_sender-accepted a t u handed e =
      let has =
        run_sender-HasSent (IsCallOf a) a t u handed (λ z i. inl (z, i, refl))
          (All-Mem (λ r. IsCallOf a r.send) a.rounds (λ r m. inr (r, m, refl))) e in
      (has.same_size, omega (arith, has.count), has.times)
