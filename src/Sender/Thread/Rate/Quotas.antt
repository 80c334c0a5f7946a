-- ===== src/Sender/Thread/Rate/Quotas.antt =====
-- How the packets are spread over the slices of time.
use udppingpong.Base.{
  ℕ, zero, suc, ◌+◌, ◌-◌, ◌/◌, ◌≤◌, ◌≡◌, refl, ap, ◌&&◌, inl, inr, List, [], ◌∷◌, ◌++◌, map, arith,
  length, Bool-cases, Option-cases, if◌then◌else◌, ◌≢◌, ◌*◌, Option, sum, All, sum-append,
  All-prefix, sym, append-nil, ◌∙◌,
}
use mathlib.Core.Path.{ap₂, subst}
use native.Mathlib.Nat.{div-le_self}
use udppingpong.Base.Int.{pos, ◌-ℤ◌, tdiv, ◌*ℤ◌, pos_part}
use udppingpong.Double.{Double}
use udppingpong.Shares.{shares, IsNear, sum-shares, shares_even, length-shares}
use udppingpong.Sender.Thread.{Packet, SenderThread, SendAnswers, send_packets, send_packet, ok}
use udppingpong.Sender.Thread.Rate.{
  SliceAnswers, End, completed, stopped, timed_out, waiting, RateRun, wait_for_slice, quota,
  rate_loop, tenth, run_with_rate_limit, total_zeitscheiben,
}

pub length-send_packets :
    {D : Type 0} (n i : ℕ) (answers : ℕ → SendAnswers D) (t : SenderThread D)
    → length (send_packets n i answers t).1 ≡ n
unfolding send_packets
length-send_packets zero i answers t = refl
length-send_packets (suc n) i answers t =
    ap suc (length-send_packets n (i + 1) answers (send_packet (answers i) t).0)

quota_pos : (n r : ℕ) → quota n (pos r) ≡ pos (r / suc n)
unfolding quota tdiv
quota_pos zero r = ap pos (omega arith)
quota_pos (suc n) r = ground arith

rest_pos : (n r : ℕ) → pos r -ℤ quota n (pos r) ≡ pos (r - r / suc n)
rest_pos n r = rw quota_pos (sub_pos (r / suc n) (div-le_self r (suc n)))
  where
    sub_pos : (k : ℕ) → k ≤ r → pos r -ℤ pos k ≡ pos (r - k)
    sub_pos k h = unfold ◌-ℤ◌ in ground arith

pos-mul : (a b : ℕ) → pos a *ℤ pos b ≡ pos (a * b)
unfolding ◌*ℤ◌
pos-mul a b = ground arith

sum-shares_le : (n r : ℕ) → sum (shares n r) ≤ r
unfolding shares
sum-shares_le zero r = omega arith
sum-shares_le (suc n) r = omega (arith, sum-shares n r)

module _ {D : Type 0} ⦃d : Double D⦄ where
  open d use {add, lt, le}

  -- The numbers of packets in the slices of a run are the first of the shares, and all of them if
  -- the run completes.
  pub record IsShared (run : RateRun D) (all : List ℕ) : Type 0 where
    pub unsent : List ℕ
    pub shared : map length run.slices ++ unsent ≡ all
    pub completes : run.end ≡ completed → unsent ≡ []

  cut_short :
      (t : SenderThread D) (ps : List (Packet D)) (e : End) (q : ℕ) (others : List ℕ)
      → length ps ≡ q
      → e ≢ completed
      → IsShared (record { thread = t; slices = ps ∷ []; end = e }) (q ∷ others)
  cut_short t ps e q others l ne = record {
    unsent = others;
    shared = ap (λ k. k ∷ others) l;
    completes = λ same. absurd (ne same);
  }

  goes_on :
      (run : RateRun D) (ps : List (Packet D)) (q : ℕ) (others : List ℕ)
      → length ps ≡ q
      → IsShared run others
      → IsShared (record run { slices = ps ∷ run.slices }) (q ∷ others)
  goes_on run ps q others l s = record {
    unsent = s.unsent;
    shared = ap₂ ◌∷◌ l s.shared;
    completes = s.completes;
  }

  rate_loop-IsShared :
      (n z r : ℕ) (next check end : D) (answers : ℕ → SliceAnswers D) (t : SenderThread D)
      → IsShared (rate_loop n z (pos r) next check end answers t) (shares n r)
  unfolding rate_loop shares
  rate_loop-IsShared zero z r next check end answers t = record {
    unsent = [];
    shared = refl;
    completes = λ e. refl;
  }
  rate_loop-IsShared (suc n) z r next check end answers t =
      let q = r / suc n in
      let sent = send_packets q 0 (answers z).sends t in
      let l = length-send_packets q 0 (answers z).sends t in
      let others = shares n (r - q) in
      elim (Option-cases (wait_for_slice (add next t.zeitscheibe) (answers z).readings)) [
        | inl e ↦
            rw (e, rate_loop, quota_pos) (cut_short sent.0 sent.1 waiting q others l (λ s. cc))
        | inr (now, e) ↦
            let due = lt check now in
            elim (Bool-cases (due && (answers z).should_stop)) [
              | inl s ↦
                  rw (e, rate_loop, quota_pos, s)
                    (cut_short sent.0 sent.1 stopped q others l (λ s. cc))
              | inr s ↦ elim (Bool-cases (due && le end (answers z).micro)) [
                | inl m ↦
                    rw (e, rate_loop, quota_pos, s, m)
                      (cut_short sent.0 sent.1 timed_out q others l (λ s. cc))
                | inr m ↦
                    rw (e, rate_loop, rest_pos, quota_pos, s, m)
                      (goes_on _ sent.1 q others l (
                        rate_loop-IsShared n (z + 1) (r - q) (add next t.zeitscheibe)
                          (if due then add now tenth else check) end answers sent.0))
              ]
            ]
      ]

  pub loop_of :
      (errno : Option ℕ) (now start : D) (answers : ℕ → SliceAnswers D) (t : SenderThread D)
      (run : RateRun D)
      → run_with_rate_limit errno now start answers t ≡ ok run
      → rate_loop
          (pos_part (total_zeitscheiben t))
          0
          (t.runtime *ℤ t.queryrate)
          now
          (add now tenth)
          (add start (d.of_int t.runtime))
          answers
          t
        ≡ run
  unfolding run_with_rate_limit
  loop_of errno now start answers t run e = ground arith

  run_with_rate_limit-IsShared :
      (errno : Option ℕ) (now start : D) (answers : ℕ → SliceAnswers D) (t : SenderThread D)
      (run : RateRun D) (s q n : ℕ)
      → t.runtime ≡ pos s
      → t.queryrate ≡ pos q
      → total_zeitscheiben t ≡ pos n
      → run_with_rate_limit errno now start answers t ≡ ok run
      → IsShared run (shares n (s * q))
  run_with_rate_limit-IsShared errno now start answers t run s q n hs hq hn e =
      let product : t.runtime *ℤ t.queryrate ≡ pos (s * q) = rw (hs, hq) (pos-mul s q) in
      let slices : pos_part (total_zeitscheiben t) ≡ n = ap pos_part hn in
      subst (λ r. IsShared r (shares n (s * q))) (loop_of errno now start answers t run e)
        (rw (product, slices)
          (rate_loop-IsShared n 0 (s * q) now (add now tenth) (add start (d.of_int t.runtime))
            answers t))

  -- With a running time of s seconds, a rate of q and n slices: no run sends more than s * q
  -- packets, and each slice it gets to has (s * q) / n of them or one more.
  pub run_with_rate_limit_quotas :
      (errno : Option ℕ) (now start : D) (answers : ℕ → SliceAnswers D) (t : SenderThread D)
      (run : RateRun D) (s q n : ℕ)
      → t.runtime ≡ pos s
      → t.queryrate ≡ pos q
      → total_zeitscheiben t ≡ pos n
      → run_with_rate_limit errno now start answers t ≡ ok run
      → let counts = map length run.slices in (sum counts ≤ s * q) × All (IsNear (s * q / n)) counts
  run_with_rate_limit_quotas errno now start answers t run s q n hs hq hn e =
      let i = run_with_rate_limit-IsShared errno now start answers t run s q n hs hq hn e in
      let counts = map length run.slices in
      let total = sum-shares_le n (s * q) in
      let parts = sum-append counts i.unsent in
      let same = ap sum i.shared in
      (
        omega (arith, total, parts, same),
        All-prefix (IsNear (s * q / n)) counts i.unsent
            (subst (All (IsNear (s * q / n))) (sym i.shared) (shares_even n (s * q))),
      )

  -- With a running time of s seconds, a rate of q and at least one slice: a run that the clock and
  -- the stop flag let complete has gone through all slices, and has sent exactly s * q packets.
  pub run_with_rate_limit_completed :
      (errno : Option ℕ) (now start : D) (answers : ℕ → SliceAnswers D) (t : SenderThread D)
      (run : RateRun D) (s q n : ℕ)
      → t.runtime ≡ pos s
      → t.queryrate ≡ pos q
      → total_zeitscheiben t ≡ pos (suc n)
      → run_with_rate_limit errno now start answers t ≡ ok run
      → run.end ≡ completed
      → let counts = map length run.slices in (length counts ≡ suc n) × (sum counts ≡ s * q)
  run_with_rate_limit_completed errno now start answers t run s q n hs hq hn e c =
      let i = run_with_rate_limit-IsShared errno now start answers t run s q (suc n) hs hq hn e in
      let counts = map length run.slices in
      let all : counts ≡ shares (suc n) (s * q) =
        sym (append-nil counts) ∙ ap (◌++◌ counts) (sym (i.completes c)) ∙ i.shared in
      (rw all (length-shares (suc n) (s * q)), rw all (sum-shares n (s * q)))
