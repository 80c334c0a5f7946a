-- ===== src/Sender/Thread/Run/Passes.antt =====
-- When the loops of a worker end: what the clock readings must come to.
use mathlib.Core.Path.{subst}
use udppingpong.Receiver.{Pass}
use udppingpong.Base.{
  ◌++◌, All, ◌<◌, ℕ, zero, suc, ◌+◌, ◌≡◌, refl, ◌&&◌, true, false, some, List, [], ◌∷◌, arith, Any,
  inl, inr, Bool-cases, if◌then◌else◌, sym, ap,
}
use udppingpong.Base.Int.{ℤ, pos, pos_part, ◌-ℤ◌, ◌*ℤ◌}
use udppingpong.Double.{Double}
use udppingpong.Sender.Thread.{SenderThread, send_packets}
use udppingpong.Sender.Thread.Rate.{
  SliceAnswers, tenth, quota, wait_for_slice, rate_loop, is_waiting,
}
use udppingpong.Sender.Thread.Run.{Round, Reading, RunAnswers, send_if_ready, free_loop, wait_loop}
use udppingpong.Sender.Thread.Run.Kept.{send_packets-kept}
use udppingpong.Sender.Thread.Run.Settings.{settings_of, HasSettings, send_packet-HasSettings}

module _ {D : Type 0} ⦃d : Double D⦄ where
  open d use {of_int, add, mul, div, lt, le, trunc}

  -- In each of n slices, from number z on, the clock reaches the next slice.
  abbrev pub SlicesPass : D → ℕ → ℕ → D → (ℕ → SliceAnswers D) → Type 0
  SlicesPass slice zero z next answers = Unit
  SlicesPass slice (suc n) z next answers =
      Any (λ now. lt now (add next slice) ≡ false) (answers z).readings
      × SlicesPass slice n (z + 1) (add next slice) answers

  -- The number of slices.
  abbrev pub slices_of : ℤ → D → ℤ
  slices_of runtime slice =
      trunc (div (of_int (runtime *ℤ pos 1000)) (mul slice (of_int (pos 1000))))

  -- In some pass the clock of the receiver is past its start and past every earlier pass, and the stop
  -- flag is set.
  abbrev pub ReceiverStops : RunAnswers D → Type 0
  ReceiverStops a =
      (ps : List (Pass D)) × ((p : Pass D) × ((qs : List (Pass D)) × (a.receiver_passes
            ≡ ps ++ p ∷ qs)
          × All (λ q. q.clock < p.clock) ps
          × (a.receiver_start < p.clock)
          × (p.should_stop ≡ true)))

  -- The clock readings during a run are enough, with this running time, timeout and slice: in each
  -- slice, past the running time, and past the timeout; and the receiver is stopped.
  pub record Passes (runtime timeout : ℤ) (slice : D) (a : RunAnswers D) : Type 0 where
    pub slices : SlicesPass slice (pos_part (slices_of runtime slice)) 0 a.nsec a.slices
    pub rounds : Any (λ r. lt (add a.loop_start (of_int runtime)) r.now ≡ true) a.rounds
    pub waits : Any (λ r. lt r.now (add a.wait_start (of_int timeout)) ≡ false) a.waits
    pub receiver : ReceiverStops a

  pub wait_for_slice-Any :
      (next : D) (readings : List D)
      → Any (λ now. lt now next ≡ false) readings
      → (now : D) × (wait_for_slice next readings ≡ some now)
  unfolding wait_for_slice
  wait_for_slice-Any next [] h = absurd h
  wait_for_slice-Any next (now ∷ readings) h = elim (Bool-cases (lt now next)) [
    | inr past ↦ (now, rw past refl)
    | inl before ↦ elim h [
      | inl past ↦ ground (arith, before, past)
      | inr later ↦ let (x, found) = wait_for_slice-Any next readings later in (x, rw before found)
    ]
  ]

  pub rate_loop-SlicesPass :
      (n z : ℕ) (queries : ℤ) (next check end : D) (answers : ℕ → SliceAnswers D)
      (t : SenderThread D)
      → SlicesPass t.zeitscheibe n z next answers
      → is_waiting (rate_loop n z queries next check end answers t).end ≡ false
  unfolding rate_loop
  rate_loop-SlicesPass zero z queries next check end answers t h = refl
  rate_loop-SlicesPass (suc n) z queries next check end answers t (here, later) =
      let a = answers z in
      let q = quota n queries in
      let next' = add next t.zeitscheibe in
      let sent = send_packets (pos_part q) 0 a.sends t in
      let kept =
        send_packets-kept (HasSettings (settings_of t)) (send_packet-HasSettings (settings_of t))
          (pos_part q) 0 a.sends t refl in
      let (now, found) = wait_for_slice-Any next' a.readings here in
      let due = lt check now in
      let rest =
        rate_loop-SlicesPass n (z + 1) (queries -ℤ q) next' (if due then add now tenth else check)
          end answers sent.0
          (subst (λ slice. SlicesPass slice n (z + 1) next' answers) (sym (ap (λ s. s.1.0) kept))
            later) in
      elim (Bool-cases (due && a.should_stop)) [
        | inl stop ↦ rw (found, rate_loop, stop) refl
        | inr on ↦ elim (Bool-cases (due && le end a.micro)) [
          | inl over ↦ rw (found, rate_loop, on, over) refl
          | inr more ↦ rw (found, rate_loop, on, more) rest
        ]
      ]

  pub free_loop-Any :
      (check end : D) (rs : List (Round D)) (t : SenderThread D)
      → Any (λ r. lt end r.now ≡ true) rs
      → (free_loop check end rs t).ended ≡ true
  unfolding free_loop
  free_loop-Any check end [] t h = absurd h
  free_loop-Any check end (r ∷ rs) t h =
      let sent = send_if_ready r t in
      let check' = if lt check r.now then add r.now tenth else check in
      elim (Bool-cases (lt check r.now && r.should_stop)) [
        | inl stop ↦ rw stop refl
        | inr on ↦ elim (Bool-cases (lt end r.now)) [
          | inl over ↦ rw (on, over) refl
          | inr more ↦ elim h [
            | inl over ↦ ground (arith, more, over)
            | inr later ↦ rw (on, more) (free_loop-Any check' end rs sent.0 later)
          ]
        ]
      ]

  pub wait_loop-Any :
      (check end : D) (rs : List (Reading D))
      → Any (λ r. lt r.now end ≡ false) rs
      → (sleeps : ℕ) × (wait_loop check end rs ≡ some sleeps)
  unfolding wait_loop
  wait_loop-Any check end [] h = absurd h
  wait_loop-Any check end (r ∷ rs) h =
      let due = lt check r.now in
      elim (Bool-cases (lt r.now end)) [
        | inr past ↦ (0, rw past refl)
        | inl before ↦ elim (Bool-cases (due && r.should_stop)) [
          | inl stop ↦ (0, rw (before, stop) refl)
          | inr on ↦ elim h [
            | inl past ↦ ground (arith, before, past)
            | inr later ↦
                let (k, ends) =
                  wait_loop-Any (if due then add r.now tenth else check) end rs later in
                (suc k, rw (before, on, ends) refl)
          ]
        ]
      ]
