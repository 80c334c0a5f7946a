-- ===== src/Receiver/Stopping.antt =====
-- When the receiver's loop ends, and what it has taken in by then.
use udppingpong.Base.{
  ℕ, ◌+◌, ◌≤◌, ◌<◌, ◌≡◌, refl, true, false, Option, none, some, List, [], ◌∷◌, ◌++◌, arith, leb,
  if◌then◌else◌, All, Bool-cases, inl, inr, map,
}
use udppingpong.Double.{Double}
use udppingpong.Receiver.{Receiver, Arrival, Pass, reset_counter, handle, loop, run}

module _ {D : Type 0} where
  -- The packets that arrive in a list of passes.
  abbrev pub arrived : List (Option (Arrival D)) → List (Arrival D)
  arrived [] = []
  arrived (some a ∷ os) = a ∷ arrived os
  arrived (none ∷ os) = arrived os

module _ {D : Type 0} ⦃d : Double D⦄ where
  loop_ends :
      (r : Receiver D) (next : ℕ) (ps : List (Pass D)) (p : Pass D) (qs : List (Pass D))
      → All (λ q. q.clock < p.clock) ps
      → next ≤ p.clock
      → p.should_stop ≡ true
      → (loop r next (ps ++ p ∷ qs)).stopped ≡ true
  unfolding loop
  loop_ends r next [] p qs h due s = ground arith
  loop_ends r next (q ∷ ps) p qs h due s = ground (
    arith,
    loop_ends (handle r q.received).0 (if leb next q.clock then next + 1 else next) ps p qs h.1,
  )

  -- If the stop flag is set in a pass whose clock is past the start and past every earlier pass, the
  -- receiver has ended by then.
  pub run_ends :
      (r : Receiver D) (start : ℕ) (ps : List (Pass D)) (p : Pass D) (qs : List (Pass D))
      → All (λ q. q.clock < p.clock) ps
      → start < p.clock
      → p.should_stop ≡ true
      → (run r start (ps ++ p ∷ qs)).stopped ≡ true
  unfolding run
  run_ends r start ps p qs h late s =
      loop_ends (reset_counter r) (start + 1) ps p qs h (omega arith) s

  handle-arrived :
      (r : Receiver D) (o : Option (Arrival D)) (os : List (Option (Arrival D)))
      → arrived (o ∷ os) ≡ (handle r o).1 ++ arrived os
  unfolding handle
  handle-arrived r none os = refl
  handle-arrived r (some a) os = refl

  loop_takes_every :
      (r : Receiver D) (next : ℕ) (ps : List (Pass D))
      → All (λ p. p.should_stop ≡ false) ps
      → ((loop r next ps).stopped ≡ false)
        × ((loop r next ps).arrivals ≡ arrived (map (λ p. p.received) ps))
  unfolding loop
  loop_takes_every r next [] h = (refl, refl)
  loop_takes_every r next (p ∷ ps) (h, hs) =
      let s = (handle r p.received).0 in
      let (on, all) = loop_takes_every s (if leb next p.clock then next + 1 else next) ps hs in
      let join = handle-arrived r p.received (map (λ q. q.received) ps) in
      elim (Bool-cases (leb next p.clock)) [
        | inl e ↦ ground (arith, on, all, join)
        | inr e ↦ ground (arith, on, all, join)
      ]

  -- While the stop flag is not set the receiver goes on, and takes in every packet that arrives.
  run_takes_every :
      (r : Receiver D) (start : ℕ) (ps : List (Pass D))
      → All (λ p. p.should_stop ≡ false) ps
      → ((run r start ps).stopped ≡ false)
        × ((run r start ps).arrivals ≡ arrived (map (λ p. p.received) ps))
  unfolding run
  run_takes_every r start ps h = loop_takes_every (reset_counter r) (start + 1) ps h
