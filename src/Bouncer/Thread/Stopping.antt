-- ===== src/Bouncer/Thread/Stopping.antt =====
-- When a worker's loop ends, and what it has worked off by then.
use udppingpong.Base.{
  ◌≡◌, All, ◌∷◌, ◌<◌, [], map, false, ◌≤◌, true, arith, if◌then◌else◌, ◌+◌, ◌++◌, leb, Bool-cases,
  inl, inr, refl, ℕ, List,
}
use udppingpong.Bouncer.Thread.{Thread, Pass, handle, reply, loop, run}
use udppingpong.Bouncer.Thread.Trace.{answers, answers-append}

module _ {D A : Type 0} where
  loop_stops :
      (t : Thread D) (next : ℕ) (ps : List (Pass A)) (p : Pass A) (qs : List (Pass A))
      → All (λ q. q.clock < p.clock) ps
      → next ≤ p.clock
      → p.should_stop ≡ true
      → (loop t next (ps ++ p ∷ qs)).stopped ≡ true
  unfolding loop
  loop_stops t next [] p qs h due s = ground arith
  loop_stops t next (q ∷ ps) p qs h due s =
      ground
        (arith, loop_stops (handle t q).0 (if leb next q.clock then next + 1 else next) ps p qs h.1)

  -- The stop flag is seen at the latest in the first pass of a new second: if in some pass the flag
  -- is set and the clock is past the start and past every earlier pass, `run` has ended by then.
  pub run_stops :
      (t : Thread D) (start : ℕ) (ps : List (Pass A)) (p : Pass A) (qs : List (Pass A))
      → All (λ q. q.clock < p.clock) ps
      → start < p.clock
      → p.should_stop ≡ true
      → (run t start (ps ++ p ∷ qs)).stopped ≡ true
  unfolding run
  run_stops t start ps p qs h late s = loop_stops t (start + 1) ps p qs h (omega arith) s

  handle-answers : (t : Thread D) (p : Pass A) → answers (handle t p).1 ≡ p.received ∷ []
  unfolding handle reply
  handle-answers t p = ground arith

  loop_goes_on :
      (t : Thread D) (next : ℕ) (ps : List (Pass A))
      → All (λ p. p.should_stop ≡ false) ps
      → ((loop t next ps).stopped ≡ false)
        × (answers (loop t next ps).calls ≡ map (λ p. p.received) ps)
  unfolding loop
  loop_goes_on t next [] h = (refl, refl)
  loop_goes_on t next (p ∷ ps) (h, hs) =
      let u = (handle t p).0 in
      let next' = if leb next p.clock then next + 1 else next in
      let (on, all) = loop_goes_on u next' ps hs in
      let join = answers-append (handle t p).1 (loop u next' ps).calls in
      elim (Bool-cases (leb next p.clock)) [
        | inl e ↦ ground (arith, on, all, join, handle-answers t p)
        | inr e ↦ ground (arith, on, all, join, handle-answers t p)
      ]

  -- While the stop flag is not set the loop goes on, and works off the packet or the timeout of
  -- every pass, in order.
  run_goes_on :
      (t : Thread D) (start : ℕ) (ps : List (Pass A))
      → All (λ p. p.should_stop ≡ false) ps
      → let r = run t start ps in (r.stopped ≡ false) × (answers r.calls ≡ map (λ p. p.received) ps)
  unfolding run
  run_goes_on t start ps h = loop_goes_on t (start + 1) ps h
