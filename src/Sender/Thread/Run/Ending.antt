-- ===== src/Sender/Thread/Run/Ending.antt =====
-- When the loop without rate limit and the wait for late answers end, and what is sent by then.
use udppingpong.Sender.Thread.Rate.{tenth}
use udppingpong.Double.{Double}
use udppingpong.Base.{
  ℕ, ◌+◌, ◌≡◌, List, [], ◌∷◌, arith, if◌then◌else◌, length, true, All, ◌++◌, false, ◌≤◌, some,
  Bool-cases, length-append, ◌&&◌, inl, inr, refl,
}
use udppingpong.Sender.Thread.{SenderThread}
use udppingpong.Sender.Thread.Run.{
  Round, socket_ready, send_if_ready, free_loop, run_without_rate_limit, wait_loop,
  wait_for_timeout, Reading,
}

module _ {D : Type 0} where
  -- The rounds in which the socket is ready.
  abbrev pub ready_rounds : List (Round D) → ℕ
  ready_rounds [] = 0
  ready_rounds (r ∷ rs) = (if socket_ready r.writable then 1 else 0) + ready_rounds rs

  length-send_if_ready :
      (r : Round D) (t : SenderThread D)
      → length (send_if_ready r t).1 ≡ (if socket_ready r.writable then 1 else 0)
  unfolding send_if_ready
  length-send_if_ready r t = ground arith

module _ {D : Type 0} ⦃d : Double D⦄ where
  open d use {of_int, add, lt}

  free_loop-ended :
      (check end : D) (rs : List (Round D)) (r : Round D) (others : List (Round D))
      (t : SenderThread D)
      → lt end r.now ≡ true
      → let run = free_loop check end (rs ++ r ∷ others) t in
        (run.ended ≡ true) × (length run.packets ≤ ready_rounds (rs ++ r ∷ []))
  unfolding free_loop
  free_loop-ended check end [] r others t h =
      let l = length-send_if_ready r t in
      elim (Bool-cases (lt check r.now && r.should_stop)) [
        | inl e ↦ ground (arith, l)
        | inr e ↦ ground (arith, l)
      ]
  free_loop-ended check end (q ∷ rs) r others t h =
      let l = length-send_if_ready q t in
      let u = (send_if_ready q t).0 in
      let check' = if lt check q.now then add q.now tenth else check in
      let (ends, few) = free_loop-ended check' end rs r others u h in
      let ps = (send_if_ready q t).1 in
      let joined = length-append ps (free_loop check' end (rs ++ r ∷ others) u).packets in
      elim (Bool-cases (lt check q.now && q.should_stop)) [
        | inl e ↦ ground (arith, l)
        | inr e ↦ elim (Bool-cases (lt end q.now)) [
          | inl e' ↦ ground (arith, l)
          | inr e' ↦ rw (e, e') (ends, omega (arith, l, few, joined))
        ]
      ]

  -- The loop without rate limit ends by the first round whose clock is past the running time, and
  -- has then sent at most one packet for each round that found the socket ready.
  run_without_rate_limit_ends :
      (start : D) (rs : List (Round D)) (r : Round D) (others : List (Round D)) (t : SenderThread D)
      → lt (add start (of_int t.runtime)) r.now ≡ true
      → let run = run_without_rate_limit start (rs ++ r ∷ others) t in
        (run.ended ≡ true) × (length run.packets ≤ ready_rounds (rs ++ r ∷ []))
  unfolding run_without_rate_limit
  run_without_rate_limit_ends start rs r others t h =
      free_loop-ended (add start tenth) (add start (of_int t.runtime)) rs r others t h

  free_loop-goes_on :
      (check end : D) (rs : List (Round D)) (t : SenderThread D)
      → All (λ r. (lt end r.now ≡ false) × (r.should_stop ≡ false)) rs
      → let run = free_loop check end rs t in
        (run.ended ≡ false) × (length run.packets ≡ ready_rounds rs)
  unfolding free_loop
  free_loop-goes_on check end [] t h = (refl, refl)
  free_loop-goes_on check end (r ∷ rs) t ((h, s), hs) =
      let l = length-send_if_ready r t in
      let u = (send_if_ready r t).0 in
      let check' = if lt check r.now then add r.now tenth else check in
      let (on, all) = free_loop-goes_on check' end rs u hs in
      let joined = length-append (send_if_ready r t).1 (free_loop check' end rs u).packets in
      elim (Bool-cases (lt check r.now)) [
        | inl e ↦ rw (e, h, s) (rw e at on, omega (arith, l, rw e at all, rw e at joined))
        | inr e ↦ rw (e, h) (rw e at on, omega (arith, l, rw e at all, rw e at joined))
      ]

  -- As long as the running time is not over and the stop flag is not set, the loop without rate
  -- limit goes on, and sends a packet in each round that finds the socket ready.
  run_without_rate_limit_goes_on :
      (start : D) (rs : List (Round D)) (t : SenderThread D)
      → All (λ r. (lt (add start (of_int t.runtime)) r.now ≡ false) × (r.should_stop ≡ false)) rs
      → let run = run_without_rate_limit start rs t in
        (run.ended ≡ false) × (length run.packets ≡ ready_rounds rs)
  unfolding run_without_rate_limit
  run_without_rate_limit_goes_on start rs t h =
      free_loop-goes_on (add start tenth) (add start (of_int t.runtime)) rs t h

  wait_loop_lem :
      (check end : D) (rs : List (Reading D)) (r : Reading D) (others : List (Reading D))
      → All (λ q. (lt q.now end ≡ true) × (q.should_stop ≡ false)) rs
      → lt r.now end ≡ false
      → wait_loop check end (rs ++ r ∷ others) ≡ some (length rs)
  unfolding wait_loop
  wait_loop_lem check end [] r others hs h = ground arith
  wait_loop_lem check end (q ∷ rs) r others ((b, s), hs) h = ground (
    arith,
    wait_loop_lem (if lt check q.now then add q.now tenth else check) end rs r others hs h,
  )

  -- Unless it is stopped, `waitForTimeout` sleeps once for each reading before the end of the
  -- timeout, and returns at the first that is not before it.
  wait_for_timeout_lem :
      (start : D) (rs : List (Reading D)) (r : Reading D) (others : List (Reading D))
      (t : SenderThread D)
      → All (λ q. (lt q.now (add start (of_int t.timeout)) ≡ true) × (q.should_stop ≡ false)) rs
      → lt r.now (add start (of_int t.timeout)) ≡ false
      → wait_for_timeout start (rs ++ r ∷ others) t ≡ some (length rs)
  unfolding wait_for_timeout
  wait_for_timeout_lem start rs r others t hs h =
      wait_loop_lem (add start tenth) (add start (of_int t.timeout)) rs r others hs h
