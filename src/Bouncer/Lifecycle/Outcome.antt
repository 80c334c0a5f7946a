-- ===== src/Bouncer/Lifecycle/Outcome.antt =====
-- What `start` leaves behind when it is done, and when it throws.
use udppingpong.Base.{
  ℕ, ◌≡◌, arith, true, ◌∷◌, length, [], ◌+◌, suc, All, length-append, All-append, zero, refl, false,
  if◌then◌else◌, ◌==◌,
}
use udppingpong.Exception.{throw, done}
use udppingpong.Socket.{Answers}
use udppingpong.Bouncer.{
  Bouncer, start_threads_from, start, Exception, start_bouncer_threads, create_socket, stop,
}
use udppingpong.Bouncer.Thread.Replies.{IsPacketSize}
use udppingpong.Bouncer.Lifecycle.{
  IsConfigured, made, made-IsConfigured, with_thread, start_threads-IsRound, stopped_with,
  start-IsStartDone,
}

module _ {D A : Type 0} where
  -- What the loop leaves behind if no round throws.
  record IsStarted (b c : Bouncer D A) (n : ℕ) : Type 0 where
    count : length c.threadpool ≡ length b.threadpool + n
    configured : All (IsConfigured b) c.threadpool
    started : c.threads_started ≡ true

  start_threads-IsStarted :
      (n i : ℕ) (os : ℕ → Answers) (time : D) (b : Bouncer D A)
      → IsPacketSize b.packet_size
      → All (IsConfigured b) b.threadpool
      → (start_threads_from n i os time b).outcome ≡ done
      → IsStarted b (start_threads_from n i os time b).bouncer n
  start_threads-IsStarted zero i os time b v c h =
      unfold start_threads_from in record { count = omega arith; configured = c; started = refl }
  start_threads-IsStarted (suc n) i os time b v c h =
      let t = made (os i) time b in
      let round = start_threads-IsRound n i os time b h in
      let fits = made-IsConfigured (os i) time b v round.bound in
      let next =
        start_threads-IsStarted n (i + 1) os time (with_thread t b) v
          (All-append (IsConfigured b) b.threadpool (t ∷ []) c (fits, tt)) round.rest in
      rw round.bouncer (record {
        count = omega (arith, next.count, length-append b.threadpool (t ∷ []));
        configured = next.configured;
        started = next.started;
      })

  -- If `start` does not throw, the bouncer runs with as many workers as asked for (one for 0), all
  -- started, each on a socket of its own and configured as the bouncer is.
  start_done :
      (n : ℕ) (main_os : Answers) (os : ℕ → Answers) (time : D) (b : Bouncer D A)
      → IsPacketSize b.packet_size
      → (start n main_os os time b).outcome ≡ done
      → let c = (start n main_os os time b).bouncer in
        (c.running ≡ true)
        × (c.threads_started ≡ true)
        × (length c.threadpool ≡ (if n == 0 then 1 else n))
        × All (IsConfigured b) c.threadpool
  start_done n main_os os time b v h =
      let d = start-IsStartDone n main_os os time b h in
      let s =
        start_threads-IsStarted (if n == 0 then 1 else n) 0 os time (stopped_with main_os b) v tt
          d.looped in
      rw d.bouncer (refl, s.started, omega (arith, s.count), s.configured)

  start_threads-running :
      (n i : ℕ) (os : ℕ → Answers) (time : D) (b : Bouncer D A) (e : Exception)
      → (start_threads_from n i os time b).outcome ≡ throw e
      → let c = (start_threads_from n i os time b).bouncer in
        (c.running ≡ b.running) × (c.threads_started ≡ b.threads_started)
  unfolding start_threads_from
  start_threads-running zero i os time b e h = cc
  start_threads-running (suc n) i os time b e h =
      ground (arith, start_threads-running n (i + 1) os time (with_thread (made (os i) time b) b) e)

  -- If `start` throws, the bouncer does not run and no worker was started.
  start_throws :
      (n : ℕ) (main_os : Answers) (os : ℕ → Answers) (time : D) (b : Bouncer D A) (e : Exception)
      → (start n main_os os time b).outcome ≡ throw e
      → let c = (start n main_os os time b).bouncer in
        (c.running ≡ false) × (c.threads_started ≡ false)
  unfolding start start_bouncer_threads create_socket stop
  start_throws n main_os os time b e h =
      ground (
        arith,
        start_threads-running (if n == 0 then 1 else n) 0 os time (stopped_with main_os b) e,
      )
