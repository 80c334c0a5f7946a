-- ===== src/Bouncer/Descriptors/Leak.antt =====
-- The socket that the bouncer loses when a worker cannot be bound.
use udppingpong.Base.{ℕ, zero, suc, ◌+◌, ◌≡◌, some, true, List, ◌++◌, arith}
use udppingpong.Exception.{throw, could_not_bind_to_interface}
use udppingpong.Base.Int.{ℤ}
use udppingpong.Socket.{Call, Answers, is_set}
use udppingpong.Socket.Descriptors.{held, opened, closed, opened-append, closed-append}
use udppingpong.Bouncer.{
  Bouncer, create_socket, start_threads_from, start_bouncer_threads, stop, start, destroy_bouncer,
}
use udppingpong.Bouncer.Lifecycle.{stopped_with}
use udppingpong.Bouncer.Thread.{create as create_thread, set_no_echo}
use udppingpong.Bouncer.Thread.Setup.{bind}
use udppingpong.Bouncer.Descriptors.{Balances, holds_all, reopen-Balances, destroy_bouncer-Balances}

module _ {D A : Type 0} where
  abbrev first : (ℕ → Answers) → D → Bouncer D A → List (Call A)
  first os time b = (bind b.sockaddr (os 0) (set_no_echo b.no_echo (create_thread time))).calls

  -- `start`, if the first worker cannot be bound.
  record IsFirstFailed (n errno : ℕ) (main_os : Answers) (os : ℕ → Answers) (time : D)
      (b : Bouncer D A) : Type 0 where
    outcome : (start n main_os os time b).outcome ≡ throw (could_not_bind_to_interface errno)
    bouncer : (start n main_os os time b).bouncer ≡ stopped_with main_os b
    calls :
        (start n main_os os time b).calls
        ≡ (stop b).calls ++ (create_socket main_os (stop b).bouncer).calls ++ first os time b
    lost : (fd : ℤ) → Balances fd 0 (first os time b) (held fd (os 0).socket)

  start-IsFirstFailed :
      (n errno : ℕ) (main_os : Answers) (os : ℕ → Answers) (time : D) (b : Bouncer D A)
      → is_set main_os.socket ≡ true
      → is_set (os 0).socket ≡ true
      → (os 0).bind ≡ some errno
      → IsFirstFailed n errno main_os os time b
  unfolding start start_bouncer_threads start_threads_from create_socket stop bind set_no_echo
      create_thread
  start-IsFirstFailed zero errno main_os os time b h k f = record {
    outcome = ground arith;
    bouncer = ground arith;
    calls = ground arith;
    lost = λ fd. ground arith;
  }
  start-IsFirstFailed (suc n) errno main_os os time b h k f = record {
    outcome = ground arith;
    bouncer = ground arith;
    calls = ground arith;
    lost = λ fd. ground arith;
  }

  -- If the address cannot be bound for the first worker, the socket of that worker is lost: it is
  -- the one descriptor that the destructor does not close.
  pub start_leak :
      (n errno : ℕ) (main_os : Answers) (os : ℕ → Answers) (time : D) (fd : ℤ) (b : Bouncer D A)
      → is_set main_os.socket ≡ true
      → is_set (os 0).socket ≡ true
      → (os 0).bind ≡ some errno
      → let s = start n main_os os time b in
        let calls = s.calls ++ destroy_bouncer s.bouncer in
        (s.outcome ≡ throw (could_not_bind_to_interface errno))
        × (holds_all fd b + opened fd calls ≡ closed fd calls + held fd (os 0).socket)
  start_leak n errno main_os os time fd b h k f =
      let s = start n main_os os time b in
      let d = start-IsFirstFailed n errno main_os os time b h k f in
      let before = (stop b).calls ++ (create_socket main_os (stop b).bouncer).calls in
      let last = destroy_bouncer (stopped_with main_os b) in
      (
        d.outcome,
        rw (d.bouncer, d.calls)
            (omega (
              arith,
              d.lost fd,
              reopen-Balances main_os fd b h,
              destroy_bouncer-Balances fd (stopped_with main_os b),
              opened-append fd before (first os time b),
              closed-append fd before (first os time b),
              opened-append fd (before ++ first os time b) last,
              closed-append fd (before ++ first os time b) last,
            )),
      )
