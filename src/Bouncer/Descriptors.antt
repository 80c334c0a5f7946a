-- ===== src/Bouncer/Descriptors.antt =====
-- The descriptors of the bouncer and its workers: none is lost, but for that of a worker whose
-- `bind` throws.
pub mod Leak
pub mod Kept
use udppingpong.Base.{
  ℕ, zero, suc, ◌+◌, ◌≡◌, refl, some, true, List, [], ◌∷◌, ◌++◌, arith, ◌==◌, if◌then◌else◌,
  append-nil,
}
use udppingpong.Exception.{throw, done, could_not_bind_to_interface}
use udppingpong.Base.Int.{ℤ}
use udppingpong.Socket.{Call, Answers, is_set, close_if_set}
use udppingpong.Socket.Descriptors.{held, opened, closed, opened-append, closed-append}
use udppingpong.Bouncer.{
  Bouncer, create_socket, start_threads_from, start_bouncer_threads, stop, start, destroy_bouncer,
  destroy_all,
}
use udppingpong.Bouncer.Lifecycle.{
  start_threads-IsRound, start-IsStartDone, made, with_thread, stopped_with, loop,
}
use udppingpong.Bouncer.Thread.{Thread, create as create_thread, set_no_echo, set_packet_size}
use udppingpong.Bouncer.Thread.Setup.{bind, destroy}

module _ {D : Type 0} where
  -- How often the workers hold a descriptor.
  abbrev pub holds : ℤ → List (Thread D) → ℕ
  holds fd [] = 0
  holds fd (t ∷ ts) = held fd t.sockfd + holds fd ts

  pub holds-append :
      (fd : ℤ) (ts us : List (Thread D)) → holds fd (ts ++ us) ≡ holds fd ts + holds fd us
  holds-append fd [] us = omega arith
  holds-append fd (t ∷ ts) us = omega (arith, holds-append fd ts us)

-- Calls that open and close a descriptor from a number of holders to another.
abbrev pub Balances : {A : Type 0} → ℤ → ℕ → List (Call A) → ℕ → Type 0
Balances fd before cs after = before + opened fd cs ≡ closed fd cs + after

Balances-append :
    {A : Type 0} (fd : ℤ) (a b c : ℕ) (cs ds : List (Call A))
    → Balances fd a cs b
    → Balances fd b ds c
    → Balances fd a (cs ++ ds) c
Balances-append fd a b c cs ds h k = omega (arith, opened-append fd cs ds, closed-append fd cs ds)

destroy-Balances :
    {D : Type 0} (A : Type 0) (fd : ℤ) (t : Thread D)
    → Balances fd (held fd t.sockfd) (destroy {A = A} t) 0
unfolding destroy
destroy-Balances A fd t = ground arith

destroy_all-Balances :
    {D : Type 0} (A : Type 0) (fd : ℤ) (ts : List (Thread D))
    → Balances fd (holds fd ts) (destroy_all {A = A} ts) 0
destroy_all-Balances A fd [] = refl
destroy_all-Balances A fd (t ∷ ts) = omega (
  arith,
  destroy-Balances A fd t,
  destroy_all-Balances A fd ts,
  opened-append fd (destroy {A = A} t) (destroy_all {A = A} ts),
  closed-append fd (destroy {A = A} t) (destroy_all {A = A} ts),
)

module _ {D A : Type 0} where
  -- How often the bouncer and its workers hold a descriptor.
  abbrev pub holds_all : ℤ → Bouncer D A → ℕ
  holds_all fd b = held fd b.sockfd + holds fd b.threadpool

  pub stop-Balances : (fd : ℤ) (b : Bouncer D A) → Balances fd (holds_all fd b) (stop b).calls 0
  unfolding stop
  stop-Balances fd b =
      let last : Balances {A = A} fd (held fd b.sockfd) (close_if_set b.sockfd) 0 = ground arith in
      omega (
        arith,
        last,
        destroy_all-Balances A fd b.threadpool,
        opened-append fd (destroy_all {A = A} b.threadpool) (close_if_set b.sockfd),
        closed-append fd (destroy_all {A = A} b.threadpool) (close_if_set b.sockfd),
      )

  pub destroy_bouncer-Balances :
      (fd : ℤ) (b : Bouncer D A) → Balances fd (holds_all fd b) (destroy_bouncer b) 0
  unfolding destroy_bouncer
  destroy_bouncer-Balances fd b =
      let s = (stop b).calls in
      let again = close_if_set {A = A} (stop b).bouncer.sockfd in
      let none_left : Balances {A = A} fd 0 again 0 = ground arith in
      Balances-append fd (holds_all fd b) 0 0 s again (stop-Balances fd b) none_left

  create_socket-Balances :
      (os : Answers) (fd : ℤ) (b : Bouncer D A)
      → is_set os.socket ≡ true
      → let s = create_socket os b in Balances fd (held fd b.sockfd) s.calls (held fd os.socket)
  unfolding create_socket
  create_socket-Balances os fd b h = ground arith

  made-Balances :
      (os : Answers) (time : D) (fd : ℤ) (b : Bouncer D A)
      → is_set os.socket ≡ true
      → let s = bind b.sockaddr os (set_no_echo b.no_echo (create_thread time)) in
        Balances fd 0 s.calls (held fd (made os time b).sockfd)
  unfolding bind set_packet_size set_no_echo create_thread
  made-Balances os time fd b h = ground arith

  made-is_set :
      (os : Answers) (time : D) (b : Bouncer D A)
      → (bind b.sockaddr os (set_no_echo b.no_echo (create_thread time))).outcome ≡ done
      → is_set os.socket ≡ true
  unfolding bind
  made-is_set os time b h = ground arith

  start_threads-Balances :
      (n i : ℕ) (os : ℕ → Answers) (time : D) (fd : ℤ) (b : Bouncer D A)
      → (start_threads_from n i os time b).outcome ≡ done
      → let s = start_threads_from n i os time b in
        Balances fd (holds fd b.threadpool) s.calls (holds fd s.bouncer.threadpool)
        × (s.bouncer.sockfd ≡ b.sockfd)
  start_threads-Balances zero i os time fd b h = unfold start_threads_from in (omega arith, refl)
  start_threads-Balances (suc n) i os time fd b h =
      let round = start_threads-IsRound n i os time b h in
      let t = made (os i) time b in
      let new = made-Balances (os i) time fd b (made-is_set (os i) time b round.bound) in
      let next = start_threads-Balances n (i + 1) os time fd (with_thread t b) round.rest in
      let first = (bind b.sockaddr (os i) (set_no_echo b.no_echo (create_thread time))).calls in
      let others = (start_threads_from n (i + 1) os time (with_thread t b)).calls in
      rw (round.bouncer, round.calls)
        (
          omega (
            arith,
            new,
            next.0,
            holds-append fd b.threadpool (t ∷ []),
            opened-append fd first others,
            closed-append fd first others,
          ),
          next.1,
        )

  pub stop-sockfd : (fd : ℤ) (b : Bouncer D A) → held fd (stop b).bouncer.sockfd ≡ 0
  unfolding stop
  stop-sockfd fd b = ground arith

  -- `stop` and the opening of the bouncer's own socket.
  pub reopen-Balances :
      (os : Answers) (fd : ℤ) (b : Bouncer D A)
      → is_set os.socket ≡ true
      → Balances fd
          (holds_all fd b)
          ((stop b).calls ++ (create_socket os (stop b).bouncer).calls)
          (held fd os.socket)
  reopen-Balances os fd b h =
      let c = (stop b).bouncer in
      omega (
        arith,
        stop-Balances fd b,
        stop-sockfd fd b,
        create_socket-Balances os fd c h,
        opened-append fd (stop b).calls (create_socket os c).calls,
        closed-append fd (stop b).calls (create_socket os c).calls,
      )

  pub start-Balances :
      (n : ℕ) (main_os : Answers) (os : ℕ → Answers) (time : D) (fd : ℤ) (b : Bouncer D A)
      → (start n main_os os time b).outcome ≡ done
      → let s = start n main_os os time b in
        Balances fd (holds_all fd b) s.calls (holds_all fd s.bouncer)
  start-Balances n main_os os time fd b h =
      let d = start-IsStartDone n main_os os time b h in
      let before = (stop b).calls ++ (create_socket main_os (stop b).bouncer).calls in
      let looped = (loop n main_os os time b).calls in
      let rest =
        start_threads-Balances (if n == 0 then 1 else n) 0 os time fd (stopped_with main_os b)
          d.looped in
      rw (d.bouncer, d.calls, append-nil, rest.1)
        (omega (
          arith,
          rest.0,
          reopen-Balances main_os fd b d.opened,
          opened-append fd before looped,
          closed-append fd before looped,
        ))

  -- If `start` does not throw, then after the destructor every descriptor has been closed as often
  -- as it was opened, those held before `start` counted in.
  start-destroy_balance :
      (n : ℕ) (main_os : Answers) (os : ℕ → Answers) (time : D) (fd : ℤ) (b : Bouncer D A)
      → (start n main_os os time b).outcome ≡ done
      → let s = start n main_os os time b in
        let calls = s.calls ++ destroy_bouncer s.bouncer in
        holds_all fd b + opened fd calls ≡ closed fd calls
  start-destroy_balance n main_os os time fd b h =
      let s = start n main_os os time b in
      omega (
        arith,
        start-Balances n main_os os time fd b h,
        destroy_bouncer-Balances fd s.bouncer,
        opened-append fd s.calls (destroy_bouncer s.bouncer),
        closed-append fd s.calls (destroy_bouncer s.bouncer),
      )
