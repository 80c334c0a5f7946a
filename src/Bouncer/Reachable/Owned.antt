-- ===== src/Bouncer/Reachable/Owned.antt =====
-- The descriptors in every state of a bouncer.
use udppingpong.Bouncer.Descriptors.Kept.{stop-holds, get_counter-holds}
use udppingpong.Exception.{Result-cases}
use udppingpong.Bouncer.Lifecycle.{
  made, stopped_with, start_threads-end, with_thread, start_threads-next, start-way, no_socket,
  thrown, all_done, loop,
}
use udppingpong.Bouncer.Thread.{
  count, set_packet_size, set_no_echo, create as create_thread, Thread,
}
use udppingpong.Bouncer.Thread.Setup.{bind}
use udppingpong.Bouncer.Descriptors.{holds_all, holds-append, stop-Balances, stop-sockfd, holds}
use udppingpong.Bouncer.Reachable.{
  Reaches, created, sized, addressed, switched, started, stopped, collected, counted,
}
use udppingpong.Base.{
  ℕ, zero, suc, ◌+◌, ◌≤◌, List, [], ◌∷◌, ◌++◌, inl, inr, arith, if◌then◌else◌, ◌==◌, append-nil,
  ◌≡◌, Bool-cases, ltb, ◌&&◌, ◌||◌, refl, modify,
}
use udppingpong.Base.Int.{ℤ}
use udppingpong.Socket.{Call, Answers}
use udppingpong.Socket.Descriptors.{held, opened, closed, opened-append, closed-append}
use udppingpong.Bouncer.{
  Bouncer, create_socket, start_threads_from, start, stop, set_fixed_response_packet_size, create,
  disable_responses, ok,
}

-- Calls that take a descriptor from a number of holders to another, or lose some of them.
abbrev Keeps : {A : Type 0} → ℤ → ℕ → List (Call A) → ℕ → Type 0
Keeps fd before cs after = closed fd cs + after ≤ before + opened fd cs

Keeps-append :
    {A : Type 0} (fd : ℤ) (a b c : ℕ) (cs ds : List (Call A))
    → Keeps fd a cs b
    → Keeps fd b ds c
    → Keeps fd a (cs ++ ds) c
Keeps-append fd a b c cs ds h k = omega (arith, opened-append fd cs ds, closed-append fd cs ds)

module _ {D A : Type 0} where
  create_socket-Keeps :
      (os : Answers) (fd : ℤ) (b : Bouncer D A)
      → Keeps fd (held fd b.sockfd) (create_socket os b).calls (held fd os.socket)
  unfolding create_socket
  create_socket-Keeps os fd b = ground arith

  bind-Keeps :
      (os : Answers) (time : D) (fd : ℤ) (b : Bouncer D A)
      → Keeps fd 0
          (bind b.sockaddr os (set_no_echo b.no_echo (create_thread time))).calls
          (held fd (made os time b).sockfd)
  unfolding bind set_packet_size set_no_echo create_thread
  bind-Keeps os time fd b = ground arith

  start_threads-Keeps :
      (n i : ℕ) (os : ℕ → Answers) (time : D) (fd : ℤ) (b : Bouncer D A)
      → let s = start_threads_from n i os time b in
        Keeps fd (holds_all fd b) s.calls (holds_all fd s.bouncer)
  start_threads-Keeps zero i os time fd b = unfold start_threads_from in omega arith
  start_threads-Keeps (suc n) i os time fd b =
      let one = bind b.sockaddr (os i) (set_no_echo b.no_echo (create_thread time)) in
      let t = made (os i) time b in
      elim (Result-cases one.outcome) [
        | inr (x, failed) ↦
            rw (start_threads-end n i os time b x failed)
              (omega (arith, bind-Keeps (os i) time fd b))
        | inl (u, bound) ↦
            let next = start_threads-Keeps n (i + 1) os time fd (with_thread t b) in
            let others = (start_threads_from n (i + 1) os time (with_thread t b)).calls in
            rw (start_threads-next n i os time b bound) (
              omega (
                arith,
                next,
                bind-Keeps (os i) time fd b,
                holds-append fd b.threadpool (t ∷ []),
                opened-append fd one.calls others,
                closed-append fd one.calls others,
              ))
      ]

  start-Keeps :
      (n : ℕ) (main_os : Answers) (os : ℕ → Answers) (time : D) (fd : ℤ) (b : Bouncer D A)
      → let s = start n main_os os time b in
        Keeps fd (holds_all fd b) s.calls (holds_all fd s.bouncer)
  start-Keeps n main_os os time fd b =
      let first = (stop b).calls in
      let second = (create_socket main_os (stop b).bouncer).calls in
      let third = (loop n main_os os time b).calls in
      let begin = stopped_with main_os b in
      let reopened : Keeps fd (holds_all fd b) (first ++ second) (held fd main_os.socket) = omega (
        arith,
        stop-Balances fd b,
        stop-sockfd fd b,
        create_socket-Keeps main_os fd (stop b).bouncer,
        opened-append fd first second,
        closed-append fd first second,
      ) in
      let looped = start_threads-Keeps (if n == 0 then 1 else n) 0 os time fd begin in
      let all : Keeps fd (holds_all fd b) (first ++ second ++ third)
          (holds_all fd (loop n main_os os time b).bouncer) =
        omega (
          arith,
          reopened,
          looped,
          opened-append fd (first ++ second) third,
          closed-append fd (first ++ second) third,
        ) in
      elim (start-way n main_os os time b) [
        | no_socket not_there same calls ↦ rw (same, calls) (omega (arith, reopened))
        | thrown there same calls ↦ rw (same, calls) all
        | all_done d ↦ rw (d.bouncer, d.calls, append-nil) all
      ]

module _ {D : Type 0} where
  modify-holds :
      (fd : ℤ) (ts : List (Thread D)) (i n : ℕ) → holds fd (modify ts i (count n)) ≡ holds fd ts
  unfolding count
  modify-holds fd [] i n = refl
  modify-holds fd (t ∷ ts) zero n = refl
  modify-holds fd (t ∷ ts) (suc i) n = omega (arith, modify-holds fd ts i n)

module _ {D A : Type 0} where
  set_size-holds :
      (size : ℕ) (fd : ℤ) (b c : Bouncer D A)
      → set_fixed_response_packet_size size b ≡ ok c
      → holds_all fd c ≡ holds_all fd b
  unfolding set_fixed_response_packet_size
  set_size-holds size fd b c h = elim (Bool-cases (ltb 0 size && (ltb size 32 || ltb 4096 size))) [
    | inl bad ↦ ground (arith, h, bad)
    | inr good ↦
        let same : record b { packet_size = size } ≡ c = ground (arith, h, good) in rw (← same) refl
  ]

  -- Whatever its owner calls, and whether `start` throws or not: a descriptor has never been closed
  -- more often than it was opened, the bouncer and its workers that still hold it counted in. So
  -- none is closed twice, and none that is held has been closed.
  pub Reaches-Keeps :
      (nowhere : A) (calls : List (Call A)) (b : Bouncer D A) (fd : ℤ)
      → Reaches nowhere calls b
      → closed fd calls + holds_all fd b ≤ opened fd calls
  unfolding create disable_responses
  Reaches-Keeps nowhere _ _ fd created = omega arith
  Reaches-Keeps nowhere _ _ fd (sized {b = b} {c = c} size r h) =
      omega (arith, Reaches-Keeps nowhere _ b fd r, set_size-holds size fd b c h)
  Reaches-Keeps nowhere _ _ fd (addressed {b = b} address r) = Reaches-Keeps nowhere _ b fd r
  Reaches-Keeps nowhere _ _ fd (switched {b = b} flag r) = Reaches-Keeps nowhere _ b fd r
  Reaches-Keeps nowhere _ _ fd (started {cs = cs} {b = b} n main_os os time r) =
      let s = start n main_os os time b in
      omega (
        arith,
        Reaches-Keeps nowhere cs b fd r,
        start-Keeps n main_os os time fd b,
        opened-append fd cs s.calls,
        closed-append fd cs s.calls,
      )
  Reaches-Keeps nowhere _ _ fd (stopped {cs = cs} {b = b} r) = omega (
    arith,
    Reaches-Keeps nowhere cs b fd r,
    stop-Balances fd b,
    stop-holds fd b,
    opened-append fd cs (stop b).calls,
    closed-append fd cs (stop b).calls,
  )
  Reaches-Keeps nowhere _ _ fd (collected {b = b} garbage now r) =
      omega (arith, Reaches-Keeps nowhere _ b fd r, get_counter-holds fd garbage now b)
  Reaches-Keeps nowhere _ _ fd (counted {b = b} i n r) =
      omega (arith, Reaches-Keeps nowhere _ b fd r, modify-holds fd b.threadpool i n)
