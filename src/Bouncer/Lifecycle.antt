-- ===== src/Bouncer/Lifecycle.antt =====
-- Configuring, starting and stopping the bouncer.
pub mod Outcome
use udppingpong.Base.{
  ℕ, ◌++◌, ◌≡◌, arith, true, ◌∷◌, length, [], ◌+◌, suc, All, length-append, All-append, zero, refl,
  false, if◌then◌else◌, ◌==◌, ◌↔◌, Bool-cases, inl, inr,
}
use udppingpong.Exception.{ok, throw, done, invalid_arguments, Result-cases}
use udppingpong.Socket.{Answers, is_set}
use udppingpong.Bouncer.{
  Bouncer, start_threads_from, set_fixed_response_packet_size, start, Exception,
  start_bouncer_threads, create_socket, stop, Step,
}
use udppingpong.Bouncer.Thread.{Thread, create as create_thread, set_no_echo, set_packet_size}
use udppingpong.Bouncer.Thread.Replies.{IsPacketSize}
use udppingpong.Bouncer.Thread.Setup.{bind}

module _ {D A : Type 0} where
  -- A size is accepted exactly if it is 0 or from 32 to 4096; then it is stored and nothing else
  -- changes, and any other size raises `InvalidArgumentsException`.
  set_fixed_response_packet_size_lem :
      (size : ℕ) (b : Bouncer D A)
      → ((set_fixed_response_packet_size size b ≡ ok (record b { packet_size = size }))
          ↔ IsPacketSize size)
        × ((set_fixed_response_packet_size size b ≡ throw invalid_arguments)
            ↔ (¬ IsPacketSize size))
  unfolding set_fixed_response_packet_size
  set_fixed_response_packet_size_lem size b =
      ((λ h. ground arith, λ h. ground arith), (λ h. ground arith, λ h. ground arith))

  -- A worker that does what the bouncer was told, on a socket of its own.
  abbrev pub IsConfigured : Bouncer D A → Thread D → Type 0
  IsConfigured b t =
      (t.no_echo ≡ b.no_echo) × (t.packet_size ≡ b.packet_size) × (is_set t.sockfd ≡ true)

  -- The worker that a round of the loop makes.
  abbrev pub made : Answers → D → Bouncer D A → Thread D
  made os time b =
      set_packet_size b.packet_size
        (bind b.sockaddr os (set_no_echo b.no_echo (create_thread time))).thread

  pub made-IsConfigured :
      (os : Answers) (time : D) (b : Bouncer D A)
      → IsPacketSize b.packet_size
      → (bind b.sockaddr os (set_no_echo b.no_echo (create_thread time))).outcome ≡ done
      → IsConfigured b (made os time b)
  unfolding bind set_packet_size set_no_echo create_thread
  made-IsConfigured os time b v h = ground arith

  abbrev pub with_thread : Thread D → Bouncer D A → Bouncer D A
  with_thread t b = record b { threadpool = b.threadpool ++ t ∷ [] }

  -- A round of the loop that does not throw.
  pub record IsRound (n i : ℕ) (os : ℕ → Answers) (time : D) (b : Bouncer D A) : Type 0 where
    pub bound : (bind b.sockaddr (os i) (set_no_echo b.no_echo (create_thread time))).outcome ≡ done
    pub rest :
        (start_threads_from n (i + 1) os time (with_thread (made (os i) time b) b)).outcome ≡ done
    pub bouncer :
        (start_threads_from (suc n) i os time b).bouncer
        ≡ (start_threads_from n (i + 1) os time (with_thread (made (os i) time b) b)).bouncer
    pub calls :
        (start_threads_from (suc n) i os time b).calls
        ≡ (bind b.sockaddr (os i) (set_no_echo b.no_echo (create_thread time))).calls
          ++ (start_threads_from n (i + 1) os time (with_thread (made (os i) time b) b)).calls

  pub start_threads-IsRound :
      (n i : ℕ) (os : ℕ → Answers) (time : D) (b : Bouncer D A)
      → (start_threads_from (suc n) i os time b).outcome ≡ done
      → IsRound n i os time b
  unfolding start_threads_from
  start_threads-IsRound n i os time b h = ground arith

  -- A round whose `bind` succeeds, and one in which it throws.
  pub start_threads-next :
      (n i : ℕ) (os : ℕ → Answers) (time : D) (b : Bouncer D A)
      → (bind b.sockaddr (os i) (set_no_echo b.no_echo (create_thread time))).outcome ≡ done
      → let rest = start_threads_from n (i + 1) os time (with_thread (made (os i) time b) b) in
        start_threads_from (suc n) i os time b ≡ record rest {
          calls =
              (bind b.sockaddr (os i) (set_no_echo b.no_echo (create_thread time))).calls
              ++ rest.calls;
        }
  unfolding start_threads_from
  start_threads-next n i os time b h = ground (arith, h)

  pub start_threads-end :
      (n i : ℕ) (os : ℕ → Answers) (time : D) (b : Bouncer D A) (e : Exception)
      → (bind b.sockaddr (os i) (set_no_echo b.no_echo (create_thread time))).outcome ≡ throw e
      → start_threads_from (suc n) i os time b ≡ record {
        bouncer = b;
        calls = (bind b.sockaddr (os i) (set_no_echo b.no_echo (create_thread time))).calls;
        outcome = throw e;
      }
  unfolding start_threads_from
  start_threads-end n i os time b e h = ground (arith, h)

  -- The bouncer as it enters the loop of `startBouncerThreads`, with its new socket.
  abbrev pub stopped_with : Answers → Bouncer D A → Bouncer D A
  stopped_with os b = record b {
    threadpool = [];
    threads_started = false;
    sockfd = os.socket;
    running = false;
  }

  abbrev pub loop : ℕ → Answers → (ℕ → Answers) → D → Bouncer D A → Step D A
  loop n main_os os time b =
      start_threads_from (if n == 0 then 1 else n) 0 os time (stopped_with main_os b)

  -- `start` by what the socket and the loop make of it.
  pub record IsStartDone (n : ℕ) (main_os : Answers) (os : ℕ → Answers) (time : D) (b : Bouncer D A)
      : Type 0 where
    pub opened : is_set main_os.socket ≡ true
    pub looped : (loop n main_os os time b).outcome ≡ done
    pub bouncer :
        (start n main_os os time b).bouncer
        ≡ record ((loop n main_os os time b).bouncer) { running = true }
    pub calls :
        (start n main_os os time b).calls
        ≡ (stop b).calls
          ++ (create_socket main_os (stop b).bouncer).calls
          ++ (loop n main_os os time b).calls
          ++ []

  pub start-IsStartDone :
      (n : ℕ) (main_os : Answers) (os : ℕ → Answers) (time : D) (b : Bouncer D A)
      → (start n main_os os time b).outcome ≡ done
      → IsStartDone n main_os os time b
  unfolding start start_bouncer_threads create_socket stop
  start-IsStartDone n main_os os time b h = ground arith

  -- The three ways in which `start` ends.
  pub data StartWay (n : ℕ) (main_os : Answers) (os : ℕ → Answers) (time : D) (b : Bouncer D A)
      : Type 0 where
    no_socket :
        is_set main_os.socket ≡ false
        → (start n main_os os time b).bouncer ≡ stopped_with main_os b
        → (start n main_os os time b).calls
          ≡ (stop b).calls ++ (create_socket main_os (stop b).bouncer).calls
        → StartWay n main_os os time b
    thrown :
        is_set main_os.socket ≡ true
        → (start n main_os os time b).bouncer ≡ (loop n main_os os time b).bouncer
        → (start n main_os os time b).calls
          ≡ (stop b).calls
            ++ (create_socket main_os (stop b).bouncer).calls
            ++ (loop n main_os os time b).calls
        → StartWay n main_os os time b
    all_done : IsStartDone n main_os os time b → StartWay n main_os os time b

  pub start-way :
      (n : ℕ) (main_os : Answers) (os : ℕ → Answers) (time : D) (b : Bouncer D A)
      → StartWay n main_os os time b
  unfolding start start_bouncer_threads create_socket stop
  start-way n main_os os time b = elim (Bool-cases (is_set main_os.socket)) [
    | inr none_there ↦
        no_socket none_there (ground (arith, none_there)) (ground (arith, none_there))
    | inl there ↦ elim (Result-cases (loop n main_os os time b).outcome) [
      | inr (x, failed) ↦
          thrown there (ground (arith, there, failed)) (ground (arith, there, failed))
      | inl (u, looped) ↦
          all_done (start-IsStartDone n main_os os time b (ground (arith, there, looped)))
    ]
  ]
