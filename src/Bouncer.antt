-- ===== src/Bouncer.antt =====
-- src/UDPEchoBouncer.cpp: the pool of worker threads behind one address.
pub mod Thread
pub mod Lifecycle
pub mod Reachable
pub mod Descriptors
pub mod Sampling
pub mod Program
pub mod Examples
use udppingpong.Base.{
  none, some, List, [], ◌++◌, ℕ, Bool, false, ◌∷◌, true, if◌then◌else◌, suc, ltb, ◌==◌, ◌+◌, ◌&&◌,
  ◌||◌, zero,
}
use udppingpong.Base.Int.{ℤ, pos}
use udppingpong.Base.Word.{add64}
use udppingpong.Exception.{
  Exception, Result, Thrown, ok, throw, done, invalid_arguments, could_not_bind_to_interface,
  could_not_open_socket,
}
use udppingpong.Counter.{Counter, clear}
use udppingpong.Socket.{Call, Answers, is_set, close_if_set}
use udppingpong.Resolve.{get_sock_addr}
use Thread.{create as create_thread, set_no_echo, set_packet_size, get_and_clear_counter}
use Thread.Setup.{bind, destroy}

-- `threads_started` says whether `threadpool.startThreads` was called for the threads of the pool.
pub record Bouncer (D A : Type 0) : Type 0 where
  pub threadpool : List (Thread.Thread D)
  pub threads_started : Bool
  pub sockaddr : A
  pub sockfd : ℤ
  pub packet_size : ℕ
  pub no_echo : Bool
  pub running : Bool

-- What is left of a method that may throw: the object, the calls that it made, and how it ended.
pub record Step (D A : Type 0) : Type 0 where
  pub bouncer : Bouncer D A
  pub calls : List (Call A)
  pub outcome : Thrown

module _ {D : Type 0} where
  abbrev pub add_counter : Counter D → Counter D → Counter D
  add_counter counter c = record counter {
    packets_received = add64 counter.packets_received c.packets_received;
    packets_send = add64 counter.packets_send c.packets_send;
    bytes_received = add64 counter.bytes_received c.bytes_received;
    bytes_send = add64 counter.bytes_send c.bytes_send;
  }

  -- The loop of `getCounter` over the pool.
  unfoldable pub collect : Counter D → List (Thread.Thread D) → Counter D × List (Thread.Thread D)
  unfolding get_and_clear_counter
  collect counter [] = (counter, [])
  collect counter (t ∷ ts) =
      let (c, t') = get_and_clear_counter t in
      let (total, ts') = collect (add_counter counter c) ts in (total, t' ∷ ts')

module _ {D A : Type 0} where
  -- The constructor.
  unfoldable pub create : A → Bouncer D A
  create nowhere = record {
    threadpool = [];
    threads_started = false;
    sockaddr = nowhere;
    sockfd = pos 0;
    packet_size = 0;
    no_echo = false;
    running = false;
  }

  -- The second statement, unless the first throws.
  abbrev and_then : Step D A → (Bouncer D A → Step D A) → Step D A
  and_then s f = elim s.outcome [
    | ok _ ↦ let next = f s.bouncer in record next { calls = s.calls ++ next.calls }
    | throw e ↦ s
  ]

  unfoldable pub create_socket : Answers → Bouncer D A → Step D A
  create_socket os b =
      let fd = os.socket in
      let before = close_if_set b.sockfd ++ Call.socket fd ∷ [] in
      if is_set fd
      then record {
        bouncer = record b { sockfd = fd };
        calls = before ++ Call.reuse_addr fd ∷ Call.reuse_port fd ∷ [];
        outcome = done;
      }
      else record {
        bouncer = record b { sockfd = fd };
        calls = before;
        outcome = throw could_not_open_socket;
      }

  -- `bind` of the bouncer's own socket, which no method calls.
  unfoldable pub bind_main : A → Answers → Bouncer D A → Step D A
  bind_main address os b = elim os.bind [
    | none ↦ record {
      bouncer = b;
      calls =
          Call.bind b.sockfd address ∷ Call.non_blocking b.sockfd ∷ Call.reuse_port b.sockfd ∷ [];
      outcome = done;
    }
    | some errno ↦ record {
      bouncer = b;
      calls = Call.bind b.sockfd address ∷ [];
      outcome = throw (could_not_bind_to_interface errno);
    }
  ]

  -- The loop of `startBouncerThreads`, with `n` threads to go. `os i` answers the calls of thread
  -- number i, and `time` is what its uninitialised `sampleTime` holds. A thread whose `bind` throws
  -- never reaches the pool.
  unfoldable pub start_threads_from : ℕ → ℕ → (ℕ → Answers) → D → Bouncer D A → Step D A
  start_threads_from zero i os time b = record {
    bouncer = record b { threads_started = true };
    calls = [];
    outcome = done;
  }
  start_threads_from (suc n) i os time b =
      let made = bind b.sockaddr (os i) (set_no_echo b.no_echo (create_thread time)) in
      let thread = set_packet_size b.packet_size made.thread in
      let rest =
        start_threads_from n (i + 1) os time
          (record b { threadpool = b.threadpool ++ thread ∷ [] }) in
      elim made.outcome [
        | ok _ ↦ record rest { calls = made.calls ++ rest.calls }
        | throw e ↦ record { bouncer = b; calls = made.calls; outcome = throw e }
      ]

  unfoldable pub start_bouncer_threads : ℕ → (ℕ → Answers) → D → Bouncer D A → Step D A
  unfolding start_threads_from
  start_bouncer_threads n os time b = start_threads_from n 0 os time b

  unfoldable pub set_fixed_response_packet_size : ℕ → Bouncer D A → Result (Bouncer D A)
  set_fixed_response_packet_size size b =
      if ltb 0 size && (ltb size 32 || ltb 4096 size)
      then throw invalid_arguments
      else ok (record b { packet_size = size })

  -- `resolved` are the IP addresses of the interface's name.
  unfoldable pub set_interface :
      {Ip : Type 0} → (Ip → ℤ → A) → List Ip → ℤ → Bouncer D A → Result (Bouncer D A)
  unfolding get_sock_addr
  set_interface sock_addr resolved port b = elim (get_sock_addr sock_addr resolved port) [
    | ok address ↦ ok (record b { sockaddr = address })
    | throw e ↦ throw e
  ]

  unfoldable pub disable_responses : Bool → Bouncer D A → Bouncer D A
  disable_responses flag b = record b { no_echo = flag }

  abbrev pub destroy_all : List (Thread.Thread D) → List (Call A)
  destroy_all [] = []
  destroy_all (t ∷ ts) = destroy t ++ destroy_all ts

  unfoldable pub stop : Bouncer D A → Step D A
  unfolding destroy
  stop b = record {
    bouncer = record b {
      threadpool = [];
      threads_started = false;
      sockfd = if is_set b.sockfd then pos 0 else b.sockfd;
      running = false;
    };
    calls = destroy_all b.threadpool ++ close_if_set b.sockfd;
    outcome = done;
  }

  -- `main_os` answers the calls for the socket of the bouncer itself.
  unfoldable pub start : ℕ → Answers → (ℕ → Answers) → D → Bouncer D A → Step D A
  unfolding stop create_socket start_bouncer_threads
  start num_threads main_os os time b =
      let n = if num_threads == 0 then 1 else num_threads in
      and_then
        (and_then (and_then (stop b) (create_socket main_os)) (start_bouncer_threads n os time))
        λ c. record { bouncer = record c { running = true }; calls = []; outcome = done }

  -- The destructor.
  unfoldable pub destroy_bouncer : Bouncer D A → List (Call A)
  unfolding stop
  destroy_bouncer b = let s = stop b in s.calls ++ close_if_set s.bouncer.sockfd

  unfoldable pub is_running : Bouncer D A → Bool
  is_running b = b.running

  -- `garbage` is the uninitialised local counter.
  unfoldable pub get_counter : Counter D → D → Bouncer D A → Counter D × Bouncer D A
  unfolding collect
  get_counter garbage now b =
      let (total, ts) = collect (record (clear garbage) { sample_time = now }) b.threadpool in
      (total, record b { threadpool = ts })
