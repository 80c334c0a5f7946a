-- ===== src/Bouncer/Reachable/Sound.antt =====
-- What holds in every state of a bouncer.
use udppingpong.Bouncer.Reachable.{
  Reaches, created, sized, addressed, switched, started, stopped, collected, counted,
}
use udppingpong.Counter.{Counter, clear}
use udppingpong.Base.{
  ℕ, zero, suc, ◌+◌, List, [], ◌∷◌, ◌≡◌, refl, All, All-append, true, false, ◌⊎◌, inl, inr, arith,
  if◌then◌else◌, ◌==◌, modify, Bool-cases, ltb, ◌&&◌, ◌||◌,
}
use udppingpong.Exception.{done, Result-cases}
use udppingpong.Socket.{Answers, Call}
use udppingpong.Bouncer.Thread.{
  Thread, create as create_thread, set_no_echo, set_packet_size, count,
}
use udppingpong.Bouncer.Thread.Setup.{bind}
use udppingpong.Bouncer.Thread.Replies.{IsPacketSize}
use udppingpong.Bouncer.Lifecycle.{
  made, with_thread, stopped_with, start_threads-IsRound, start-way, no_socket, thrown, all_done,
  start_threads-next, start_threads-end,
}
use udppingpong.Bouncer.{
  Bouncer, start, start_threads_from, collect, set_fixed_response_packet_size, create, ok,
  disable_responses, add_counter, stop, get_counter,
}

module _ {D : Type 0} where
  abbrev pub AllSized : List (Thread D) → Type 0
  AllSized ts = All (λ t. IsPacketSize t.packet_size) ts

module _ {D A : Type 0} where
  -- The sizes are ones that the buffer has room for, and only started threads run.
  pub record IsSound (b : Bouncer D A) : Type 0 where
    pub size : IsPacketSize b.packet_size
    pub sizes : AllSized b.threadpool
    pub flags : (b.running ≡ false) ⊎ (b.threads_started ≡ true)

  made-size :
      (os : Answers) (time : D) (b : Bouncer D A)
      → IsPacketSize b.packet_size
      → IsPacketSize (made os time b).packet_size
  unfolding bind set_packet_size set_no_echo create_thread
  made-size os time b v = ground arith

  start_threads-started :
      (n i : ℕ) (os : ℕ → Answers) (time : D) (b : Bouncer D A)
      → (start_threads_from n i os time b).outcome ≡ done
      → (start_threads_from n i os time b).bouncer.threads_started ≡ true
  start_threads-started zero i os time b h = unfold start_threads_from in refl
  start_threads-started (suc n) i os time b h =
      let round = start_threads-IsRound n i os time b h in
      rw round.bouncer
        (start_threads-started n (i + 1) os time (with_thread (made (os i) time b) b) round.rest)

  start_threads-IsSound :
      (n i : ℕ) (os : ℕ → Answers) (time : D) (b : Bouncer D A)
      → IsSound b
      → b.running ≡ false
      → let c = (start_threads_from n i os time b).bouncer in IsSound c × (c.running ≡ false)
  start_threads-IsSound zero i os time b s f =
      unfold start_threads_from in (record { size = s.size; sizes = s.sizes; flags = inr refl }, f)
  start_threads-IsSound (suc n) i os time b s f =
      elim (Result-cases
        (bind b.sockaddr (os i) (set_no_echo b.no_echo (create_thread time))).outcome) [
          | inl (u, bound) ↦
              let t = made (os i) time b in
              let more =
                All-append (λ t. IsPacketSize t.packet_size) b.threadpool (t ∷ []) s.sizes
                  (made-size (os i) time b s.size, tt) in
              rw (start_threads-next n i os time b bound) (
                start_threads-IsSound n (i + 1) os time (with_thread t b)
                  (record { size = s.size; sizes = more; flags = s.flags }) f)
          | inr (x, failed) ↦ rw (start_threads-end n i os time b x failed) (s, f)
        ]

  start-IsSound :
      (n : ℕ) (main_os : Answers) (os : ℕ → Answers) (time : D) (b : Bouncer D A)
      → IsSound b
      → IsSound (start n main_os os time b).bouncer
  start-IsSound n main_os os time b s =
      let begin : IsSound (stopped_with main_os b) = record {
        size = s.size;
        sizes = tt;
        flags = inl refl;
      } in
      let (sound, off) =
        start_threads-IsSound (if n == 0 then 1 else n) 0 os time (stopped_with main_os b) begin
          refl in
      elim (start-way n main_os os time b) [
        | no_socket closed same calls ↦ rw same begin
        | thrown opened same calls ↦ rw same sound
        | all_done d ↦ rw (d.bouncer) (record {
          size = sound.size;
          sizes = sound.sizes;
          flags = inr (
              start_threads-started (if n == 0 then 1 else n) 0 os time (stopped_with main_os b)
                d.looped);
        })
      ]

module _ {D : Type 0} where
  collect-AllSized :
      (c : Counter D) (ts : List (Thread D)) → AllSized ts → AllSized (collect c ts).1
  unfolding collect
  collect-AllSized c [] h = tt
  collect-AllSized c (t ∷ ts) (h, hs) = (h, collect-AllSized (add_counter c t.counter) ts hs)

  modify-AllSized :
      (ts : List (Thread D)) (i n : ℕ) → AllSized ts → AllSized (modify ts i (count n))
  unfolding count
  modify-AllSized [] i n h = tt
  modify-AllSized (t ∷ ts) zero n (h, hs) = (h, hs)
  modify-AllSized (t ∷ ts) (suc i) n (h, hs) = (h, modify-AllSized ts i n hs)

module _ {D A : Type 0} where
  set_size-IsSound :
      (size : ℕ) (b c : Bouncer D A)
      → IsSound b
      → set_fixed_response_packet_size size b ≡ ok c
      → IsSound c
  unfolding set_fixed_response_packet_size
  set_size-IsSound size b c s h = elim (Bool-cases (ltb 0 size && (ltb size 32 || ltb 4096 size))) [
    | inl bad ↦ ground (arith, h, bad)
    | inr good ↦
        let same : record b { packet_size = size } ≡ c = ground (arith, h, good) in
        rw (← same) (record { size = ground (arith, good); sizes = s.sizes; flags = s.flags })
  ]

  -- Whatever its owner calls and whatever packets are counted: the packet size of a bouncer and of
  -- each of its workers is 0 or from 32 to 4096, and a bouncer that is running has started its
  -- threads.
  pub Reaches-IsSound :
      (nowhere : A) (calls : List (Call A)) (b : Bouncer D A) → Reaches nowhere calls b → IsSound b
  unfolding create disable_responses stop get_counter
  Reaches-IsSound nowhere _ _ created = record { size = inl refl; sizes = tt; flags = inl refl }
  Reaches-IsSound nowhere _ _ (sized {b = b} {c = c} size r h) =
      set_size-IsSound size b c (Reaches-IsSound nowhere _ b r) h
  Reaches-IsSound nowhere _ _ (addressed {b = b} address r) =
      let s = Reaches-IsSound nowhere _ b r in
      record { size = s.size; sizes = s.sizes; flags = s.flags }
  Reaches-IsSound nowhere _ _ (switched {b = b} flag r) =
      let s = Reaches-IsSound nowhere _ b r in
      record { size = s.size; sizes = s.sizes; flags = s.flags }
  Reaches-IsSound nowhere _ _ (started {b = b} n main_os os time r) =
      start-IsSound n main_os os time b (Reaches-IsSound nowhere _ b r)
  Reaches-IsSound nowhere _ _ (stopped {b = b} r) =
      let s = Reaches-IsSound nowhere _ b r in
      record { size = s.size; sizes = tt; flags = inl refl }
  Reaches-IsSound nowhere _ _ (collected {b = b} garbage now r) =
      let s = Reaches-IsSound nowhere _ b r in
      record {
        size = s.size;
        sizes =
            collect-AllSized (record (clear garbage) { sample_time = now }) b.threadpool s.sizes;
        flags = s.flags;
      }
  Reaches-IsSound nowhere _ _ (counted {b = b} i n r) =
      let s = Reaches-IsSound nowhere _ b r in
      record { size = s.size; sizes = modify-AllSized b.threadpool i n s.sizes; flags = s.flags }
