-- ===== src/Bouncer/Sampling.antt =====
-- `UDPEchoBouncer::getCounter`: the sum over the pool.
use udppingpong.Base.{ℕ, ◌%◌, ◌≡◌, refl, ap, ◌∙◌, List, [], ◌∷◌, map, arith, sum, All}
use udppingpong.Base.Word.{word_mod, add_all, add_all-zero}
use udppingpong.Counter.{Counter, clear}
use udppingpong.Bouncer.{Bouncer, collect, get_counter, add_counter}
use udppingpong.Bouncer.Thread.{Thread, clear_counts}

module _ {D : Type 0} where
  -- One of the four counts, over all workers.
  abbrev pub counts : (Counter D → ℕ) → List (Thread D) → List ℕ
  counts f ts = map (λ t. f t.counter) ts

  -- `c` holds the sums of the counts of the workers.
  pub record IsSum (c : Counter D) (ts : List (Thread D)) : Type 0 where
    pub packets_received : c.packets_received ≡ sum (counts (λ k. k.packets_received) ts) % word_mod
    pub packets_send : c.packets_send ≡ sum (counts (λ k. k.packets_send) ts) % word_mod
    pub bytes_received : c.bytes_received ≡ sum (counts (λ k. k.bytes_received) ts) % word_mod
    pub bytes_send : c.bytes_send ≡ sum (counts (λ k. k.bytes_send) ts) % word_mod

  -- All four counts are 0.
  pub record IsClear (c : Counter D) : Type 0 where
    pub packets_received_zero : c.packets_received ≡ 0
    pub packets_send_zero : c.packets_send ≡ 0
    pub bytes_received_zero : c.bytes_received ≡ 0
    pub bytes_send_zero : c.bytes_send ≡ 0

  record Adds (a c : Counter D) (ts : List (Thread D)) : Type 0 where
    packets_received :
        c.packets_received ≡ add_all a.packets_received (counts (λ k. k.packets_received) ts)
    packets_send : c.packets_send ≡ add_all a.packets_send (counts (λ k. k.packets_send) ts)
    bytes_received : c.bytes_received ≡ add_all a.bytes_received (counts (λ k. k.bytes_received) ts)
    bytes_send : c.bytes_send ≡ add_all a.bytes_send (counts (λ k. k.bytes_send) ts)
    sample_time : c.sample_time ≡ a.sample_time

  collect-Adds : (a : Counter D) (ts : List (Thread D)) → Adds a (collect a ts).0 ts
  unfolding collect add_all
  collect-Adds a [] = record {
    packets_received = refl;
    packets_send = refl;
    bytes_received = refl;
    bytes_send = refl;
    sample_time = refl;
  }
  collect-Adds a (t ∷ ts) = ground (arith, collect-Adds (add_counter a t.counter) ts)

  collect-threads : (a : Counter D) (ts : List (Thread D)) → (collect a ts).1 ≡ map clear_counts ts
  unfolding collect
  collect-threads a [] = refl
  collect-threads a (t ∷ ts) =
      ap (◌∷◌ (clear_counts t)) (collect-threads (add_counter a t.counter) ts)

  clear_counts-IsClear : (ts : List (Thread D)) → All (λ t. IsClear t.counter) (map clear_counts ts)
  unfolding clear_counts
  clear_counts-IsClear [] = tt
  clear_counts-IsClear (t ∷ ts) = (omega arith, clear_counts-IsClear ts)

module _ {D A : Type 0} where
  -- `getCounter` returns, modulo 2 ^ 64, the sums of the counts of all workers, with the time of the
  -- sample, and sets the counts of every worker to 0. The rest of the bouncer stays as it is.
  pub get_counter_lem :
      (garbage : Counter D) (now : D) (b : Bouncer D A)
      → let (total, c) = get_counter garbage now b in
        IsSum total b.threadpool
        × (total.sample_time ≡ now)
        × All (λ t. IsClear t.counter) c.threadpool
        × (c ≡ record b { threadpool = map clear_counts b.threadpool })
  unfolding get_counter clear
  get_counter_lem garbage now b =
      let zeros = record (clear garbage) { sample_time = now } in
      let a = collect-Adds zeros b.threadpool in
      (
        record {
          packets_received = a.packets_received ∙ add_all-zero _;
          packets_send = a.packets_send ∙ add_all-zero _;
          bytes_received = a.bytes_received ∙ add_all-zero _;
          bytes_send = a.bytes_send ∙ add_all-zero _;
        },
        a.sample_time,
        rw (collect-threads zeros b.threadpool) (clear_counts-IsClear b.threadpool),
        rw (collect-threads zeros b.threadpool),
      )
