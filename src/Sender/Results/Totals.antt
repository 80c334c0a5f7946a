-- ===== src/Sender/Results/Totals.antt =====
-- The sums that `getResults` and `getCounter` make.
use udppingpong.Base.Int.{ℤ}
use udppingpong.Base.{
  ℕ, ◌%◌, ◌≡◌, refl, List, [], ◌∷◌, map, arith, sum, length, get_or, replicate, ap, suc, ◌+◌, All,
  ◌∙◌, zero, sym,
}
use udppingpong.Base.Word.{word_mod, add64, sub64, add_all, add_all-zero}
use udppingpong.Double.{Double}
use udppingpong.Counter.{Counter, clear}
use udppingpong.Sender.Thread.{SenderThread, error_codes}
use udppingpong.Sender.Results.{
  Results, add_codes, add_thread, add_threads, get_results, clear_results, get_sender_counter,
  add_counters,
}

module _ {D : Type 0} where
  -- A count of every worker.
  abbrev pub each : (SenderThread D → ℕ) → List (SenderThread D) → List ℕ
  each f ts = map f ts

  -- The counts of `r` are the sums over the workers, modulo 2 ^ 64.
  pub record IsTotal (r : Results D) (ts : List (SenderThread D)) : Type 0 where
    pub send : r.counter_send ≡ sum (each (λ t. t.counter_send) ts) % word_mod
    pub received : r.counter_received ≡ sum (each (λ t. t.receiver.counter_received) ts) % word_mod
    pub bytes : r.bytes_received ≡ sum (each (λ t. t.receiver.bytes_received) ts) % word_mod
    pub failures : r.counter_errors ≡ sum (each (λ t. t.errors) ts) % word_mod
    pub short : r.counter_0bytes ≡ sum (each (λ t. t.counter_0bytes) ts) % word_mod

  -- As above, from what `a` holds.
  record Adds (a r : Results D) (ts : List (SenderThread D)) : Type 0 where
    send : r.counter_send ≡ add_all a.counter_send (each (λ t. t.counter_send) ts)
    received :
        r.counter_received ≡ add_all a.counter_received (each (λ t. t.receiver.counter_received) ts)
    bytes : r.bytes_received ≡ add_all a.bytes_received (each (λ t. t.receiver.bytes_received) ts)
    failures : r.counter_errors ≡ add_all a.counter_errors (each (λ t. t.errors) ts)
    short : r.counter_0bytes ≡ add_all a.counter_0bytes (each (λ t. t.counter_0bytes) ts)

module _ {D : Type 0} ⦃d : Double D⦄ where
  add_threads-Adds : (a : Results D) (ts : List (SenderThread D)) → Adds a (add_threads a ts) ts
  unfolding add_threads add_all
  add_threads-Adds a [] = record {
    send = refl;
    received = refl;
    bytes = refl;
    failures = refl;
    short = refl;
  }
  add_threads-Adds a (t ∷ ts) =
      let rest = add_threads-Adds (add_thread a t) ts in
      record {
        send = rest.send;
        received = rest.received;
        bytes = rest.bytes;
        failures = rest.failures;
        short = rest.short;
      }

  -- The counts of the results are, modulo 2 ^ 64, the sums over all workers, whatever the results
  -- held before, and `packages_lost` is the difference of the packets sent and received.
  pub get_results_lem :
      (n : ℤ) (ts : List (SenderThread D)) (before : Results D)
      → let r = get_results n ts before in
        IsTotal r ts × (r.packages_lost ≡ sub64 r.counter_send r.counter_received)
  unfolding get_results
  get_results_lem n ts before =
      let a = add_threads-Adds (clear_results before) ts in
      (
        record {
          send = a.send ∙ add_all-zero (each (λ t. t.counter_send) ts);
          received = a.received ∙ add_all-zero (each (λ t. t.receiver.counter_received) ts);
          bytes = a.bytes ∙ add_all-zero (each (λ t. t.receiver.bytes_received) ts);
          failures = a.failures ∙ add_all-zero (each (λ t. t.errors) ts);
          short = a.short ∙ add_all-zero (each (λ t. t.counter_0bytes) ts);
        },
        refl,
      )

length-add_codes : (codes more : List ℕ) → length (add_codes codes more) ≡ length codes
unfolding add_codes
length-add_codes [] more = refl
length-add_codes (a ∷ codes) [] = refl
length-add_codes (a ∷ codes) (b ∷ more) = ap suc (length-add_codes codes more)

get_or-add_codes :
    (codes more : List ℕ) (i : ℕ)
    → length codes ≡ length more
    → get_or (add_codes codes more) i 0 % word_mod ≡ (get_or codes i 0 + get_or more i 0) % word_mod
unfolding add_codes add64
get_or-add_codes [] [] i l = refl
get_or-add_codes [] (b ∷ more) i l = ground arith
get_or-add_codes (a ∷ codes) [] i l = ground arith
get_or-add_codes (a ∷ codes) (b ∷ more) zero l = omega arith
get_or-add_codes (a ∷ codes) (b ∷ more) (suc i) l = get_or-add_codes codes more i (omega (arith, l))

abbrev zeros : ℕ → List ℕ
zeros n = replicate n 0

get_or-zeros : (n i : ℕ) → get_or (zeros n) i 0 ≡ zero
get_or-zeros zero i = refl
get_or-zeros (suc n) zero = refl
get_or-zeros (suc n) (suc i) = get_or-zeros n i

length-zeros : (n : ℕ) → length (zeros n) ≡ n
length-zeros zero = refl
length-zeros (suc n) = ap suc (length-zeros n)

module _ {D : Type 0} ⦃d : Double D⦄ where
  add_threads-codes :
      (a : Results D) (ts : List (SenderThread D)) (i : ℕ)
      → length a.counter_errorcodes ≡ error_codes
      → All (λ t. length t.counter_errorcodes ≡ error_codes) ts
      → get_or (add_threads a ts).counter_errorcodes i 0 % word_mod
        ≡ (get_or a.counter_errorcodes i 0 + sum (each (λ t. get_or t.counter_errorcodes i 0) ts))
          % word_mod
  unfolding add_threads
  add_threads-codes a [] i l h = omega arith
  add_threads-codes a (t ∷ ts) i l (k, h) =
      let rest =
        add_threads-codes (add_thread a t) ts i
          (length-add_codes a.counter_errorcodes t.counter_errorcodes ∙ l) h in
      let one = get_or-add_codes a.counter_errorcodes t.counter_errorcodes i (l ∙ sym k) in
      omega (arith, rest, one)

  -- In the results each error code has, modulo 2 ^ 64, the sum of what the workers counted for it,
  -- if their tables have their 255 places.
  get_results_codes :
      (n : ℤ) (ts : List (SenderThread D)) (before : Results D) (i : ℕ)
      → All (λ t. length t.counter_errorcodes ≡ error_codes) ts
      → get_or (get_results n ts before).counter_errorcodes i 0 % word_mod
        ≡ sum (each (λ t. get_or t.counter_errorcodes i 0) ts) % word_mod
  unfolding get_results
  get_results_codes n ts before i h =
      let a = add_threads-codes (clear_results before) ts i (length-zeros error_codes) h in
      omega (arith, a, get_or-zeros error_codes i)

module _ {D : Type 0} where
  record AddsCounter (a c : Counter D) (ts : List (SenderThread D)) : Type 0 where
    send : c.packets_send ≡ add_all a.packets_send (each (λ t. t.counter_send) ts)
    received :
        c.packets_received ≡ add_all a.packets_received (each (λ t. t.receiver.counter_received) ts)
    bytes_in : c.bytes_received ≡ a.bytes_received
    bytes_out : c.bytes_send ≡ a.bytes_send
    time : c.sample_time ≡ a.sample_time

  add_counters-AddsCounter :
      (a : Counter D) (ts : List (SenderThread D)) → AddsCounter a (add_counters a ts) ts
  unfolding add_counters add_all
  add_counters-AddsCounter a [] = record {
    send = refl;
    received = refl;
    bytes_in = refl;
    bytes_out = refl;
    time = refl;
  }
  add_counters-AddsCounter a (t ∷ ts) =
      let rest =
        add_counters-AddsCounter
          (record a {
            packets_send = add64 a.packets_send t.counter_send;
            packets_received = add64 a.packets_received t.receiver.counter_received;
          })
          ts in
      record {
        send = rest.send;
        received = rest.received;
        bytes_in = rest.bytes_in;
        bytes_out = rest.bytes_out;
        time = rest.time;
      }

  -- `getCounter` of the sender returns, modulo 2 ^ 64, the packets that all workers have sent and
  -- received, with the time of the sample; its bytes are always 0.
  get_sender_counter_lem :
      (garbage : Counter D) (now : D) (ts : List (SenderThread D))
      → get_sender_counter garbage now ts ≡ record {
        packets_received = sum (each (λ t. t.receiver.counter_received) ts) % word_mod;
        packets_send = sum (each (λ t. t.counter_send) ts) % word_mod;
        bytes_received = 0;
        bytes_send = 0;
        sample_time = now;
      }
  unfolding get_sender_counter
  get_sender_counter_lem garbage now ts =
      let a = add_counters-AddsCounter (record (clear garbage) { sample_time = now }) ts in
      ground (
        arith,
        a.send,
        a.received,
        a.bytes_in,
        a.bytes_out,
        a.time,
        add_all-zero (each (λ t. t.counter_send) ts),
        add_all-zero (each (λ t. t.receiver.counter_received) ts),
      )
