-- ===== src/Sender/Results/Pool.antt =====
-- What `getResults` promises of its pool, whose order does not matter: the sums over all workers.
use native.Mathlib.Nat.{ℕ_set}
use mathlib.Core.List.{Perm}
use mathlib.Core.Quot
use mathlib.Core.Quot.{Quot, Quot-set}
use udppingpong.Base.{ℕ, ◌%◌, ◌≡◌, refl, ap, List, map, sum}
use udppingpong.Base.Int.{ℤ}
use udppingpong.Base.Word.{word_mod, sub64}
use udppingpong.Double.{Double}
use udppingpong.Sender.Thread.{SenderThread}
use udppingpong.Sender.Results.{Results, get_results}
use udppingpong.Sender.Results.Order.{sum-perm}
use udppingpong.Sender.Results.Totals.{get_results_lem}

-- The workers without their order.
abbrev pub Pool : Type 0 → Type 0
Pool D = Quot {α = List (SenderThread D)} Perm

module _ {D : Type 0} where
  -- The sum of a number over the workers, as a 64-bit word.
  unfoldable pub total : (SenderThread D → ℕ) → Pool D → ℕ
  total f =
      Quot.lift ℕ_set (λ ts. sum (map f ts) % word_mod)
        (λ ts us p. ap (λ n. n % word_mod) (sum-perm f ts us p))

module _ {D : Type 0} ⦃d : Double D⦄ where
  -- The counts of the results are, modulo 2 ^ 64, the sums over the unordered pool, whatever the
  -- results held before, and the packets lost are the difference of those sent and received.
  pub get_results-refines :
      (n : ℤ) (ts : List (SenderThread D)) (before : Results D)
      → let r = get_results n ts before in
        let pool : Pool D = Quot.mk ts in
        (r.counter_send ≡ total (λ t. t.counter_send) pool)
        × (r.counter_received ≡ total (λ t. t.receiver.counter_received) pool)
        × (r.bytes_received ≡ total (λ t. t.receiver.bytes_received) pool)
        × (r.counter_errors ≡ total (λ t. t.errors) pool)
        × (r.counter_0bytes ≡ total (λ t. t.counter_0bytes) pool)
        × (r.packages_lost
            ≡ sub64
                (total (λ t. t.counter_send) pool)
                (total (λ t. t.receiver.counter_received) pool))
  unfolding total
  get_results-refines n ts before =
      let (h, lost) = get_results_lem n ts before in
      (h.send, h.received, h.bytes, h.failures, h.short, rw (lost, h.send, h.received) refl)
