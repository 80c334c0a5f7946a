-- ===== src/Sender/Results/Order.antt =====
-- The counts of `getResults` and the order of the pool.
use native.Mathlib.Nat.{ℕ_set}
use mathlib.Core.List.{Perm, Permᴰ}
use mathlib.Core.Logic.{∥∥₁_elim}
use udppingpong.Base.{ℕ, ◌%◌, ◌≡◌, refl, sym, ap, ◌∙◌, List, map, sum, arith}
use udppingpong.Base.Int.{ℤ}
use udppingpong.Base.Word.{word_mod, sub64}
use udppingpong.Double.{Double}
use udppingpong.Sender.Thread.{SenderThread}
use udppingpong.Sender.Results.{Results, get_results}
use udppingpong.Sender.Results.Totals.{each, get_results_lem}

sum-permᴰ :
    {A : Type 0} (f : A → ℕ) {xs ys : List A} → Permᴰ xs ys → sum (map f xs) ≡ sum (map f ys)
sum-permᴰ f Permᴰ.nil = refl
sum-permᴰ f (Permᴰ.cons e d) = omega (arith, ap f e, sum-permᴰ f d)
sum-permᴰ f (Permᴰ.swap e d) = omega (arith, ap f e, ap f d)
sum-permᴰ f (Permᴰ.trans c d) = sum-permᴰ f c ∙ sum-permᴰ f d

pub sum-perm :
    {A : Type 0} (f : A → ℕ) (xs ys : List A) → Perm xs ys → sum (map f xs) ≡ sum (map f ys)
sum-perm f xs ys p = ∥∥₁_elim p (ℕ_set (sum (map f xs)) (sum (map f ys))) (sum-permᴰ f)

-- The results have the same counts.
abbrev pub SameCounts : {D : Type 0} → Results D → Results D → Type 0
SameCounts r q =
    (r.counter_send ≡ q.counter_send)
    × (r.counter_received ≡ q.counter_received)
    × (r.bytes_received ≡ q.bytes_received)
    × (r.counter_errors ≡ q.counter_errors)
    × (r.counter_0bytes ≡ q.counter_0bytes)
    × (r.packages_lost ≡ q.packages_lost)

module _ {D : Type 0} ⦃d : Double D⦄ where
  same_total :
      (f : SenderThread D → ℕ) (ts us : List (SenderThread D)) (m n : ℕ)
      → Perm ts us
      → m ≡ sum (each f ts) % word_mod
      → n ≡ sum (each f us) % word_mod
      → m ≡ n
  same_total f ts us m n p h k = h ∙ ap (λ s. s % word_mod) (sum-perm f ts us p) ∙ sym k

  -- The counts of the results do not depend on the order of the workers in the pool, nor on what the
  -- results held before.
  get_results-perm :
      (n : ℤ) (ts us : List (SenderThread D)) (before other : Results D)
      → Perm ts us
      → SameCounts (get_results n ts before) (get_results n us other)
  get_results-perm n ts us before other p =
      let (h, lost) = get_results_lem n ts before in
      let (k, lost') = get_results_lem n us other in
      let send = same_total (λ t. t.counter_send) ts us _ _ p h.send k.send in
      let received =
        same_total (λ t. t.receiver.counter_received) ts us _ _ p h.received k.received in
      (
        send,
        received,
        same_total (λ t. t.receiver.bytes_received) ts us _ _ p h.bytes k.bytes,
        same_total (λ t. t.errors) ts us _ _ p h.failures k.failures,
        same_total (λ t. t.counter_0bytes) ts us _ _ p h.short k.short,
        lost
            ∙ ap (λ s. sub64 s (get_results n ts before).counter_received) send
            ∙ ap (sub64 (get_results n us other).counter_send) received
            ∙ sym lost',
      )
