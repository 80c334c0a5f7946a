-- ===== src/Shares.antt =====
-- Dividing a number of queries into equal shares, the way the sender does it twice: each time the
-- rest is divided by the number of shares still to come. A specification, with its two properties.
use native.Mathlib.Decide.{dec_le}
use native.Mathlib.Nat.{
  div-le_self, le-div_iff_mul-le, div-le_of_le-mul, div-mul-le_self, lt-mul-div-succ,
}
use udppingpong.Base.{
  ℕ, zero, suc, ◌+◌, ◌-◌, ◌*◌, ◌/◌, ◌≤◌, ◌≡◌, List, [], ◌∷◌, arith, sum, length, All, ◌<◌,
}

unfoldable pub shares : ℕ → ℕ → List ℕ
shares zero r = []
shares (suc n) r = r / suc n ∷ shares n (r - r / suc n)

-- There are as many shares as asked for.
pub length-shares : (n r : ℕ) → length (shares n r) ≡ n
unfolding shares
length-shares zero r = omega arith
length-shares (suc n) r = omega (arith, length-shares n (r - r / suc n))

-- They add up.
pub sum-shares : (n r : ℕ) → sum (shares (suc n) r) ≡ r
unfolding shares
sum-shares zero r = grind arith
sum-shares (suc n) r =
    grind (arith, sum-shares n (r - r / suc (suc n)), div-le_self r (suc (suc n)))

abbrev pub IsNear : ℕ → ℕ → Type 0
IsNear q x = (q ≤ x) × (x ≤ q + 1)

-- What is left after a share `a` is in the bounds for the others.
rest_bounds :
    (n r q a : ℕ)
    → q * suc n ≤ r
    → r ≤ (q + 1) * suc n
    → q ≤ a
    → a ≤ q + 1
    → a * suc n ≤ r
    → r < suc n * (a + 1)
    → (q * n ≤ r - a) × (r - a ≤ (q + 1) * n)
rest_bounds n r q a h k low high p s = elim (dec_le a q) [
  | yes eq ↦ exact a (omega arith) p s
  | no ne ↦ more a (omega arith) p
]
  where
    exact :
        (b : ℕ)
        → b ≡ q
        → b * suc n ≤ r
        → r < suc n * (b + 1)
        → (q * n ≤ r - b) × (r - b ≤ (q + 1) * n)
    exact b e p s =
        let p' : q * suc n ≤ r = h in let s' : r < suc n * (q + 1) = rw e at s in rw e (omega arith)

    more : (b : ℕ) → b ≡ q + 1 → b * suc n ≤ r → (q * n ≤ r - b) × (r - b ≤ (q + 1) * n)
    more b e p = let p' : (q + 1) * suc n ≤ r = rw e at p in rw e (omega arith)

shares-IsNear : (n r q : ℕ) → q * n ≤ r → r ≤ (q + 1) * n → All (IsNear q) (shares n r)
unfolding shares
shares-IsNear zero r q h k = tt
shares-IsNear (suc n) r q h k =
    let a = r / suc n in
    let positive : 0 < suc n = omega arith in
    let few : r ≤ suc n * (q + 1) = omega arith in
    let low : q ≤ a = (le-div_iff_mul-le positive).1 h in
    let high : a ≤ q + 1 = div-le_of_le-mul (suc n) few in
    let (below, above) =
      rest_bounds n r q a h k low high (div-mul-le_self r (suc n)) (lt-mul-div-succ r positive) in
    ((low, high), shares-IsNear n (r - a) q below above)

-- Each is the quotient or one more.
pub shares_even : (n r : ℕ) → All (IsNear (r / n)) (shares n r)
unfolding shares
shares_even zero r = tt
shares_even (suc n) r = shares-IsNear (suc n) r (r / suc n) (grind arith) (grind arith)
