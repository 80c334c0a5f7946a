-- ===== src/Double/Extremes.antt =====
-- The way the program looks for the least and the greatest of some times: it starts from 0.0, which
-- stands for "none so far" in the search for the least.
use udppingpong.Base.{
  ◌≡◌, refl, ◌⊎◌, inl, inr, true, false, List, [], ◌∷◌, arith, if◌then◌else◌, Bool-cases, All, sym,
}
use mathlib.Core.Path.{subst}
use udppingpong.Double.{Double, IsOrdered}

-- `x` is an element.
abbrev pub Has : {D : Type 0} → D → List D → Type 0
Has x [] = ⊥
Has x (y ∷ ys) = (x ≡ y) ⊎ Has x ys

module _ {D : Type 0} ⦃d : Double D⦄ where
  open d use {nought, lt, eq}

  unfoldable pub mins : D → List D → D
  mins m [] = m
  mins m (x ∷ xs) = mins (if eq m nought then x else if lt x m then x else m) xs

  unfoldable pub maxs : D → List D → D
  maxs m [] = m
  maxs m (x ∷ xs) = maxs (if lt m x then x else m) xs

  abbrev pub IsPositive : D → Type 0
  IsPositive x = lt nought x ≡ true

  -- `m` is one of the times, and none is less.
  abbrev pub IsMinimum : D → List D → Type 0
  IsMinimum m xs = Has m xs × All (λ x. lt x m ≡ false) xs

  -- `m` is one of the times, and is less than none.
  abbrev pub IsMaximum : D → List D → Type 0
  IsMaximum m xs = Has m xs × All (λ x. lt m x ≡ false) xs

  module _ (laws : IsOrdered D) where
    open laws use {lt_trans, lt_irrefl, lt_ne, eq_refl_nought}

    -- `l` is the smallest of a number and a list.
    abbrev IsLeast : D → D → List D → Type 0
    IsLeast m l xs = ((l ≡ m) ⊎ ((lt l m ≡ true) × Has l xs)) × All (λ x. lt x l ≡ false) xs

    IsLeast-less : (m x l : D) (xs : List D) → lt x m ≡ true → IsLeast x l xs → IsLeast m l (x ∷ xs)
    IsLeast-less m x l xs less (inl e, ls) = (inr (rw e less, inl e), (rw e (lt_irrefl x), ls))
    IsLeast-less m x l xs less (inr (h, k), ls) =
        (inr (lt_trans l x m h less, inr k), (ground (arith, lt_trans x l x, lt_irrefl x), ls))

    IsLeast-skip :
        (m x l : D) (xs : List D) → lt x m ≡ false → IsLeast m l xs → IsLeast m l (x ∷ xs)
    IsLeast-skip m x l xs more (inl e, ls) = (inl e, (rw e more, ls))
    IsLeast-skip m x l xs more (inr (h, k), ls) =
        (inr (h, inr k), (ground (arith, lt_trans x l m), ls))

    mins-IsLeast :
        (m : D) (xs : List D) → IsPositive m → All IsPositive xs → IsLeast m (mins m xs) xs
    unfolding mins
    mins-IsLeast m [] p ps = (inl refl, tt)
    mins-IsLeast m (x ∷ xs) p (q, qs) = elim (Bool-cases (lt x m)) [
      | inl less ↦
          let same : mins m (x ∷ xs) ≡ mins x xs = rw (lt_ne nought m p, less) in
          subst (λ l. IsLeast m l (x ∷ xs)) (sym same)
            (IsLeast-less m x (mins x xs) xs less (mins-IsLeast x xs q qs))
      | inr more ↦
          let same : mins m (x ∷ xs) ≡ mins m xs = rw (lt_ne nought m p, more) in
          subst (λ l. IsLeast m l (x ∷ xs)) (sym same)
            (IsLeast-skip m x (mins m xs) xs more (mins-IsLeast m xs p qs))
    ]

    -- Of positive times, the search for the least finds one that no other is less than.
    pub mins_first :
        (x : D) (xs : List D) → All IsPositive (x ∷ xs) → IsMinimum (mins nought (x ∷ xs)) (x ∷ xs)
    mins_first x xs (p, ps) =
        let same : mins nought (x ∷ xs) ≡ mins x xs = unfold mins in rw eq_refl_nought in
        subst (λ l. IsMinimum l (x ∷ xs)) (sym same) (found (mins x xs) (mins-IsLeast x xs p ps))
      where
        found : (l : D) → IsLeast x l xs → IsMinimum l (x ∷ xs)
        found l (inl e, ls) = (inl e, (rw e (lt_irrefl x), ls))
        found l (inr (h, k), ls) = (inr k, (ground (arith, lt_trans x l x, lt_irrefl x), ls))

    abbrev IsGreatest : D → D → List D → Type 0
    IsGreatest m g xs = ((g ≡ m) ⊎ ((lt m g ≡ true) × Has g xs)) × All (λ x. lt g x ≡ false) xs

    IsGreatest-more :
        (m x g : D) (xs : List D) → lt m x ≡ true → IsGreatest x g xs → IsGreatest m g (x ∷ xs)
    IsGreatest-more m x g xs more (inl e, gs) = (inr (rw e more, inl e), (rw e (lt_irrefl x), gs))
    IsGreatest-more m x g xs more (inr (h, k), gs) =
        (inr (lt_trans m x g more h, inr k), (ground (arith, lt_trans x g x, lt_irrefl x), gs))

    IsGreatest-skip :
        (m x g : D) (xs : List D) → lt m x ≡ false → IsGreatest m g xs → IsGreatest m g (x ∷ xs)
    IsGreatest-skip m x g xs less (inl e, gs) = (inl e, (rw e less, gs))
    IsGreatest-skip m x g xs less (inr (h, k), gs) =
        (inr (h, inr k), (ground (arith, lt_trans m g x), gs))

    maxs-IsGreatest : (m : D) (xs : List D) → IsGreatest m (maxs m xs) xs
    unfolding maxs
    maxs-IsGreatest m [] = (inl refl, tt)
    maxs-IsGreatest m (x ∷ xs) = elim (Bool-cases (lt m x)) [
      | inl more ↦
          let same : maxs m (x ∷ xs) ≡ maxs x xs = rw more in
          subst (λ g. IsGreatest m g (x ∷ xs)) (sym same)
            (IsGreatest-more m x (maxs x xs) xs more (maxs-IsGreatest x xs))
      | inr less ↦
          let same : maxs m (x ∷ xs) ≡ maxs m xs = rw less in
          subst (λ g. IsGreatest m g (x ∷ xs)) (sym same)
            (IsGreatest-skip m x (maxs m xs) xs less (maxs-IsGreatest m xs))
    ]

    -- The greatest, where the first time is positive.
    pub maxs_first :
        (x : D) (xs : List D) → IsPositive x → IsMaximum (maxs nought (x ∷ xs)) (x ∷ xs)
    maxs_first x xs p =
        let same : maxs nought (x ∷ xs) ≡ maxs x xs = unfold maxs in rw p in
        subst (λ g. IsMaximum g (x ∷ xs)) (sym same) (found (maxs x xs) (maxs-IsGreatest x xs))
      where
        found : (g : D) → IsGreatest x g xs → IsMaximum g (x ∷ xs)
        found g (inl e, gs) = (inl e, (rw e (lt_irrefl x), gs))
        found g (inr (h, k), gs) = (inr k, (ground (arith, lt_trans x g x, lt_irrefl x), gs))
