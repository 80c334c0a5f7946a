-- ===== src/Base/Every.antt =====
-- What holds of every element of a list, and of some element.
use mathlib.Core.List.{List, [], ◌∷◌, map, Mem, mem-cons_self, mem-cons_of_mem}
use mathlib.Core.Logic.{◌⊎◌}
use udppingpong.Base.Lists.{All}

module _ {X Y : Type 0} (P : Y → Type 0) (f : X → Y) where
  pub All-map : (xs : List X) → All (λ x. P (f x)) xs → All P (map f xs)
  All-map [] all = tt
  All-map (x ∷ xs) (one, all) = (one, All-map xs all)

  pub map-All : (xs : List X) → All P (map f xs) → All (λ x. P (f x)) xs
  map-All [] all = tt
  map-All (x ∷ xs) (one, all) = (one, map-All xs all)

module _ {X : Type 0} where
  pub All-imp : (P Q : X → Type 0) → ((x : X) → P x → Q x) → (xs : List X) → All P xs → All Q xs
  All-imp P Q f [] all = tt
  All-imp P Q f (x ∷ xs) (one, all) = (f x one, All-imp P Q f xs all)

  pub All-Mem : (P : X → Type 0) (xs : List X) → ((x : X) → Mem x xs → P x) → All P xs
  All-Mem P [] h = tt
  All-Mem P (x ∷ xs) h = (h x mem-cons_self, All-Mem P xs (λ y m. h y (mem-cons_of_mem x m)))

module _ {X : Type 0} where
  -- Of one element at least.
  abbrev pub Any : (X → Type 0) → List X → Type 0
  Any P [] = ⊥
  Any P (x ∷ xs) = P x ⊎ Any P xs
