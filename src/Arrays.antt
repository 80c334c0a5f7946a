-- ===== src/Arrays.antt =====
-- What the program uses of `AssocArray` and of the formatting of ppl7, as an interface: `K` is the
-- type of keys, `S` that of strings, `M` that of arrays.
pub mod Table
use udppingpong.Base.{
  ℕ, ◌<◌, ◌≤◌, Bool, List, [], ◌∷◌, ◌≡◌, refl, if◌then◌else◌, ◌^◌, All, ◌++◌, map, false, true,
  ◌||◌, ◌∙◌, Bool-cases, inl, inr, arith,
}
use udppingpong.Base.Int.{ℤ, pos_part, neg_part}
use udppingpong.Base.Word.{word_mod}
use udppingpong.Exception.{Result, ok, throw, Thrown, done}

pub record Arrays (K S M : Type 0) : Type 0 where
  pub set : K → S → M → M
  -- `getString`, which throws for a missing key
  pub get : K → M → Result S

-- `show_double` formats by `%0.6f`, `show_word` by `%lu`, `show_long` by `%ld`, `show_int` by `%d`;
-- `to_word` is `toUnsignedLong`. A `long` is the word of its bits.
pub record Formats (D S : Type 0) : Type 0 where
  pub show_double : D → S
  pub show_word : ℕ → S
  pub show_long : ℕ → S
  pub show_int : ℤ → S
  pub to_double : S → D
  pub to_word : S → ℕ
  pub to_long : S → ℕ
  pub to_int : S → ℤ

-- An array gives back what was last set for a key.
pub record IsArrays {K S M : Type 0} (same : K → K → Bool) (a : Arrays K S M) : Type 0 where
  pub get_set :
      (k l : K) (s : S) (m : M) → a.get k (a.set l s m) ≡ (if same l k then ok s else a.get k m)

-- The range of an `int`.
abbrev pub IsInt : ℤ → Type 0
IsInt z = (pos_part z < 2 ^ 31) × (neg_part z ≤ 2 ^ 31)

-- A word, a `long` or an `int` that was printed is read as itself.
pub record IsExact {D S : Type 0} (f : Formats D S) : Type 0 where
  pub read_word : (n : ℕ) → n < word_mod → f.to_word (f.show_word n) ≡ n
  pub read_long : (n : ℕ) → n < word_mod → f.to_long (f.show_long n) ≡ n
  pub read_int : (z : ℤ) → IsInt z → f.to_int (f.show_int z) ≡ z

module _ {K S M : Type 0} (a : Arrays K S M) where
  -- One `setf` after the other.
  abbrev pub set_all : List (K × S) → M → M
  set_all [] m = m
  set_all ((k, s) ∷ rest) m = set_all rest (a.set k s m)

  -- Statements that each read a key and assign what they have read. An exception ends them; what
  -- was assigned before it stays.
  abbrev pub assign_all {ℓ} : {T : Type ℓ} → List (K × (S → T → T)) → M → T → T × Thrown
  assign_all [] m t = (t, done)
  assign_all ((k, f) ∷ rest) m t = elim (a.get k m) [
    | ok s ↦ assign_all rest m (f s t)
    | throw e ↦ (t, throw e)
  ]

-- The assignments of the statements, where the keys hold the values `v`.
abbrev pub apply_all : {K S T : Type 0} → (K → S) → List (K × (S → T → T)) → T → T
apply_all v [] t = t
apply_all v ((k, f) ∷ rest) t = apply_all v rest (f (v k) t)

module _ {K S M T : Type 0} (a : Arrays K S M) (v : K → S) where
  -- Every key that is read is there, with the value `v`.
  abbrev pub IsThere : M → List (K × (S → T → T)) → Type 0
  IsThere m steps = All (λ p. a.get p.0 m ≡ ok (v p.0)) steps

  pub assign_all-there :
      (steps : List (K × (S → T → T))) (m : M) (t : T)
      → IsThere m steps
      → assign_all a steps m t ≡ (apply_all v steps t, done)
  assign_all-there [] m t h = refl
  assign_all-there ((k, f) ∷ rest) m t (h, hs) =
      rw (h, assign_all) (assign_all-there rest m (f (v k) t) hs)

module _ {K S : Type 0} (same : K → K → Bool) where
  -- What a list of entries holds for a key: the last entry.
  abbrev pub look : K → List (K × S) → Result S → Result S
  look k [] before = before
  look k ((l, s) ∷ rest) before = look k rest (if same l k then ok s else before)

-- The entries for some keys.
abbrev pub entries_of : {K S : Type 0} → (K → S) → List K → List (K × S)
entries_of v ks = map (λ k. (k, v k)) ks

-- The statements that read some keys, each with what is done with its string.
abbrev pub statements_of : {K S T : Type 0} → (K → S → T → T) → List K → List (K × (S → T → T))
statements_of f ks = map (λ k. (k, f k)) ks

abbrev pub has : {K : Type 0} → (K → K → Bool) → K → List K → Bool
has same k [] = false
has same k (l ∷ ls) = same l k || has same k ls

module _ {K S M : Type 0} (same : K → K → Bool) (a : Arrays K S M) (laws : IsArrays same a) where
  pub get-set_all :
      (k : K) (entries : List (K × S)) (m : M)
      → a.get k (set_all a entries m) ≡ look same k entries (a.get k m)
  get-set_all k [] m = refl
  get-set_all k ((l, s) ∷ rest) m = rw (get-set_all k rest (a.set l s m), laws.get_set k l s m) refl

  module _ (same_eq : (k l : K) → same k l ≡ true → k ≡ l) (v : K → S) where
    look-entries_of :
        (k : K) (ks : List K) (before : Result S)
        → look same k (entries_of v ks) before ≡ (if has same k ks then ok (v k) else before)
    look-entries_of k [] before = refl
    look-entries_of k (l ∷ ls) before =
        look-entries_of k ls (if same l k then ok (v l) else before)
        ∙ elim (Bool-cases (same l k)) [
          | inl e ↦ rw (e, same_eq l k e) (ground arith)
          | inr e ↦ rw e refl
        ]

    -- An array in which some keys were set has them.
    pub get-entries_of :
        (k : K) (ks : List K) (m : M)
        → a.get k (set_all a (entries_of v ks) m) ≡ (if has same k ks then ok (v k) else a.get k m)
    get-entries_of k ks m = get-set_all k (entries_of v ks) m ∙ look-entries_of k ks (a.get k m)

module _ {K S M T : Type 0} (same : K → K → Bool) (a : Arrays K S M) (v : K → S)
    (f : K → S → T → T) where
  -- Statements find what they read if every key of a list that holds theirs is there.
  pub statements-IsThere :
      (m : M) (ks ls : List K)
      → ((k : K) → has same k ks ≡ true → a.get k m ≡ ok (v k))
      → All (λ l. has same l ks ≡ true) ls
      → IsThere a v m (statements_of f ls)
  statements-IsThere m ks [] h all = tt
  statements-IsThere m ks (l ∷ ls) h (here, all) = (h l here, statements-IsThere m ks ls h all)
