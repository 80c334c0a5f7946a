-- ===== src/Sensor/Exchange/Two.antt =====
-- Concrete arrays of a sample, for machines with up to two interfaces.
use mathlib.Core.Path.{subst}
use udppingpong.Base.{
  ℕ, Bool, true, false, Option, none, some, List, [], ◌∷◌, ◌≡◌, ◌↔◌, refl, if◌then◌else◌, arith,
  All, ap,
}
use udppingpong.Exception.{Result, ok, throw, key_not_found}
use udppingpong.Arrays.Table.{table, table-IsArrays, nothing, Text}
use udppingpong.Sensor.Exchange.{Nested}
use udppingpong.Sensor.Exchange.Laws.{IsNested, found, found_in, HasKeys, KeysAreSet}
use udppingpong.Sensor.Exchange.Keys.{Key, InnerKey, same, same_inner}

-- The names are `false` and `true`.
abbrev pub same_bit : Bool → Bool → Bool
same_bit false false = true
same_bit false true = false
same_bit true false = false
same_bit true true = true

pub same_bit_iff : (a b : Bool) → (same_bit a b ≡ true) ↔ (a ≡ b)
same_bit_iff false false = (λ h. refl, λ h. refl)
same_bit_iff false true = (λ h. ground (arith, h), λ h. ground (arith, h))
same_bit_iff true false = (λ h. ground (arith, h), λ h. ground (arith, h))
same_bit_iff true true = (λ h. refl, λ h. refl)

abbrev pub Inner : Type 0
Inner = InnerKey → Result (Text ℕ)

pub record Array : Type 0 where
  pub values : Key → Result (Text ℕ)
  pub first : Option Inner
  pub second : Option Inner

abbrev pub no_array : Array
no_array = record { values = nothing; first = none; second = none }

abbrev set_in : Bool → Inner → Array → Array
set_in false t m = record m { first = some t }
set_in true t m = record m { second = some t }

abbrev entries_in : Option Inner → Option Inner → Result (List (Bool × Inner))
entries_in none none = throw key_not_found
entries_in none (some b) = ok ((true, b) ∷ [])
entries_in (some a) none = ok ((false, a) ∷ [])
entries_in (some a) (some b) = ok ((false, a) ∷ (true, b) ∷ [])

abbrev show_bit : Bool → Text ℕ
show_bit b = Text.word (if b then 1 else 0)

abbrev pub two : Nested Bool (Text ℕ) Array Inner
two = record {
  outer = record {
    set = λ k s m. record m { values = (table same).set k s m.values };
    get = λ k m. m.values k;
  };
  inner = table same_inner;
  empty = nothing;
  set_interface = set_in;
  interfaces = λ m. entries_in m.first m.second;
  show_name = show_bit;
}

get_in : (k : Key) (n : Bool) (t : Inner) (m : Array) → (set_in n t m).values k ≡ m.values k
get_in k false t m = refl
get_in k true t m = refl

found_entries :
    (n k : Bool) (t : Inner) (m : Array) (a b : Option Inner)
    → found_in same_bit n (two.interfaces (set_in k t (record m { first = a; second = b })))
      ≡ (if same_bit k n then some t else found_in same_bit n (entries_in a b))
found_entries false false t m none none = refl
found_entries false false t m none (some b) = refl
found_entries false false t m (some a) none = refl
found_entries false false t m (some a) (some b) = refl
found_entries false true t m none none = refl
found_entries false true t m none (some b) = refl
found_entries false true t m (some a) none = refl
found_entries false true t m (some a) (some b) = refl
found_entries true false t m none none = refl
found_entries true false t m none (some b) = refl
found_entries true false t m (some a) none = refl
found_entries true false t m (some a) (some b) = refl
found_entries true true t m none none = refl
found_entries true true t m none (some b) = refl
found_entries true true t m (some a) none = refl
found_entries true true t m (some a) (some b) = refl

listed_in :
    (n : Bool) (t : Inner) (m : Array) (a b : Option Inner)
    → (entries : List (Bool × Inner)) × (two.interfaces
          (set_in n t (record m { first = a; second = b }))
        ≡ ok entries)
listed_in false t m a none = ((false, t) ∷ [], refl)
listed_in false t m a (some b) = ((false, t) ∷ (true, b) ∷ [], refl)
listed_in true t m none b = ((true, t) ∷ [], refl)
listed_in true t m (some a) b = ((false, a) ∷ (true, t) ∷ [], refl)

-- The entries of an array, none if there is none.
abbrev held : Result (List (Bool × Inner)) → List (Bool × Inner)
held (ok entries) = entries
held (throw e) = []

abbrev IsOnce : List (Bool × Inner) → Type 0
IsOnce entries = All (λ e. found same_bit e.0 entries ≡ some e.1) entries

held-IsOnce : (a b : Option Inner) → IsOnce (held (entries_in a b))
held-IsOnce none none = tt
held-IsOnce none (some b) = (refl, tt)
held-IsOnce (some a) none = (refl, tt)
held-IsOnce (some a) (some b) = (refl, (refl, tt))

pub two-IsNested : IsNested same_bit two
two-IsNested = record {
  outer = record { get_set = λ k l s m. refl };
  inner = table-IsArrays (Text ℕ) same_inner;
  get_interface = get_in;
  interfaces_set = λ k s m. refl;
  found_interface = λ n k t m. found_entries n k t m m.first m.second;
  listed = λ n t m. listed_in n t m m.first m.second;
  once = λ m entries h. subst IsOnce (ap held h) (held-IsOnce m.first m.second);
}

set_in-HasKeys :
    (P : Bool → Type 0) (n : Bool) (t : Inner) (m : Array) (a b : Option Inner)
    → P n
    → HasKeys P (entries_in a b)
    → HasKeys P (two.interfaces (set_in n t (record m { first = a; second = b })))
set_in-HasKeys P false t m none none p h = (p, tt)
set_in-HasKeys P false t m none (some b) p h = (p, h)
set_in-HasKeys P false t m (some a) none p h = (p, tt)
set_in-HasKeys P false t m (some a) (some b) p h = (p, h.1)
set_in-HasKeys P true t m none none p h = (p, tt)
set_in-HasKeys P true t m none (some b) p h = (p, tt)
set_in-HasKeys P true t m (some a) none p h = (h.0, (p, tt))
set_in-HasKeys P true t m (some a) (some b) p h = (h.0, (p, tt))

pub two-KeysAreSet : KeysAreSet two
two-KeysAreSet P n t m p h = set_in-HasKeys P n t m m.first m.second p h
