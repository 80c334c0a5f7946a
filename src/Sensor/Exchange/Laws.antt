-- ===== src/Sensor/Exchange/Laws.antt =====
-- What the arrays of a sample promise, and the samples that fit into one.
use udppingpong.Sensor.System.{Sysinfo}
use udppingpong.Base.Word.{word_mod}
use udppingpong.Base.{Bool, List, [], ◌∷◌, Option, none, some, ◌≡◌, ◌<◌, All, if◌then◌else◌}
use udppingpong.Exception.{Result, ok, throw}
use udppingpong.Arrays.{IsArrays, IsInt}
use udppingpong.Sensor.{Traffic, Interface, find, Cpu}
use udppingpong.Sensor.Exchange.{Nested}
use udppingpong.Sensor.Exchange.Keys.{Key, same, same_inner}

abbrev pub IsWords : Traffic → Type 0
IsWords t =
    (t.bytes < word_mod) × (t.packets < word_mod) × (t.errs < word_mod) × (t.drop < word_mod)

abbrev pub IsInts : Cpu → Type 0
IsInts c = IsInt c.user × IsInt c.nice × IsInt c.system × IsInt c.idle × IsInt c.iowait

abbrev pub IsSysinfo : Sysinfo → Type 0
IsSysinfo s =
    (s.uptime < word_mod)
    × (s.freeswap < word_mod)
    × (s.totalswap < word_mod)
    × (s.freeram < word_mod)
    × (s.bufferram < word_mod)
    × (s.totalram < word_mod)
    × (s.sharedram < word_mod)
    × IsInt s.procs

module _ {N : Type 0} where
  -- Its counts fit in words.
  abbrev pub IsFitting : Interface N → Type 0
  IsFitting i = IsWords i.receive × IsWords i.transmit

module _ {N : Type 0} (same_name : N → N → Bool) where
  -- No two have the same name, as in a map.
  abbrev pub IsUnique : List (Interface N) → Type 0
  IsUnique [] = Unit
  IsUnique (i ∷ is) = (find same_name i.name is ≡ none) × IsUnique is

  -- The array that a list of entries holds for a name.
  abbrev pub found : {T : Type 0} → N → List (N × T) → Option T
  found n [] = none
  found n ((key, t) ∷ rest) = if same_name key n then some t else found n rest

  -- The same for a list that may be missing.
  abbrev pub found_in : {T : Type 0} → N → Result (List (N × T)) → Option T
  found_in n (ok entries) = found n entries
  found_in n (throw e) = none

-- The arrays hold what was set, and setting at one place leaves the others. A list of entries has
-- each key once; `same_key` tells whether two names are the same key, which compares without regard
-- to case, and numbers by their value.
pub record IsNested {N S M T : Type 0} (same_key : N → N → Bool) (g : Nested N S M T) : Type 0 where
  pub outer : IsArrays same g.outer
  pub inner : IsArrays same_inner g.inner
  pub get_interface :
      (k : Key) (n : N) (t : T) (m : M) → g.outer.get k (g.set_interface n t m) ≡ g.outer.get k m
  pub interfaces_set : (k : Key) (s : S) (m : M) → g.interfaces (g.outer.set k s m) ≡ g.interfaces m
  pub found_interface :
      (n k : N) (t : T) (m : M)
      → found_in same_key n (g.interfaces (g.set_interface k t m))
        ≡ (if same_key k n then some t else found_in same_key n (g.interfaces m))
  pub listed :
      (n : N) (t : T) (m : M)
      → (entries : List (N × T)) × (g.interfaces (g.set_interface n t m) ≡ ok entries)
  pub once :
      (m : M) (entries : List (N × T))
      → g.interfaces m ≡ ok entries
      → All (λ e. found same_key e.0 entries ≡ some e.1) entries

module _ {N T : Type 0} where
  -- The names that are the keys of the entries, if there are any.
  abbrev pub HasKeys : (N → Type 0) → Result (List (N × T)) → Type 0
  HasKeys P (ok entries) = All (λ e. P e.0) entries
  HasKeys P (throw e) = Unit

-- The keys of the entries are names that were set.
abbrev pub KeysAreSet : {N S M T : Type 0} → Nested N S M T → Type 1
KeysAreSet {N} {S} {M} {T} g =
    (P : N → Type 0) (n : N) (t : T) (m : M)
    → P n
    → HasKeys P (g.interfaces m)
    → HasKeys P (g.interfaces (g.set_interface n t m))

module _ {N : Type 0} (same_key same_name : N → N → Bool) where
  -- A name is the same key as one of these interfaces only if it is that interface's name.
  abbrev pub IsApart : List (Interface N) → N → Type 0
  IsApart is n = All (λ i. same_key i.name n ≡ same_name i.name n) is
