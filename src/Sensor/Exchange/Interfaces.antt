-- ===== src/Sensor/Exchange/Interfaces.antt =====
-- The interfaces of a sample in its array.
use mathlib.Core.Path.{subst}
use udppingpong.Base.{
  Bool, List, [], ◌∷◌, ◌++◌, Option, none, some, ◌≡◌, All, true, refl, if◌then◌else◌, ◌↔◌, arith,
  Bool-cases, inl, inr, ap, sym, ◌∙◌,
}
use udppingpong.Exception.{ok, throw, done, Thrown}
use udppingpong.Arrays.{
  Formats, IsExact, has, get-entries_of, assign_all-there, statements-IsThere, statements_of,
}
use udppingpong.Sensor.{Traffic, Interface, find, clear_traffic, insert}
use udppingpong.Sensor.Exchange.{
  Nested, import_interface, export_interface, export_interfaces, import_interfaces,
}
use udppingpong.Sensor.Exchange.Keys.{InnerKey, name, same_inner, same_inner_eq}
use udppingpong.Sensor.Exchange.Values.{inner_value, inner_store, traffic_keys}
use udppingpong.Sensor.Exchange.Laws.{
  IsWords, IsFitting, IsUnique, found, found_in, IsNested, IsApart,
}
use udppingpong.Sensor.Network.{or_else, or_else_step, find-insert, or_else-none}

abbrev pub either : {A : Type 0} → Option A → Option A → Option A
either none o = o
either (some a) o = some a

abbrev pub map_option : {A B : Type 0} → (A → B) → Option A → Option B
map_option f none = none
map_option f (some a) = some (f a)

module _ {D S : Type 0} (f : Formats D S) (exact : IsExact f) where
  pub traffic_read :
      (t : Traffic)
      → IsWords t
      → record {
        bytes = f.to_word (f.show_word t.bytes);
        packets = f.to_word (f.show_word t.packets);
        errs = f.to_word (f.show_word t.errs);
        drop = f.to_word (f.show_word t.drop);
      }
        ≡ t
  traffic_read t (h1, h2, h3, h4) =
      rw
        (
          exact.read_word t.bytes h1,
          exact.read_word t.packets h2,
          exact.read_word t.errs h3,
          exact.read_word t.drop h4,
        )
        refl

module _ {D N S M T : Type 0} (f : Formats D S) (exact : IsExact f) (g : Nested N S M T)
    (same_key same_name : N → N → Bool) (laws : IsNested same_key g)
    (same_iff : (a b : N) → (same_name a b ≡ true) ↔ (a ≡ b)) where
  import_interface-export_interface :
      (i : Interface N)
      → IsFitting i
      → import_interface f g i.name (export_interface f g i) ≡ (i, done)
  import_interface-export_interface i (h1, h2) =
      let v = inner_value f g.show_name i in
      let t = export_interface f g i in
      let there : (k : InnerKey)
          → has same_inner k (traffic_keys ++ (name ∷ [])) ≡ true
          → g.inner.get k t ≡ ok (v k) =
        λ k h.
          get-entries_of same_inner g.inner laws.inner same_inner_eq v k
            (traffic_keys ++ (name ∷ [])) g.empty
          ∙ rw h refl in
      assign_all-there g.inner v (statements_of (inner_store {N = N} f) traffic_keys) t
        (record { name = i.name; receive = clear_traffic; transmit = clear_traffic })
        (statements-IsThere same_inner g.inner v (inner_store {N = N} f) t
          (traffic_keys ++ (name ∷ [])) traffic_keys there
          (refl, (refl, (refl, (refl, (refl, (refl, (refl, (refl, tt)))))))))
      ∙ rw (traffic_read f exact i.receive h1, traffic_read f exact i.transmit h2) refl

  pub found-export_interfaces :
      (n : N) (is : List (Interface N)) (m : M)
      → IsApart same_key same_name is n
      → IsUnique same_name is
      → found_in same_key n (g.interfaces (export_interfaces f g is m))
        ≡ either
            (map_option (export_interface f g) (find same_name n is))
            (found_in same_key n (g.interfaces m))
  unfolding find
  found-export_interfaces n [] m apart h = refl
  found-export_interfaces n (i ∷ is) m (differ, apart) (first, unique) =
      let t = export_interface f g i in
      found-export_interfaces n is (g.set_interface i.name t m) apart unique
      ∙ elim (Bool-cases (same_name i.name n)) [
        | inl e ↦
            let none_left : find same_name n is ≡ none =
              subst (λ n. find same_name n is ≡ none) ((same_iff i.name n).0 e) first in
            rw (laws.found_interface n i.name t m, differ ∙ e, e, none_left) refl
        | inr e ↦ rw (laws.found_interface n i.name t m, differ ∙ e, e) refl
      ]

  find-IsFitting :
      (n : N) (i : Interface N) (is : List (Interface N))
      → All IsFitting is
      → find same_name n is ≡ some i
      → (i.name ≡ n) × IsFitting i
  unfolding find
  find-IsFitting n i [] all h = ground arith
  find-IsFitting n i (j ∷ js) (fit, all) h = elim (Bool-cases (same_name j.name n)) [
    | inl e ↦
        let j_is_i : j ≡ i = ground (arith, e, h) in
        (
          ap (λ (i : Interface N). i.name) (sym j_is_i) ∙ (same_iff j.name n).0 e,
          subst IsFitting j_is_i fit,
        )
    | inr e ↦ find-IsFitting n i js all (ground (arith, e, h))
  ]

  import_step :
      (key : N) (t : T) (rest : List (N × T)) (start : List (Interface N)) (i : Interface N)
      → import_interface f g key t ≡ (i, done)
      → import_interfaces f g same_name ((key, t) ∷ rest) start
        ≡ import_interfaces f g same_name rest (insert same_name i start)
  import_step key t rest start i e =
      ap
        (λ (r : Interface N × Thrown). elim (r.1) [
          | ok _ ↦ import_interfaces f g same_name rest (insert same_name r.0 start)
          | throw x ↦ (start, throw x)
        ])
        e

  module _ (is : List (Interface N)) (fitting : All IsFitting is) where
    -- An entry that holds one of the interfaces.
    abbrev pub IsOne : N × T → Type 0
    IsOne (key, t) =
        (i : Interface N) × (find same_name key is ≡ some i) × (t ≡ export_interface f g i)

    abbrev pub one_for : N → Option T → Option (Interface N)
    one_for n none = none
    one_for n (some t) = find same_name n is

    one_for_step :
        (n key : N) (i : Interface N) (t : T) (o : Option T)
        → find same_name key is ≡ some i
        → i.name ≡ key
        → (if same_name i.name n then some i else one_for n o)
          ≡ one_for n (if same_name key n then some t else o)
    one_for_step n key i t o h own =
        ap (λ k. if same_name k n then some i else one_for n o) own
        ∙ elim (Bool-cases (same_name key n)) [
          | inl e ↦ rw e (sym h ∙ ap (λ n. find same_name n is) ((same_iff key n).0 e))
          | inr e ↦ rw e refl
        ]

    pub find-import_interfaces :
        (n : N) (entries : List (N × T)) (start : List (Interface N))
        → All IsOne entries
        → let r = import_interfaces f g same_name entries start in
          (r.1 ≡ done)
          × (find same_name n r.0
              ≡ or_else (find same_name n start) (one_for n (found same_name n entries)))
    find-import_interfaces n [] start all = (refl, or_else-none (find same_name n start))
    find-import_interfaces n ((key, t) ∷ rest) start ((i, h, et), all) =
        let own = find-IsFitting key i is fitting h in
        let read =
          ap (λ k. import_interface f g k t) (sym own.0)
          ∙ ap (import_interface f g i.name) et
          ∙ import_interface-export_interface i own.1 in
        let left = one_for n (found same_name n rest) in
        let more = find-import_interfaces n rest (insert same_name i start) all in
        let held = find same_name n start in
        subst
          (λ (r : List (Interface N) × Thrown).
            (r.1 ≡ done)
            × (find same_name n r.0
                ≡ or_else held (one_for n (found same_name n ((key, t) ∷ rest)))))
          (sym (import_step key t rest start i read))
          (
            more.0,
            more.1
                ∙ ap (λ p. or_else p left) (find-insert same_name same_iff n i start)
                ∙ or_else_step held left i (same_name i.name n)
                ∙ ap (or_else held) (one_for_step n key i t (found same_name n rest) h own.0),
          )
