-- ===== src/Sensor/Exchange/RoundTrip.antt =====
-- A sample that goes through an array.
use udppingpong.Sensor.Network.{or_else}
use udppingpong.Sensor.Exchange.Interfaces.{
  traffic_read, either, map_option, IsOne, one_for, found-export_interfaces, find-import_interfaces,
}
use udppingpong.Sensor.Exchange.Laws.{
  IsNested, IsUnique, found_in, IsFitting, found, KeysAreSet, HasKeys, IsApart,
}
use udppingpong.Sensor.Exchange.Values.{store, first_keys, last_keys}
use udppingpong.Exception.{done, ok, Thrown, throw, key_not_found}
use udppingpong.Sensor.{Interface, find}
use udppingpong.Sensor.System.{SystemStat}
use udppingpong.Arrays.{Formats, assign_all, statements_of, IsExact, set_all, entries_of}
use mathlib.Core.Path.{subst}
use udppingpong.Base.{
  List, ◌≡◌, ◌↔◌, Bool, true, ap, ◌∙◌, refl, All, Option, ◌∷◌, [], none, some, arith, sym,
  Option-cases, inl, inr,
}
use udppingpong.Sensor.Exchange.Reading.{
  IsFittingStat, after_first, after_last, cpu_read, sys_read, interfaces-set_all, listed,
  read_first, read_last,
}
use udppingpong.Sensor.Exchange.{
  Nested, with_interfaces, import_interfaces, import_from_array, then_do, import_found,
  export_to_array, export_interfaces, export_interface, value,
}

module _ {D N S M T : Type 0} (f : Formats D S) (g : Nested N S M T)
    (same_name : N → N → Bool) where
  -- What is left of an import whose first statements and whose interfaces do not throw.
  import_from_array_steps :
      (m : M) (s t : SystemStat D N) (entries : List (N × T)) (r : List (Interface N) × Thrown)
      → assign_all g.outer (statements_of (store f) first_keys) m s ≡ (t, done)
      → g.interfaces m ≡ ok entries
      → import_interfaces f g same_name entries t.net_total.interfaces ≡ r
      → r.1 ≡ done
      → import_from_array f g same_name m s
        ≡ assign_all g.outer (statements_of (store f) last_keys) m (with_interfaces r.0 t)
  unfolding import_from_array
  import_from_array_steps m s t entries r h1 h2 h3 h4 =
      let finish : SystemStat D N → SystemStat D N × Thrown =
        assign_all g.outer (statements_of (store f) last_keys) m in
      ap (λ p. then_do p (λ s. import_found f g same_name m s (g.interfaces m))) h1
      ∙ ap (import_found f g same_name m t) h2
      ∙ ap (λ (r : List (Interface N) × Thrown). then_do (with_interfaces r.0 t, r.1) finish) h3
      ∙ ap (λ x. then_do (with_interfaces r.0 t, x) finish) h4

All-zip :
    {A : Type 0} (P Q R : A → Type 0)
    → ((a : A) → P a → Q a → R a)
    → (xs : List A) → All P xs
    → All Q xs
    → All R xs
All-zip P Q R h [] ps qs = tt
All-zip P Q R h (a ∷ rest) (p, ps) (q, qs) = (h a p q, All-zip P Q R h rest ps qs)

either-none : {A : Type 0} (o : Option A) → either o none ≡ o
either-none none = refl
either-none (some a) = refl

map_option-some :
    {A B : Type 0} (f : A → B) (o : Option A) (b : B)
    → map_option f o ≡ some b
    → (a : A) × (o ≡ some a) × (b ≡ f a)
map_option-some f none b h = ground arith
map_option-some f (some a) b h = (a, refl, ground (arith, h))

module _ {D N S M T : Type 0} (f : Formats D S) (exact : IsExact f) (g : Nested N S M T)
    (same_key same_name : N → N → Bool) (laws : IsNested same_key g) (keys : KeysAreSet g)
    (same_iff : (a b : N) → (same_name a b ≡ true) ↔ (a ≡ b)) where
  -- The values of a sample after it has been printed and read.
  after_lem :
      (s old : SystemStat D N) (is : List (Interface N))
      → IsFittingStat s
      → with_interfaces s.net_total.interfaces
          (after_last f g s (with_interfaces is (after_first f g s old)))
        ≡ record s { sample_time = f.to_double (f.show_double s.sample_time) }
  after_lem s old is (h1, h2, h3, h4, h5) =
      rw
        (
          traffic_read f exact s.net_total.received h1,
          traffic_read f exact s.net_total.transmitted h2,
          cpu_read f exact s.cpu h3,
          sys_read f exact s.sysinfo h4,
        )
        refl

  -- What the exported array holds for a name.
  found-exported :
      (n : N) (is : List (Interface N)) (m : M) (entries : List (N × T))
      → IsApart same_key same_name is n
      → IsUnique same_name is
      → g.interfaces m ≡ throw key_not_found
      → g.interfaces (export_interfaces f g is m) ≡ ok entries
      → found same_key n entries ≡ map_option (export_interface f g) (find same_name n is)
  found-exported n is m entries apart unique fresh e =
      sym (ap (found_in same_key n) e)
      ∙ found-export_interfaces f exact g same_key same_name laws same_iff n is m apart unique
      ∙ ap
          (λ r.
            either (map_option (export_interface f g) (find same_name n is))
              (found_in same_key n r))
          fresh
      ∙ either-none (map_option (export_interface f g) (find same_name n is))

  export_interfaces-HasKeys :
      (P : N → Type 0) (is : List (Interface N)) (m : M)
      → All (λ i. P i.name) is
      → HasKeys P (g.interfaces m)
      → HasKeys P (g.interfaces (export_interfaces f g is m))
  export_interfaces-HasKeys P [] m all h = h
  export_interfaces-HasKeys P (i ∷ is) m (one, all) h =
      let t = export_interface f g i in
      export_interfaces-HasKeys P is (g.set_interface i.name t m) all (keys P i.name t m one h)

  -- What holds of the names of the interfaces holds of the keys of the exported array.
  keys-exported :
      (P : N → Type 0) (is : List (Interface N)) (m : M) (entries : List (N × T))
      → All (λ i. P i.name) is
      → g.interfaces m ≡ throw key_not_found
      → g.interfaces (export_interfaces f g is m) ≡ ok entries
      → All (λ e. P e.0) entries
  keys-exported P is m entries all fresh e =
      subst (HasKeys P) e (export_interfaces-HasKeys P is m all (subst (HasKeys P) (sym fresh) tt))

  found_same :
      (n : N) (entries : List (N × T))
      → All (λ e. same_key e.0 n ≡ same_name e.0 n) entries
      → found same_name n entries ≡ found same_key n entries
  found_same n [] all = refl
  found_same n ((k, t) ∷ rest) (one, all) = rw (one, found_same n rest all) refl

  exported-IsOne :
      (is : List (Interface N)) (fitting : All IsFitting is) (m : M) (entries : List (N × T))
      → All (λ i. IsApart same_key same_name is i.name) is
      → IsUnique same_name is
      → g.interfaces m ≡ throw key_not_found
      → g.interfaces (export_interfaces f g is m) ≡ ok entries
      → All (IsOne f exact g same_key same_name laws same_iff is fitting) entries
  exported-IsOne is fitting m entries apart unique fresh e =
      All-zip (λ (p : N × T). IsApart same_key same_name is p.0)
        (λ (p : N × T). found same_key p.0 entries ≡ some p.1)
        (IsOne f exact g same_key same_name laws same_iff is fitting)
        (λ p a h.
          map_option-some (export_interface f g) (find same_name p.0 is) p.1
            (sym (found-exported p.0 is m entries a unique fresh e) ∙ h))
        entries (keys-exported (IsApart same_key same_name is) is m entries apart fresh e)
        (laws.once (export_interfaces f g is m) entries e)

  one_for-exported :
      (is : List (Interface N)) (fitting : All IsFitting is) (n : N) (o : Option T)
      → o ≡ map_option (export_interface f g) (find same_name n is)
      → one_for f exact g same_key same_name laws same_iff is fitting n o ≡ find same_name n is
  one_for-exported is fitting n o e = elim (Option-cases (find same_name n is)) [
    | inl h ↦
        let no : o ≡ none = e ∙ ap (map_option (export_interface f g)) h in
        ap (one_for f exact g same_key same_name laws same_iff is fitting n) no ∙ sym h
    | inr (i, h) ↦
        ap (one_for f exact g same_key same_name laws same_iff is fitting n)
          (e ∙ ap (map_option (export_interface f g)) h)
  ]

  -- A sample with at least one interface, whose names differ, also as keys of the array, which
  -- ignores their case, and whose counts fit in words, is exported to an array without interfaces and
  -- imported into a sample without interfaces. Then no exception is thrown, every name that is no
  -- other spelling of one of them has the interface it had, the totals, the processor's and the
  -- memory's figures are back, and the time has gone through six decimals.
  pub stat_round_trip :
      (n : N) (s old : SystemStat D N) (m : M) (i : Interface N) (more : List (Interface N))
      → IsFittingStat s
      → s.net_total.interfaces ≡ i ∷ more
      → IsUnique same_name s.net_total.interfaces
      → All (λ i. IsApart same_key same_name s.net_total.interfaces i.name) s.net_total.interfaces
      → IsApart same_key same_name s.net_total.interfaces n
      → g.interfaces m ≡ throw key_not_found
      → old.net_total.interfaces ≡ []
      → let r = import_from_array f g same_name (export_to_array f g s m) old in
        (r.1 ≡ done)
        × (find same_name n (r.0.net_total.interfaces) ≡ find same_name n s.net_total.interfaces)
        × (with_interfaces s.net_total.interfaces r.0
            ≡ record s { sample_time = f.to_double (f.show_double s.sample_time) })
  unfolding export_to_array find
  stat_round_trip n s old m i more fit nonempty unique apart apart_n fresh empty =
      let is = s.net_total.interfaces in
      let fitting = fit.4 in
      let m1 = set_all g.outer (entries_of (value f s) first_keys) m in
      let m2 = export_interfaces f g is m1 in
      let m3 = export_to_array f g s m in
      let fresh1 =
        interfaces-set_all f g same_key laws (entries_of (value f s) first_keys) m ∙ fresh in
      let (entries, held) = listed f g same_key laws i more m1 in
      let held2 : g.interfaces m2 ≡ ok entries =
        ap (λ is. g.interfaces (export_interfaces f g is m1)) nonempty ∙ held in
      let held3 : g.interfaces m3 ≡ ok entries =
        interfaces-set_all f g same_key laws (entries_of (value f s) last_keys) m2 ∙ held2 in
      let ones = exported-IsOne is fitting m1 entries apart unique fresh1 held2 in
      let read =
        find-import_interfaces f exact g same_key same_name laws same_iff is fitting n entries
          old.net_total.interfaces ones in
      let r = import_interfaces f g same_name entries old.net_total.interfaces in
      let steps =
        import_from_array_steps f g same_name m3 old (after_first f g s old) entries r
          (read_first f g same_key laws s old m) held3 refl read.0
        ∙ read_last f g same_key laws s (with_interfaces r.0 (after_first f g s old)) m in
      let found_again : find same_name n r.0 ≡ find same_name n is =
        read.1
        ∙ ap
            (λ b. or_else (find same_name n b) (
              one_for f exact g same_key same_name laws same_iff is fitting n
                (found same_name n entries)))
            empty
        ∙ one_for-exported is fitting n (found same_name n entries) (
            found_same n entries
              (keys-exported (λ k. same_key k n ≡ same_name k n) is m1 entries apart_n fresh1 held2)
            ∙ found-exported n is m1 entries apart_n unique fresh1 held2) in
      subst
        (λ (p : SystemStat D N × Thrown).
          (p.1 ≡ done)
          × (find same_name n (p.0.net_total.interfaces) ≡ find same_name n is)
          × (with_interfaces is p.0
              ≡ record s { sample_time = f.to_double (f.show_double s.sample_time) }))
        (sym steps) (refl, found_again, after_lem s old r.0 fit)
