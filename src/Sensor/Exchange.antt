-- ===== src/Sensor/Exchange.antt =====
-- src/SampleSensorData.cpp: `exportToArray` and `importFromArray` of a sample.
pub mod Keys
pub mod Values
pub mod Laws
pub mod Interfaces
pub mod Reading
pub mod RoundTrip
pub mod Missing
pub mod Two
pub mod Examples
use udppingpong.Base.{Bool, List, [], ◌∷◌, ◌++◌}
use udppingpong.Exception.{Result, ok, throw, Thrown, done}
use udppingpong.Arrays.{Arrays, Formats, set_all, assign_all, entries_of, statements_of}
use udppingpong.Sensor.{Interface, clear_traffic, insert}
use udppingpong.Sensor.System.{SystemStat}
use udppingpong.Sensor.Exchange.Keys.{Key, InnerKey, name}
use udppingpong.Sensor.Exchange.Values.{
  first_keys, last_keys, traffic_keys, value, store, inner_value, inner_store,
}

-- The array of a sample, of type `M`, with the arrays of its interfaces, of type `T`: `interfaces`
-- is the array at the key `interface`, entry by entry, and throws if there is none.
pub record Nested (N S M T : Type 0) : Type 0 where
  pub outer : Arrays Key S M
  pub inner : Arrays InnerKey S T
  pub empty : T
  pub set_interface : N → T → M → M
  pub interfaces : M → Result (List (N × T))
  pub show_name : N → S

-- The second part of a method, unless the first throws.
abbrev pub then_do : {T : Type 0} → T × Thrown → (T → T × Thrown) → T × Thrown
then_do (t, ok _) f = f t
then_do (t, throw e) f = (t, throw e)

abbrev pub with_interfaces : {D N : Type 0} → List (Interface N) → SystemStat D N → SystemStat D N
with_interfaces is s = record s { net_total = record (s.net_total) { interfaces = is } }

module _ {D N S M T : Type 0} (f : Formats D S) (g : Nested N S M T) where
  -- The array of an interface.
  abbrev pub export_interface : Interface N → T
  export_interface nif =
      set_all g.inner (entries_of (inner_value f g.show_name nif) (traffic_keys ++ (name ∷ [])))
        g.empty

  abbrev pub export_interfaces : List (Interface N) → M → M
  export_interfaces [] m = m
  export_interfaces (nif ∷ rest) m =
      export_interfaces rest (g.set_interface nif.name (export_interface nif) m)

  unfoldable pub export_to_array : SystemStat D N → M → M
  export_to_array s m = set_all g.outer (entries_of (value f s) last_keys) (
      export_interfaces s.net_total.interfaces
        (set_all g.outer (entries_of (value f s) first_keys) m))

  -- `new` is the empty array, and `list` prints one.
  unfoldable pub print : {P : Type 0} → (M → P) → M → SystemStat D N → P
  unfolding export_to_array
  print list new s = list (export_to_array s new)

  -- The interface of an entry, which has the entry's key for a name.
  abbrev pub import_interface : N → T → Interface N × Thrown
  import_interface key d =
      assign_all g.inner (statements_of (inner_store f) traffic_keys) d
        (record { name = key; receive = clear_traffic; transmit = clear_traffic })

  module _ (same_name : N → N → Bool) where
    abbrev pub import_interfaces : List (N × T) → List (Interface N) → List (Interface N) × Thrown
    import_interfaces [] is = (is, done)
    import_interfaces ((key, d) ∷ rest) is =
        let r = import_interface key d in
        elim (r.1) [
          | ok _ ↦ import_interfaces rest (insert same_name r.0 is)
          | throw e ↦ (is, throw e)
        ]

    -- The interfaces, as they were found, and what is read after them.
    abbrev pub import_found : M → SystemStat D N → Result (List (N × T)) → SystemStat D N × Thrown
    import_found m s (ok entries) =
        let r = import_interfaces entries s.net_total.interfaces in
        then_do (with_interfaces r.0 s, r.1)
          (λ s. assign_all g.outer (statements_of (store f) last_keys) m s)
    import_found m s (throw e) = (s, throw e)

    unfoldable pub import_from_array : M → SystemStat D N → SystemStat D N × Thrown
    import_from_array m s =
        then_do (assign_all g.outer (statements_of (store f) first_keys) m s)
          (λ s. import_found m s (g.interfaces m))
