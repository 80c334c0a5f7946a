-- ===== src/Sensor/Exchange/Reading.antt =====
-- What an exported sample holds when it is read again.
use udppingpong.Exception.{done}
use udppingpong.Sensor.Exchange.Values.{store, first_keys, last_keys}
use udppingpong.Sensor.{Interface, Cpu}
use udppingpong.Sensor.Exchange.Laws.{IsWords, IsNested, IsInts, IsSysinfo, IsFitting}
use udppingpong.Arrays.{
  Formats, IsExact, apply_all, assign_all, statements_of, has, set_all, entries_of, get-entries_of,
  assign_all-there, statements-IsThere,
}
use udppingpong.Sensor.System.{SystemStat, Sysinfo}
use udppingpong.Base.{
  List, [], ◌∷◌, ◌≡◌, Bool, ◌||◌, true, false, All, arith, ◌∙◌, refl, Bool-cases, inl, inr,
}
use udppingpong.Sensor.Exchange.Keys.{same, same_eq}
use udppingpong.Sensor.Exchange.{
  Nested, value, Key, export_to_array, export_interfaces, export_interface, ok,
}

-- Its counts fit in words, those of the processor in an `int`.
abbrev pub IsFittingStat : {D N : Type 0} → SystemStat D N → Type 0
IsFittingStat s =
    IsWords s.net_total.received
    × IsWords s.net_total.transmitted
    × IsInts s.cpu
    × IsSysinfo s.sysinfo
    × All IsFitting s.net_total.interfaces

or_first : (a b : Bool) → (a || b) ≡ true → b ≡ false → a ≡ true
or_first a b h e = ground arith

module _ {D S : Type 0} (f : Formats D S) (exact : IsExact f) where
  pub cpu_read :
      (c : Cpu)
      → IsInts c
      → record {
        user = f.to_int (f.show_int c.user);
        nice = f.to_int (f.show_int c.nice);
        system = f.to_int (f.show_int c.system);
        idle = f.to_int (f.show_int c.idle);
        iowait = f.to_int (f.show_int c.iowait);
      }
        ≡ c
  cpu_read c (h1, h2, h3, h4, h5) =
      rw
        (
          exact.read_int c.user h1,
          exact.read_int c.nice h2,
          exact.read_int c.system h3,
          exact.read_int c.idle h4,
          exact.read_int c.iowait h5,
        )
        refl

  pub sys_read :
      (s : Sysinfo)
      → IsSysinfo s
      → record {
        uptime = f.to_long (f.show_long s.uptime);
        freeswap = f.to_long (f.show_long s.freeswap);
        totalswap = f.to_long (f.show_long s.totalswap);
        freeram = f.to_long (f.show_long s.freeram);
        bufferram = f.to_long (f.show_long s.bufferram);
        totalram = f.to_long (f.show_long s.totalram);
        sharedram = f.to_long (f.show_long s.sharedram);
        procs = f.to_int (f.show_int s.procs);
      }
        ≡ s
  sys_read s (h1, h2, h3, h4, h5, h6, h7, h8) =
      rw
        (
          exact.read_long s.uptime h1,
          exact.read_long s.freeswap h2,
          exact.read_long s.totalswap h3,
          exact.read_long s.freeram h4,
          exact.read_long s.bufferram h5,
          exact.read_long s.totalram h6,
          exact.read_long s.sharedram h7,
          exact.read_int s.procs h8,
        )
        refl

module _ {D N S M T : Type 0} (f : Formats D S) (g : Nested N S M T) where
  -- The state after the statements before the interfaces, and that after the whole import.
  abbrev pub after_first : SystemStat D N → SystemStat D N → SystemStat D N
  after_first s old = apply_all (value f s) (statements_of (store f) first_keys) old

  abbrev pub after_last : SystemStat D N → SystemStat D N → SystemStat D N
  after_last s t = apply_all (value f s) (statements_of (store f) last_keys) t

  module _ (same_key : N → N → Bool) (laws : IsNested same_key g) where
    get-export_interfaces :
        (k : Key) (is : List (Interface N)) (m : M)
        → g.outer.get k (export_interfaces f g is m) ≡ g.outer.get k m
    get-export_interfaces k [] m = refl
    get-export_interfaces k (i ∷ is) m =
        get-export_interfaces k is (g.set_interface i.name (export_interface f g i) m)
        ∙ laws.get_interface k i.name (export_interface f g i) m

    exported :
        (s : SystemStat D N) (m : M) (k : Key)
        → (has same k first_keys || has same k last_keys) ≡ true
        → g.outer.get k (export_to_array f g s m) ≡ ok (value f s k)
    unfolding export_to_array
    exported s m k h =
        let m1 = set_all g.outer (entries_of (value f s) first_keys) m in
        let m2 = export_interfaces f g s.net_total.interfaces m1 in
        get-entries_of same g.outer laws.outer same_eq (value f s) k last_keys m2
        ∙ elim (Bool-cases (has same k last_keys)) [
          | inl e ↦ rw e refl
          | inr e ↦ rw e (
              get-export_interfaces k s.net_total.interfaces m1
              ∙ get-entries_of same g.outer laws.outer same_eq (value f s) k first_keys m
              ∙ rw (or_first (has same k first_keys) (has same k last_keys) h e) refl)
        ]

    pub interfaces-set_all :
        (entries : List (Key × S)) (m : M)
        → g.interfaces (set_all g.outer entries m) ≡ g.interfaces m
    interfaces-set_all [] m = refl
    interfaces-set_all ((k, s) ∷ rest) m =
        interfaces-set_all rest (g.outer.set k s m) ∙ laws.interfaces_set k s m

    pub listed :
        (i : Interface N) (is : List (Interface N)) (m : M)
        → (entries : List (N × T)) × (g.interfaces (export_interfaces f g (i ∷ is) m) ≡ ok entries)
    listed i [] m = laws.listed i.name (export_interface f g i) m
    listed i (j ∷ js) m = listed j js (g.set_interface i.name (export_interface f g i) m)

    pub read_first :
        (s old : SystemStat D N) (m : M)
        → assign_all g.outer (statements_of (store f) first_keys) (export_to_array f g s m) old
          ≡ (after_first s old, done)
    read_first s old m =
        let array = export_to_array f g s m in
        assign_all-there g.outer (value f s) (statements_of (store f) first_keys) array old (
          statements-IsThere same g.outer (value f s) (store {N = N} f) array first_keys first_keys
            (λ k h. exported s m k (ground (arith, h)))
            (refl, (refl, (refl, (refl, (refl, (refl, (refl, (refl, (refl, tt))))))))))

    pub read_last :
        (s t : SystemStat D N) (m : M)
        → assign_all g.outer (statements_of (store f) last_keys) (export_to_array f g s m) t
          ≡ (after_last s t, done)
    read_last s t m =
        let array = export_to_array f g s m in
        assign_all-there g.outer (value f s) (statements_of (store f) last_keys) array t (
          statements-IsThere same g.outer (value f s) (store {N = N} f) array last_keys last_keys
            (λ k h. exported s m k (ground (arith, h)))
            (
              refl,
              (
                refl,
                (
                  refl,
                  (
                    refl,
                    (refl, (refl, (refl, (refl, (refl, (refl, (refl, (refl, (refl, tt))))))))),
                  ),
                ),
              ),
            ))
