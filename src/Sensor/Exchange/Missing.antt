-- ===== src/Sensor/Exchange/Missing.antt =====
-- A sample that has no interfaces.
use udppingpong.Sensor.Exchange.Interfaces.{traffic_read}
use udppingpong.Sensor.Exchange.Laws.{IsNested, IsWords}
use udppingpong.Sensor.Exchange.Values.{first_keys, last_keys}
use udppingpong.Exception.{throw, Exception}
use udppingpong.Sensor.System.{SystemStat}
use udppingpong.Arrays.{Formats, IsExact, set_all, entries_of}
use udppingpong.Base.{◌≡◌, Bool, ap, ◌∙◌, refl, []}
use udppingpong.Sensor.Exchange.Reading.{after_first, interfaces-set_all, read_first}
use udppingpong.Sensor.Exchange.{
  Nested, import_from_array, then_do, import_found, export_to_array, export_interfaces, value,
}

module _ {D N S M T : Type 0} (f : Formats D S) (exact : IsExact f) (g : Nested N S M T)
    (same_key same_name : N → N → Bool) (laws : IsNested same_key g) where
  -- A sample without interfaces cannot be imported from the array it was exported to, if there are
  -- no interfaces in that from before: the exception for the missing key is thrown when the time and
  -- the totals have been assigned, and the other figures and the interfaces stay what they were.
  pub import_from_array_without_interfaces :
      (s old : SystemStat D N) (m : M) (x : Exception)
      → IsWords s.net_total.received
      → IsWords s.net_total.transmitted
      → s.net_total.interfaces ≡ []
      → g.interfaces m ≡ throw x
      → import_from_array f g same_name (export_to_array f g s m) old ≡ (
        record old {
          sample_time = f.to_double (f.show_double s.sample_time);
          net_total = record (old.net_total) {
            received = s.net_total.received;
            transmitted = s.net_total.transmitted;
          };
        },
        throw x,
      )
  unfolding import_from_array export_to_array
  import_from_array_without_interfaces s old m x h1 h2 none_there fresh =
      let m1 = set_all g.outer (entries_of (value f s) first_keys) m in
      let m2 = export_interfaces f g s.net_total.interfaces m1 in
      let m3 = export_to_array f g s m in
      let missing : g.interfaces m3 ≡ throw x =
        interfaces-set_all f g same_key laws (entries_of (value f s) last_keys) m2
        ∙ ap (λ is. g.interfaces (export_interfaces f g is m1)) none_there
        ∙ interfaces-set_all f g same_key laws (entries_of (value f s) first_keys) m
        ∙ fresh in
      ap (λ p. then_do p (λ s. import_found f g same_name m3 s (g.interfaces m3)))
        (read_first f g same_key laws s old m)
      ∙ ap (import_found f g same_name m3 (after_first f g s old)) missing
      ∙ rw
          (
            traffic_read f exact s.net_total.received h1,
            traffic_read f exact s.net_total.transmitted h2,
          )
          refl
