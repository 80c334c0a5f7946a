-- ===== src/Counter/Exchange/RoundTrip.antt =====
-- A counter that goes through an array.
use udppingpong.Base.{◌∙◌, ◌<◌, ◌≡◌, refl}
use udppingpong.Base.Word.{word_mod}
use udppingpong.Exception.{ok, done}
use udppingpong.Arrays.{Arrays, Formats, IsArrays, IsExact, get-set_all, IsThere, assign_all-there}
use udppingpong.Counter.{Counter}
use udppingpong.Counter.Exchange.{
  Key, sample_time, packets_received, packets_send, bytes_received, bytes_send, same, entries,
  value, assignments, export_to_array, import_from_array,
}

module _ {D S M : Type 0} (f : Formats D S) (a : Arrays Key S M) (laws : IsArrays same a)
    (exact : IsExact f) where
  open f use {show_double, show_word, to_double}

  exported :
      (c : Counter D) (m : M) (k : Key) → a.get k (export_to_array f a c m) ≡ ok (value f c k)
  unfolding export_to_array
  exported c m sample_time = get-set_all same a laws sample_time (entries f c) m
  exported c m packets_received = get-set_all same a laws packets_received (entries f c) m
  exported c m packets_send = get-set_all same a laws packets_send (entries f c) m
  exported c m bytes_received = get-set_all same a laws bytes_received (entries f c) m
  exported c m bytes_send = get-set_all same a laws bytes_send (entries f c) m

  -- A counter that was exported and is imported again, into any counter, has its four counts back;
  -- its time has gone through six decimals. No exception is thrown.
  pub import_from_array-export_to_array :
      (c old : Counter D) (m : M)
      → c.packets_received < word_mod
      → c.packets_send < word_mod
      → c.bytes_received < word_mod
      → c.bytes_send < word_mod
      → import_from_array f a (export_to_array f a c m) old
        ≡ (record c { sample_time = to_double (show_double c.sample_time) }, done)
  unfolding import_from_array
  import_from_array-export_to_array c old m h1 h2 h3 h4 =
      let array = export_to_array f a c m in
      let there : IsThere a (value f c) array (assignments f) = (
        exported c m sample_time,
        (
          exported c m packets_received,
          (exported c m packets_send, (exported c m bytes_received, (exported c m bytes_send, tt))),
        ),
      ) in
      assign_all-there a (value f c) (assignments f) array old there
      ∙ rw
          (
            exact.read_word c.packets_received h1,
            exact.read_word c.packets_send h2,
            exact.read_word c.bytes_received h3,
            exact.read_word c.bytes_send h4,
          )
          refl
