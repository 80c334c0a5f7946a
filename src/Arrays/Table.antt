-- ===== src/Arrays/Table.antt =====
-- Concrete arrays and formats: a table is a function of the key, and a string is a number or a time.
use udppingpong.Base.{ℕ, Bool, if◌then◌else◌, refl}
use udppingpong.Base.Int.{ℤ, pos}
use udppingpong.Exception.{Result, ok, throw, key_not_found}
use udppingpong.Arrays.{Arrays, Formats, IsArrays, IsExact}

abbrev pub table : {K S : Type 0} → (K → K → Bool) → Arrays K S (K → Result S)
table same = record { set = λ k s m l. if same k l then ok s else m l; get = λ k m. m k }

abbrev pub nothing : {K S : Type 0} → K → Result S
nothing k = throw key_not_found

pub table-IsArrays :
    {K : Type 0} (S : Type 0) (same : K → K → Bool) → IsArrays {S = S} same (table same)
table-IsArrays S same = record { get_set = λ k l s m. refl }

pub data Text (D : Type 0) : Type 0 where
  word : ℕ → Text D
  int : ℤ → Text D
  time : D → Text D

module _ {D : Type 0} where
  abbrev to_word_of : Text D → ℕ
  to_word_of (word n) = n
  to_word_of (int z) = 0
  to_word_of (time t) = 0

  abbrev to_int_of : Text D → ℤ
  to_int_of (word n) = pos 0
  to_int_of (int z) = z
  to_int_of (time t) = pos 0

  abbrev to_double_of : D → Text D → D
  to_double_of zero (word n) = zero
  to_double_of zero (int z) = zero
  to_double_of zero (time t) = t

  -- `round` is what printing does to a time, `zero` what is read from another string.
  abbrev pub texts : (D → D) → D → Formats D (Text D)
  texts round zero = record {
    show_double = λ t. time (round t);
    show_word = word;
    show_long = word;
    show_int = int;
    to_double = to_double_of zero;
    to_word = to_word_of;
    to_long = to_word_of;
    to_int = to_int_of;
  }

  pub texts-IsExact : (round : D → D) (zero : D) → IsExact (texts round zero)
  texts-IsExact round zero = record {
    read_word = λ n h. refl;
    read_long = λ n h. refl;
    read_int = λ z h. refl;
  }
