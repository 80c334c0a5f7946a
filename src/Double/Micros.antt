-- ===== src/Double/Micros.antt =====
-- A stand-in for `double` that can be computed with: whole microseconds (so `mul` and `div` carry
-- the factor 10 ^ 6), with `none` for NaN and for the quotient of a division by zero.
use udppingpong.Base.{◌^◌, false, Option, none, some, arith, if◌then◌else◌}
use udppingpong.Base.Int.{ℤ, pos, ◌+ℤ◌, ◌-ℤ◌, ◌*ℤ◌, tdiv, ltb_ℤ, leb_ℤ, eq_ℤ}
use udppingpong.Double.{Double, IsOrdered}

abbrev pub Micros : Type 0
Micros = Option ℤ

abbrev scale : ℤ
scale = pos (10 ^ 6)

abbrev pub lift₂ {ℓ} : {A : Type ℓ} → A → (ℤ → ℤ → A) → Micros → Micros → A
lift₂ e f (some a) (some b) = f a b
lift₂ e f _ _ = e

abbrev pub fabs_micros : Micros → Micros
fabs_micros none = none
fabs_micros (some a) = some (if ltb_ℤ a (pos 0) then pos 0 -ℤ a else a)

abbrev pub trunc_micros : Micros → ℤ
trunc_micros none = pos 0
trunc_micros (some a) = tdiv a scale

abbrev pub div_micros : ℤ → ℤ → Micros
div_micros a b = if eq_ℤ b (pos 0) then none else some (tdiv (a *ℤ scale) b)

instance abbrev pub micros_double : Double Micros
micros_double = record {
  nought = some (pos 0);
  of_int = λ n. some (n *ℤ scale);
  add = lift₂ none λ a b. some (a +ℤ b);
  sub = lift₂ none λ a b. some (a -ℤ b);
  mul = lift₂ none λ a b. some (tdiv (a *ℤ b) scale);
  div = lift₂ none div_micros;
  fabs = fabs_micros;
  lt = lift₂ false ltb_ℤ;
  le = lift₂ false leb_ℤ;
  eq = lift₂ false eq_ℤ;
  trunc = trunc_micros;
}

pub Micros-IsOrdered : IsOrdered Micros
Micros-IsOrdered = ground arith
