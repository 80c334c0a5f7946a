-- ===== src/Base/Word.antt =====
-- 64-bit words. An `int64_t` or `unsigned long` counter is its bit pattern, a number below 2 ^ 64;
-- sums and differences wrap.
use udppingpong.Base.{
  ℕ, ◌+◌, ◌-◌, ◌%◌, ◌^◌, ◌≤◌, ◌<◌, ◌≡◌, List, [], ◌∷◌, arith, sum, ltb, if◌then◌else◌,
}
use udppingpong.Base.Int.{ℤ, pos, negsuc}

abbrev pub word_mod : ℕ
word_mod = 2 ^ 64

unfoldable pub add64 : ℕ → ℕ → ℕ
add64 a b = (a + b) % word_mod

unfoldable pub sub64 : ℕ → ℕ → ℕ
sub64 a b = (a + (word_mod - b)) % word_mod

-- The number that the bit pattern of an `int64_t` stands for.
unfoldable pub signed64 : ℕ → ℤ
signed64 w = if ltb w (2 ^ 63) then pos w else negsuc (word_mod - w - 1)

-- The word of a number: that of its bits, for a negative one.
abbrev pub word_of : ℤ → ℕ
word_of (pos n) = n % word_mod
word_of (negsuc n) = word_mod - 1 - n % word_mod

pub add64-lt : (a b : ℕ) → add64 a b < word_mod
unfolding add64
add64-lt a b = omega arith

pub add64_small : (a b : ℕ) → a + b < word_mod → add64 a b ≡ a + b
unfolding add64
add64_small a b h = omega arith

pub add64_assoc : (a b c : ℕ) → add64 (add64 a b) c ≡ add64 a (b + c)
unfolding add64
add64_assoc a b c = omega arith

pub add64-zero : (a : ℕ) → a < word_mod → add64 a 0 ≡ a
unfolding add64
add64-zero a h = omega arith

pub sub64_small : (a b : ℕ) → b ≤ a → a < word_mod → sub64 a b ≡ a - b
unfolding sub64
sub64_small a b h k = omega arith

pub sub64-add64 : (a b : ℕ) → a < word_mod → b < word_mod → sub64 (add64 a b) b ≡ a
unfolding add64 sub64
sub64-add64 a b h k = omega arith

-- A `+=` for each element of a list, first to last.
unfoldable pub add_all : ℕ → List ℕ → ℕ
add_all acc [] = acc
add_all acc (x ∷ xs) = add_all (add64 acc x) xs

pub add_all_lem : (acc : ℕ) (xs : List ℕ) → acc < word_mod → add_all acc xs ≡ add64 acc (sum xs)
unfolding add_all add64
add_all_lem acc [] h = omega arith
add_all_lem acc (x ∷ xs) h = omega (arith, add_all_lem (add64 acc x) xs (omega arith))

pub add_all-zero : (xs : List ℕ) → add_all 0 xs ≡ sum xs % word_mod
unfolding add64
add_all-zero xs = omega (arith, add_all_lem 0 xs (omega arith))
