-- ===== src/Exception.antt =====
-- The exceptions of ppl7 that the program throws, and computations that may throw one.
use udppingpong.Base.{ℕ, ◌≡◌, arith, refl, ◌⊎◌, inl, inr}

-- Those that report a failed call carry its `errno`.
pub data Exception : Type 0 where
  could_not_open_socket : Exception
  could_not_bind_to_interface : ℕ → Exception
  socket_exception : ℕ → Exception
  invalid_arguments : Exception
  illegal_argument : Exception
  illegal_port : Exception
  host_not_found : Exception
  resolver_exception : Exception
  not_connected : Exception
  operation_interrupted : Exception
  key_not_found : Exception
  system_call_failed : Exception
  kernel_access_failed : Exception

pub data Result {ℓ} (A : Type ℓ) : Type ℓ where
  ok : A → Result A
  throw : Exception → Result A

abbrev pub Thrown : Type 0
Thrown = Result (Unit {0})

abbrev pub done : Thrown
done = ok tt

infixl 5 ◌>>=◌
abbrev pub ◌>>=◌ {ℓ κ} : {A : Type ℓ} {B : Type κ} → Result A → (A → Result B) → Result B
ok a >>= f = f a
throw e >>= f = throw e

-- If a chain does not throw, neither does its first part.
pub ok_parts :
    {A B : Type 0} (r : Result A) (f : A → Result B) (b : B)
    → (r >>= f) ≡ ok b
    → (a : A) × (r ≡ ok a) × (f a ≡ ok b)
ok_parts (ok a) f b e = (a, refl, e)
ok_parts (throw x) f b e = ground arith

pub Result-cases :
    {A : Type 0} (r : Result A) → ((a : A) × (r ≡ ok a)) ⊎ ((e : Exception) × (r ≡ throw e))
Result-cases (ok a) = inl (a, refl)
Result-cases (throw e) = inr (e, refl)
