-- ===== src/Socket/Descriptors.antt =====
-- Bookkeeping of descriptors: how often each was opened and closed by a list of calls.
use udppingpong.Base.{ℕ, ◌+◌, ◌≡◌, List, [], ◌∷◌, ◌++◌, arith, if◌then◌else◌}
use udppingpong.Base.Int.{ℤ, eq_ℤ}
use udppingpong.Socket.{Call, socket, close, is_set}

-- How often the descriptor `fd` is held by a field `sockfd`.
abbrev pub held : ℤ → ℤ → ℕ
held fd sockfd = if is_set sockfd then (if eq_ℤ sockfd fd then 1 else 0) else 0

module _ {A : Type 0} where
  abbrev pub opens : ℤ → Call A → ℕ
  opens fd (socket answer) = if eq_ℤ answer fd then 1 else 0
  opens fd _ = 0

  abbrev pub closes : ℤ → Call A → ℕ
  closes fd (close x) = if eq_ℤ x fd then 1 else 0
  closes fd _ = 0

  abbrev pub opened : ℤ → List (Call A) → ℕ
  opened fd [] = 0
  opened fd (c ∷ cs) = opens fd c + opened fd cs

  abbrev pub closed : ℤ → List (Call A) → ℕ
  closed fd [] = 0
  closed fd (c ∷ cs) = closes fd c + closed fd cs

  pub opened-append :
      (fd : ℤ) (cs ds : List (Call A)) → opened fd (cs ++ ds) ≡ opened fd cs + opened fd ds
  opened-append fd [] ds = omega arith
  opened-append fd (c ∷ cs) ds = omega (arith, opened-append fd cs ds)

  pub closed-append :
      (fd : ℤ) (cs ds : List (Call A)) → closed fd (cs ++ ds) ≡ closed fd cs + closed fd ds
  closed-append fd [] ds = omega arith
  closed-append fd (c ∷ cs) ds = omega (arith, closed-append fd cs ds)
