-- ===== src/Network.antt =====
-- The network between the two programs, of which neither knows more than what UDP promises: a
-- datagram may arrive, get lost or arrive more than once, and in any order.
use udppingpong.Base.{
  ℕ, suc, ◌+◌, ◌≡◌, List, [], ◌∷◌, ◌++◌, length, length-append, All, arith, refl,
}

-- `Transit sent arrived losses copies`
pub data Transit {P : Type 0} : List P → List P → ℕ → ℕ → Type 0 where
  nothing : Transit [] [] 0 0
  delivered :
      {p : P} {sent : List P} {losses copies : ℕ} (before after : List P)
      → Transit sent (before ++ after) losses copies
      → Transit (p ∷ sent) (before ++ p ∷ after) losses copies
  lost :
      {p : P} {sent arrived : List P} {losses copies : ℕ}
      → Transit sent arrived losses copies
      → Transit (p ∷ sent) arrived (suc losses) copies
  copied :
      {p : P} {sent arrived : List P} {losses copies : ℕ}
      → Transit (p ∷ p ∷ sent) arrived losses copies
      → Transit (p ∷ sent) arrived losses (suc copies)

module _ {P : Type 0} where
  -- What is sent or copied arrives or gets lost.
  pub Transit-length :
      {sent arrived : List P} {losses copies : ℕ}
      → Transit sent arrived losses copies
      → length arrived + losses ≡ length sent + copies
  Transit-length nothing = refl
  Transit-length (delivered {p} before after t) =
      omega (arith, Transit-length t, length-append before after, length-append before (p ∷ after))
  Transit-length (lost t) = omega (arith, Transit-length t)
  Transit-length (copied t) = omega (arith, Transit-length t)

  All-insert {κ} :
      (Q : P → Type κ) (p : P) (before after : List P)
      → Q p
      → All Q (before ++ after)
      → All Q (before ++ p ∷ after)
  All-insert Q p [] after q all = (q, all)
  All-insert Q p (x ∷ before) after q (one, all) = (one, All-insert Q p before after q all)

  -- Nothing arrives that was not sent.
  pub Transit-All {κ} :
      {sent arrived : List P} {losses copies : ℕ} (Q : P → Type κ)
      → Transit sent arrived losses copies
      → All Q sent
      → All Q arrived
  Transit-All Q nothing all = tt
  Transit-All Q (delivered {p} before after t) (one, all) =
      All-insert Q p before after one (Transit-All Q t all)
  Transit-All Q (lost t) (one, all) = Transit-All Q t all
  Transit-All Q (copied t) (one, all) = Transit-All Q t (one, (one, all))
