-- ===== src/Echo/Presented.antt =====
-- The packets that the sender presents as lost, load after load.
use udppingpong.Base.{ℕ, ◌+◌, none, some, List, [], ◌∷◌, if◌then◌else◌}
use udppingpong.Base.Int.{ℤ}
use udppingpong.Double.{Double}
use udppingpong.Exception.{ok, throw}
use udppingpong.Sender.Thread.{Packet, SenderThread}
use udppingpong.Sender.Session.{LoadAnswers, run_load}
use udppingpong.Sender.Results.{Results}
use udppingpong.Echo.Losses.{Trips}

module _ {D : Type 0} ⦃d : Double D⦄ where
  -- The pool after each load that is reported on.
  abbrev pub pools :
      ℕ → (ℕ → LoadAnswers D) → List ℤ → List (SenderThread D) → List (List (SenderThread D))
  pools i answers [] ts = []
  pools i answers (rate ∷ rates) ts = elim (run_load (answers i) rate ts) [
    | none ↦ []
    | some (throw e) ↦ []
    | some (ok (us, interrupted)) ↦
        let later = pools (i + 1) answers rates us in us ∷ (if interrupted then [] else later)
  ]

module _ {D B : Type 0} ⦃d : Double D⦄ (bytes_of : Packet D → List B) (time_at : List B → D)
    (A : Type 0) where
  -- The packets of each pool have travelled, and so many of them have got lost.
  abbrev pub Journeys : List (List (SenderThread D)) → List ℕ → Type 0
  Journeys [] [] = Unit
  Journeys (us ∷ uss) (n ∷ ns) = Trips bytes_of time_at A us n × Journeys uss ns
  Journeys uss ns = ⊥
