-- ===== src/Sender/Thread/Connect/Order.antt =====
-- Which of the addresses of a host the sender connects to.
use udppingpong.Base.{
  ℕ, Option, none, some, List, [], ◌∷◌, ◌++◌, ◌≡◌, ◌≢◌, All, refl, Option-cases, inl, inr,
}
use udppingpong.Exception.{ok}
use udppingpong.Sender.Thread.Connect.{BufferAnswers, set_buffer, try_connect, connect}

module _ {A : Type 0} where
  -- The addresses found: some, then `b`, then others.
  abbrev pub found : List A → A → List A → A × List A
  found [] b after = (b, after)
  found (a ∷ before) b after = (a, before ++ b ∷ after)

  try_connect-accepts :
      (refuses : A → Option ℕ) (os : BufferAnswers) (b : A) (after : List A)
      → refuses b ≡ none
      → try_connect refuses os b after
        ≡ record { tried = b ∷ []; address = some b; outcome = set_buffer os }
  unfolding try_connect
  try_connect-accepts refuses os b [] h = rw (h, try_connect) refl
  try_connect-accepts refuses os b (c ∷ after) h = rw (h, try_connect) refl

  try_connect_next :
      (refuses : A → Option ℕ) (os : BufferAnswers) (a b : A) (rest : List A)
      → refuses a ≢ none
      → let later = try_connect refuses os b rest in
        try_connect refuses os a (b ∷ rest) ≡ record later { tried = a ∷ later.tried }
  unfolding try_connect
  try_connect_next refuses os a b rest h = elim (Option-cases (refuses a)) [
    | inl e ↦ absurd (h e)
    | inr (errno, e) ↦ rw (e, try_connect) refl
  ]

  try_connect_first :
      (refuses : A → Option ℕ) (os : BufferAnswers) (a : A) (before : List A) (b : A)
      (after : List A)
      → refuses a ≢ none
      → All (λ c. refuses c ≢ none) before
      → refuses b ≡ none
      → try_connect refuses os a (before ++ b ∷ after)
        ≡ record { tried = a ∷ before ++ b ∷ []; address = some b; outcome = set_buffer os }
  try_connect_first refuses os a [] b after h hs k =
      rw (try_connect_next refuses os a b after h, try_connect-accepts refuses os b after k) refl
  try_connect_first refuses os a (c ∷ before) b after h (g, gs) k =
      rw
        (
          try_connect_next refuses os a c (before ++ b ∷ after) h,
          try_connect_first refuses os c before b after g gs k,
        )
        refl

  -- The addresses of a host are tried in order up to the first that accepts; the socket is connected
  -- to that one, later addresses are not tried, and whether `connect` throws is then only a matter
  -- of the receive buffer.
  pub connect_first :
      (refuses : A → Option ℕ) (os : BufferAnswers) (before : List A) (b : A) (after : List A)
      → All (λ c. refuses c ≢ none) before
      → refuses b ≡ none
      → connect (ok (found before b after)) refuses os
        ≡ record { tried = before ++ b ∷ []; address = some b; outcome = set_buffer os }
  unfolding connect
  connect_first refuses os [] b after hs k = try_connect-accepts refuses os b after k
  connect_first refuses os (a ∷ before) b after (h, hs) k =
      try_connect_first refuses os a before b after h hs k
