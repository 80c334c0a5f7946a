-- ===== src/Receiver/Contents.antt =====
-- src/UDPEchoReceiverThread.cpp: what the receiver reads in the packets that it takes in. `B` is the
-- type of bytes.
use udppingpong.Base.{
  ℕ, ◌+◌, ◌≡◌, refl, List, [], ◌∷◌, ◌&&◌, length, Option, none, some, Bool-cases, inl, inr, leb,
  if◌then◌else◌,
}
use udppingpong.Datagram.{taken, receive}
use udppingpong.Double.{Double}
use udppingpong.Receiver.{Receiver, Arrival, Pass, handle, loop, run, reset_counter}

module _ {D B : Type 0} where
  -- What `recv` answers for these datagrams and the time that the buffer holds after it, with the
  -- buffer at the start; `time_at` is the field `time` of a `PACKET` at its beginning.
  unfoldable pub readings : (List B → D) → List B → List (List B) → List (ℕ × D)
  unfolding receive
  readings time_at buffer [] = []
  readings time_at buffer (datagram ∷ ds) =
      let p = receive datagram buffer in
      (length (taken datagram), time_at p) ∷ readings time_at p ds

module _ {D : Type 0} ⦃d : Double D⦄ where
  handle_same : (r s : Receiver D) (o : Option (Arrival D)) → (handle r o).1 ≡ (handle s o).1
  unfolding handle
  handle_same r s none = refl
  handle_same r s (some a) = refl

  loop_same :
      (r s : Receiver D) (next : ℕ) (ps : List (Pass D))
      → (loop r next ps).arrivals ≡ (loop s next ps).arrivals
  unfolding loop
  loop_same r s next [] = refl
  loop_same r s next (p ∷ ps) =
      let next' = if leb next p.clock then next + 1 else next in
      let rest = loop_same (handle r p.received).0 (handle s p.received).0 next' ps in
      elim (Bool-cases (leb next p.clock && p.should_stop)) [
        | inl stop ↦ rw stop (handle_same r s p.received)
        | inr on ↦ rw (on, handle_same r s p.received, rest)
      ]

  -- What the receiver takes in does not hang on what it held before.
  pub run_same :
      (r s : Receiver D) (start : ℕ) (ps : List (Pass D))
      → (run r start ps).arrivals ≡ (run s start ps).arrivals
  unfolding run
  run_same r s start ps = loop_same (reset_counter r) (reset_counter s) (start + 1) ps
