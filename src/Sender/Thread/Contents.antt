-- ===== src/Sender/Thread/Contents.antt =====
-- What the packets of a worker hold.
use udppingpong.Base.{
  ℕ, zero, suc, ◌+◌, ◌≡◌, refl, false, List, [], ◌∷◌, arith, map, replicate, ap, ◌∙◌,
}
use udppingpong.Sender.Thread.{
  SenderThread, Sent, sent, failed, SendAnswers, count_sent, fill, send_packet, send_packets,
}

module _ {D : Type 0} where
  -- The times of n rounds from number i on.
  abbrev pub times : ℕ → ℕ → (ℕ → SendAnswers D) → List D
  times zero i answers = []
  times (suc n) i answers = (answers i).now ∷ times n (i + 1) answers

  -- What a round leaves alone.
  record IsKept (a : SendAnswers D) (t u : SenderThread D) : Type 0 where
    buffer : u.buffer ≡ fill a t
    always_randomize : u.always_randomize ≡ t.always_randomize

  count_sent-buffer :
      (s : Sent) (t : SenderThread D)
      → ((count_sent s t).buffer ≡ t.buffer)
        × ((count_sent s t).always_randomize ≡ t.always_randomize)
  unfolding count_sent
  count_sent-buffer (sent n) t = ground arith
  count_sent-buffer (failed errno) t = (refl, refl)

  send_packet-IsKept : (a : SendAnswers D) (t : SenderThread D) → IsKept a t (send_packet a t).0
  unfolding send_packet
  send_packet-IsKept a t =
      let both = count_sent-buffer a.send (record t { buffer = fill a t }) in
      record { buffer = both.0; always_randomize = both.1 }

  send_packets-times :
      (n i : ℕ) (answers : ℕ → SendAnswers D) (t : SenderThread D)
      → map (λ p. p.time) (send_packets n i answers t).1 ≡ times n i answers
  unfolding send_packets
  send_packets-times zero i answers t = refl
  send_packets-times (suc n) i answers t =
      ap (◌∷◌ (answers i).now) (send_packets-times n (i + 1) answers (send_packet (answers i) t).0)

  send_packets_rest :
      (n i : ℕ) (answers : ℕ → SendAnswers D) (t : SenderThread D)
      → t.always_randomize ≡ false
      → let ps = (send_packets n i answers t).1 in
        (map (λ p. p.id) ps ≡ replicate n t.buffer.id)
        × (map (λ p. p.payload) ps ≡ replicate n t.buffer.payload)
  unfolding send_packets
  send_packets_rest zero i answers t h = (refl, refl)
  send_packets_rest (suc n) i answers t h =
      let u = (send_packet (answers i) t).0 in
      let kept = send_packet-IsKept (answers i) t in
      let rest = send_packets_rest n (i + 1) answers u (kept.always_randomize ∙ h) in
      let b = kept.buffer in (ground (arith, rest.0, b), ground (arith, rest.1, b))

  -- Unless the payload is randomised every time, each packet of n calls of `sendPacket` carries the
  -- time of its call, and all carry the same `id` and payload, those of the buffer: the consecutive
  -- number that tells packets apart is not there.
  pub send_packets_contents :
      (n i : ℕ) (answers : ℕ → SendAnswers D) (t : SenderThread D)
      → t.always_randomize ≡ false
      → let ps = (send_packets n i answers t).1 in
        (map (λ p. p.time) ps ≡ times n i answers)
        × (map (λ p. p.id) ps ≡ replicate n t.buffer.id)
        × (map (λ p. p.payload) ps ≡ replicate n t.buffer.payload)
  send_packets_contents n i answers t h =
      let rest = send_packets_rest n i answers t h in
      (send_packets-times n i answers t, rest.0, rest.1)
