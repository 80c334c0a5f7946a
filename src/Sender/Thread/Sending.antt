-- ===== src/Sender/Thread/Sending.antt =====
-- What `sendPacket` counts, and what it sends.
use udppingpong.Base.{
  ℕ, zero, suc, ◌+◌, ◌%◌, ◌<◌, ◌≡◌, refl, Bool, true, false, not, ◌&&◌, arith, ltb, ◌==◌,
  if◌then◌else◌,
}
use udppingpong.Base.Word.{word_mod, add64}
use udppingpong.Sender.Thread.{
  SenderThread, Sent, sent, failed, SendAnswers, count_sent, fill, send_packet, send_packets,
}

-- What an answer of `send` means for packets of a size: all of it went out, nothing or a part, or
-- an error.
abbrev pub is_full : ℕ → Sent → Bool
is_full size (sent n) = ltb 0 n && n == size
is_full size (failed errno) = false

abbrev pub is_short : ℕ → Sent → Bool
is_short size (sent n) = not (ltb 0 n && n == size)
is_short size (failed errno) = false

abbrev pub is_failed : Sent → Bool
is_failed (sent n) = false
is_failed (failed errno) = true

abbrev pub is_error : ℕ → Sent → Bool
is_error code (sent n) = false
is_error code (failed errno) = errno == code

-- Every answer is of one kind.
pub kinds :
    (size : ℕ) (s : Sent)
    → (if is_full size s then 1 else 0)
        + (if is_short size s then 1 else 0)
        + (if is_failed s then 1 else 0)
      ≡ 1
kinds size (sent n) = ground arith
kinds size (failed errno) = refl

module _ {D : Type 0} where
  -- In how many of n rounds from number i on the answer of `send` is of a kind.
  abbrev pub tally : (Sent → Bool) → ℕ → ℕ → (ℕ → SendAnswers D) → ℕ
  tally kind zero i answers = 0
  tally kind (suc n) i answers =
      (if kind (answers i).send then 1 else 0) + tally kind n (i + 1) answers

  -- The counters of `u` are those of `t` and what n rounds add.
  pub record Counted (n i : ℕ) (answers : ℕ → SendAnswers D) (t u : SenderThread D) : Type 0 where
    pub full : u.counter_send ≡ add64 t.counter_send (tally (is_full t.packetsize) n i answers)
    pub short :
        u.counter_0bytes ≡ add64 t.counter_0bytes (tally (is_short t.packetsize) n i answers)
    pub failures : u.errors ≡ add64 t.errors (tally is_failed n i answers)

  pub record IsWord (t : SenderThread D) : Type 0 where
    pub counter_send_lt : t.counter_send < word_mod
    pub counter_0bytes_lt : t.counter_0bytes < word_mod
    pub errors_lt : t.errors < word_mod

  -- One round.
  pub record CountedOnce (s : Sent) (t u : SenderThread D) : Type 0 where
    pub full :
        u.counter_send ≡ (t.counter_send + (if is_full t.packetsize s then 1 else 0)) % word_mod
    pub short :
        u.counter_0bytes
        ≡ (t.counter_0bytes + (if is_short t.packetsize s then 1 else 0)) % word_mod
    pub failures : u.errors ≡ (t.errors + (if is_failed s then 1 else 0)) % word_mod
    pub size : u.packetsize ≡ t.packetsize

  count_sent-CountedOnce :
      (s : Sent) (t : SenderThread D) → IsWord t → CountedOnce s t (count_sent s t)
  unfolding count_sent add64
  count_sent-CountedOnce (sent n) t w = ground arith
  count_sent-CountedOnce (failed errno) t w = ground arith

  pub send_packet-CountedOnce :
      (a : SendAnswers D) (t : SenderThread D) → IsWord t → CountedOnce a.send t (send_packet a t).0
  unfolding send_packet
  send_packet-CountedOnce a t w =
      let c =
        count_sent-CountedOnce a.send (record t { buffer = fill a t })
          (record {
            counter_send_lt = w.counter_send_lt;
            counter_0bytes_lt = w.counter_0bytes_lt;
            errors_lt = w.errors_lt;
          }) in
      record { full = c.full; short = c.short; failures = c.failures; size = c.size }

  send_packets-Counted :
      (n i : ℕ) (answers : ℕ → SendAnswers D) (t : SenderThread D)
      → IsWord t
      → Counted n i answers t (send_packets n i answers t).0
  unfolding send_packets add64
  send_packets-Counted zero i answers t w = omega arith
  send_packets-Counted (suc n) i answers t w =
      let u = (send_packet (answers i) t).0 in
      let first = send_packet-CountedOnce (answers i) t w in
      let rest = send_packets-Counted n (i + 1) answers u (omega (arith, first)) in
      record {
        full = omega (arith, first.full, rw first.size at rest.full);
        short = omega (arith, first.short, rw first.size at rest.short);
        failures = omega (arith, first.failures, rest.failures);
      }

  tally_total :
      (size n i : ℕ) (answers : ℕ → SendAnswers D)
      → tally (is_full size) n i answers
          + tally (is_short size) n i answers
          + tally is_failed n i answers
        ≡ n
  tally_total size zero i answers = refl
  tally_total size (suc n) i answers =
      omega (arith, kinds size (answers i).send, tally_total size n (i + 1) answers)

  -- Every call of `sendPacket` is counted in one of three ways. After n calls `counter_send`,
  -- `counter_0bytes` and `errors` have grown, modulo 2 ^ 64, by the numbers of packets that went out
  -- whole, of those that did not, and of errors, and these three numbers add up to n.
  send_packets_add_up :
      (n i : ℕ) (answers : ℕ → SendAnswers D) (t : SenderThread D)
      → IsWord t
      → Counted n i answers t (send_packets n i answers t).0
        × (tally (is_full t.packetsize) n i answers
              + tally (is_short t.packetsize) n i answers
              + tally is_failed n i answers
            ≡ n)
  send_packets_add_up n i answers t w =
      (send_packets-Counted n i answers t w, tally_total t.packetsize n i answers)
