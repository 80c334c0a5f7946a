-- ===== src/Sender/Thread/Run/Packets.antt =====
-- One packet, one round or one slice more, and what the counters of a worker make of it.
use udppingpong.Base.{
  ℕ, zero, suc, ◌+◌, ◌%◌, ◌≡◌, List, [], ◌++◌, arith, Bool-cases, inl, inr, length, concat,
  length-append, ◌≤◌,
}
use udppingpong.Base.Word.{word_mod}
use udppingpong.Sender.Thread.{SenderThread, SendAnswers, send_packet, send_packets, Packet}
use udppingpong.Sender.Thread.Sending.{IsWord, kinds, send_packet-CountedOnce}
use udppingpong.Sender.Thread.Run.{Round, socket_ready, send_if_ready}

module _ {D : Type 0} where
  -- The packets that the counters of a worker tell of.
  abbrev pub counted : SenderThread D → ℕ
  counted t = t.counter_send + t.counter_0bytes + t.errors

  -- A worker that has sent k packets since its counters were `n` in all.
  pub record IsAccount (n k : ℕ) (u : SenderThread D) : Type 0 where
    pub word : IsWord u
    pub total : counted u % word_mod ≡ (n + k) % word_mod
    pub most : counted u ≤ n + k

  send_packet-IsAccount :
      (a : SendAnswers D) (t : SenderThread D) (n k : ℕ)
      → IsAccount n k t
      → IsAccount n (suc k) (send_packet a t).0
  send_packet-IsAccount a t n k i =
      let c = send_packet-CountedOnce a t i.word in
      let one = kinds t.packetsize a.send in
      record {
        word = omega (arith, c.full, c.short, c.failures);
        total = omega (arith, c.full, c.short, c.failures, one, i.total);
        most = omega (arith, c.full, c.short, c.failures, one, i.most);
      }

  pub send_packets-IsAccount :
      (m i : ℕ) (answers : ℕ → SendAnswers D) (t : SenderThread D) (n k : ℕ)
      → IsAccount n k t
      → IsAccount n (k + m) (send_packets m i answers t).0
  unfolding send_packets
  send_packets-IsAccount zero i answers t n k h = record {
    word = h.word;
    total = omega (arith, h.total);
    most = omega (arith, h.most);
  }
  send_packets-IsAccount (suc m) i answers t n k h =
      let u = (send_packet (answers i) t).0 in
      let rest =
        send_packets-IsAccount m (i + 1) answers u n (suc k)
          (send_packet-IsAccount (answers i) t n k h) in
      record {
        word = rest.word;
        total = omega (arith, rest.total);
        most = omega (arith, rest.most);
      }

  pub send_if_ready-IsAccount :
      (r : Round D) (t : SenderThread D) (n k : ℕ)
      → IsAccount n k t
      → IsAccount n (k + length (send_if_ready r t).1) (send_if_ready r t).0
  unfolding send_if_ready
  send_if_ready-IsAccount r t n k h =
      let sent = send_packet-IsAccount r.send t n k h in
      elim (Bool-cases (socket_ready r.writable)) [
        | inl e ↦ rw e (record {
          word = sent.word;
          total = omega (arith, sent.total);
          most = omega (arith, sent.most);
        })
        | inr e ↦
            rw e (record {
              word = h.word;
              total = omega (arith, h.total);
              most = omega (arith, h.most);
            })
      ]

  -- A last slice, and a slice before others.
  pub cut :
      (u : SenderThread D) (ps : List (Packet D)) (q n k : ℕ)
      → length ps ≡ q
      → IsAccount n (k + q) u
      → IsAccount n (k + length (ps ++ [])) u
  cut u ps q n k l h = record {
    word = h.word;
    total = omega (arith, l, h.total, length-append ps []);
    most = omega (arith, l, h.most, length-append ps []);
  }

  pub joined :
      (u : SenderThread D) (ps : List (Packet D)) (slices : List (List (Packet D))) (q n k : ℕ)
      → length ps ≡ q
      → IsAccount n (k + q + length (concat slices)) u
      → IsAccount n (k + length (ps ++ concat slices)) u
  joined u ps slices q n k l h = record {
    word = h.word;
    total = omega (arith, l, h.total, length-append ps (concat slices));
    most = omega (arith, l, h.most, length-append ps (concat slices));
  }
