-- ===== src/Bouncer/Thread/Counting.antt =====
-- What a worker counts.
use udppingpong.Base.{
  ◌<◌, ◌≡◌, List, [], arith, length, ◌++◌, ℕ, ◌∷◌, ◌+◌, ◌≢◌, false, if◌then◌else◌, map, ◌*◌,
  length-append, leb, ◌%◌, Bool-cases, ◌&&◌, inl, inr, ◌∙◌, ap,
}
use udppingpong.Base.Word.{word_mod, add64, add64-zero, add64-lt, add64_assoc}
use udppingpong.Counter.{Counter}
use udppingpong.Bouncer.Thread.{Thread, Pass, Syscall, reply, count, handle, loop, run}
use udppingpong.Bouncer.Thread.Replies.{answer, sends_by}
use udppingpong.Bouncer.Thread.Trace.{
  packets, sends, bytes, packets-append, sends-append, bytes-append,
}

-- The counts are words.
pub record IsWord {D : Type 0} (c : Counter D) : Type 0 where
  pub packets_received_lt : c.packets_received < word_mod
  pub packets_send_lt : c.packets_send < word_mod
  pub bytes_received_lt : c.bytes_received < word_mod
  pub bytes_send_lt : c.bytes_send < word_mod

module _ {D A : Type 0} where
  -- `d` counts what the calls show more than `c` does.
  pub record Counts (c d : Counter D) (cs : List (Syscall A)) : Type 0 where
    pub received : d.packets_received ≡ add64 c.packets_received (length (packets cs))
    pub sent : d.packets_send ≡ add64 c.packets_send (length (sends cs))
    pub bytes_in : d.bytes_received ≡ add64 c.bytes_received (bytes (packets cs))
    pub bytes_out : d.bytes_send ≡ add64 c.bytes_send (bytes (packets cs))

  Counts-nil : (c : Counter D) → IsWord c → Counts c c []
  Counts-nil c w = ground (
    arith,
    add64-zero c.packets_received,
    add64-zero c.packets_send,
    add64-zero c.bytes_received,
    add64-zero c.bytes_send,
  )

  handle-Counts :
      (t : Thread D) (p : Pass A)
      → IsWord t.counter
      → Counts t.counter (handle t p).0.counter (handle t p).1
  unfolding handle reply count add64
  handle-Counts t p w = ground arith

  Counts-append :
      (b c d : Counter D) (cs ds : List (Syscall A))
      → Counts b c cs
      → Counts c d ds
      → Counts b d (cs ++ ds)
  Counts-append b c d cs ds h k =
      let p = packets-append cs ds in
      let s = sends-append cs ds in
      record {
        received = rw (p, length-append (packets cs) (packets ds), ← add64_assoc) (ground arith);
        sent = rw (s, length-append (sends cs) (sends ds), ← add64_assoc) (ground arith);
        bytes_in = rw (p, bytes-append (packets cs) (packets ds), ← add64_assoc) (ground arith);
        bytes_out = rw (p, bytes-append (packets cs) (packets ds), ← add64_assoc) (ground arith);
      }

  Counts-IsWord : (c d : Counter D) (cs : List (Syscall A)) → Counts c d cs → IsWord d
  Counts-IsWord c d cs h = ground (
    arith,
    add64-lt c.packets_received (length (packets cs)),
    add64-lt c.packets_send (length (sends cs)),
    add64-lt c.bytes_received (bytes (packets cs)),
    add64-lt c.bytes_send (bytes (packets cs)),
  )

  loop-Counts :
      (t : Thread D) (next : ℕ) (ps : List (Pass A))
      → IsWord t.counter
      → Counts t.counter (loop t next ps).thread.counter (loop t next ps).calls
  unfolding loop
  loop-Counts t next [] w = Counts-nil t.counter w
  loop-Counts t next (p ∷ ps) w =
      let first = handle-Counts t p w in
      let u = (handle t p).0 in
      let next' = if leb next p.clock then next + 1 else next in
      let rest = loop-Counts u next' ps (Counts-IsWord t.counter u.counter (handle t p).1 first) in
      let both =
        Counts-append t.counter u.counter (loop u next' ps).thread.counter (handle t p).1
          (loop u next' ps).calls first rest in
      elim (Bool-cases (leb next p.clock && p.should_stop)) [
        | inl e ↦ rw e first
        | inr e ↦ rw e both
      ]

  -- After `run` the packet counts have grown, modulo 2 ^ 64, by the numbers of packets that came in
  -- and that went out, and both byte counts by the bytes that came in.
  pub run-Counts :
      (t : Thread D) (start : ℕ) (ps : List (Pass A))
      → IsWord t.counter
      → let r = run t start ps in Counts t.counter r.thread.counter r.calls
  unfolding run
  run-Counts t start ps w = loop-Counts t (start + 1) ps w

  bytes-answer :
      (t : Thread D) (ps : List (ℕ × A))
      → t.packet_size ≢ 0
      → bytes (map (answer t) ps) ≡ length ps * t.packet_size
  bytes-answer t [] h = omega arith
  bytes-answer t (p ∷ ps) h =
      let size : (answer t p).0 ≡ t.packet_size = ground arith in
      grind (arith, bytes-answer t ps h, size)

  -- A new worker that answers with a fixed packet size: the bytes that it sends are that size for
  -- each packet, and yet `bytes_send` counts the bytes that it received (both modulo 2 ^ 64).
  run-bytes_send :
      (s start : ℕ) (t : Thread D) (ps : List (Pass A))
      → t.no_echo ≡ false
      → t.packet_size ≡ s
      → s ≢ 0
      → IsWord t.counter
      → t.counter.bytes_send ≡ 0
      → let r = run t start ps in
        (bytes (sends r.calls) ≡ length (packets r.calls) * s)
        × (r.thread.counter.bytes_send ≡ bytes (packets r.calls) % word_mod)
  unfolding add64
  run-bytes_send s start t ps on size pos w new = (
    rw (sends_by t start ps, on)
        (bytes-answer t (packets (run t start ps).calls) (ground arith)
          ∙ ap (λ k. length (packets (run t start ps).calls) * k) size),
    ground (arith, run-Counts t start ps w),
  )
