-- ===== src/Bouncer/Thread/Contents.antt =====
-- src/UDPEchoBouncerThread.cpp: what is in the packets that a worker sends back. `B` is the type of
-- bytes.
use udppingpong.Base.{
  ℕ, Bool, Bool-cases, inl, inr, ◌-◌, ◌≤◌, ◌≡◌, refl, List, [], ◌∷◌, ◌++◌, map, length, take, drop,
  arith, false, if◌then◌else◌, ◌==◌, All, ap, ◌∙◌, length-take, length-drop, take_all, take-take,
  take-append, take-append_past, drop-append, ◌≢◌,
}
use udppingpong.Datagram.{taken, receive, length-taken, length-receive, take-receive}
use udppingpong.Bouncer.Thread.{Thread, Pass, buffer_size, run}
use udppingpong.Bouncer.Thread.Trace.{packets, sends}
use udppingpong.Bouncer.Thread.Replies.{IsPacketSize, answer, run-sends}

module _ {D A B : Type 0} where
  -- The packets that `run` sends for these datagrams, with the buffer at the start.
  unfoldable pub echo : Thread D → List B → List (List B × A) → List (List B × A)
  unfolding receive
  echo t buffer [] = []
  echo t buffer ((datagram, from) ∷ ds) =
      let p = receive datagram buffer in
      let n = length (taken datagram) in
      let rest = echo t p ds in
      if t.no_echo
      then rest
      else (take (if t.packet_size == 0 then n else t.packet_size) p, from) ∷ rest

module _ {X A : Type 0} where
  -- The part of a traffic that some clients have.
  abbrev pub own : (A → Bool) → List (X × A) → List (X × A)
  own is_own [] = []
  own is_own ((x, a) ∷ ps) =
      let others = own is_own ps in if is_own a then (x, a) ∷ others else others

module _ {A B : Type 0} where
  -- A datagram as `recvfrom` tells of it, and a packet as `sendto` is told of it.
  abbrev pub told : List B × A → ℕ × A
  told (datagram, from) = (length (taken datagram), from)

  abbrev pub front : ℕ → List B × A → List B × A
  front k (bytes, a) = (take k bytes, a)

  abbrev pub size_of : List B × A → ℕ × A
  size_of (bytes, to) = (length bytes, to)

size_wide :
    (k n size : ℕ) → IsPacketSize size → k ≤ 32 → k ≤ n → k ≤ (if size == 0 then n else size)
size_wide k n size v small room = ground arith

module _ {D A B : Type 0} where
  -- The sizes of the packets are those of `run`.
  echo-size_of :
      (t : Thread D) (buffer : List B) (ds : List (List B × A))
      → IsPacketSize t.packet_size
      → length buffer ≡ buffer_size
      → map size_of (echo t buffer ds) ≡ (if t.no_echo then [] else map (answer t) (map told ds))
  unfolding echo
  echo-size_of t buffer [] v h = ground arith
  echo-size_of t buffer ((datagram, from) ∷ ds) v h =
      let p = receive datagram buffer in
      let n = length (taken datagram) in
      let full = length-receive datagram buffer h in
      let size = if t.packet_size == 0 then n else t.packet_size in
      let fits : size ≤ buffer_size = ground (arith, length-taken datagram) in
      let whole : length (take size p) ≡ size = omega (arith, length-take size p, full, fits) in
      ground (arith, whole, echo-size_of t p ds v full)

  -- `run` sends packets of the sizes that `echo` tells, if `recvfrom` tells of these datagrams.
  pub run-echo :
      (t : Thread D) (start : ℕ) (ps : List (Pass A)) (buffer : List B) (ds : List (List B × A))
      → IsPacketSize t.packet_size
      → length buffer ≡ buffer_size
      → packets (run t start ps).calls ≡ map told ds
      → sends (run t start ps).calls ≡ map size_of (echo t buffer ds)
  run-echo t start ps buffer ds v h e = rw (run-sends t start ps, echo-size_of t buffer ds v h, e)

  -- Without a fixed size the answers hold what came in, byte for byte, up to the 4096 bytes that
  -- `recvfrom` takes.
  pub echo_same :
      (t : Thread D) (buffer : List B) (ds : List (List B × A))
      → t.no_echo ≡ false
      → t.packet_size ≡ 0
      → echo t buffer ds ≡ map (λ p. (taken p.0, p.1)) ds
  unfolding echo receive
  echo_same t buffer [] on free = refl
  echo_same t buffer ((datagram, from) ∷ ds) on free =
      let p = taken datagram in
      let rest = drop (length p) buffer in
      let own : take (length p) (p ++ rest) ≡ p =
        take-append (length p) p rest (omega arith) ∙ take_all (length p) p (omega arith) in
      ground (arith, own, echo_same t (p ++ rest) ds on free)

  -- Whatever size is set and whoever else sends, the first bytes of the answers to some clients are
  -- those of their packets, in order: k bytes, up to the 32 that a fixed size has at least, if each of
  -- their packets has as many.
  pub echo-own :
      (is_own : A → Bool) (t : Thread D) (k : ℕ) (buffer : List B) (ds : List (List B × A))
      → t.no_echo ≡ false
      → IsPacketSize t.packet_size
      → k ≤ 32
      → All (λ p. k ≤ length p.0) (own is_own ds)
      → map (front k) (own is_own (echo t buffer ds)) ≡ map (front k) (own is_own ds)
  unfolding echo
  echo-own is_own t k buffer [] on v small h = refl
  echo-own is_own t k buffer ((datagram, from) ∷ ds) on v small h =
      let p = receive datagram buffer in
      let n = length (taken datagram) in
      let size = if t.packet_size == 0 then n else t.packet_size in
      elim (Bool-cases (is_own from)) [
        | inr other ↦ rw (on, other) (echo-own is_own t k p ds on v small (rw other at h))
        | inl mine ↦
            let (long, others) : (k ≤ length datagram) × All (λ p. k ≤ length p.0) (own is_own ds) =
              rw mine at h in
            let room : k ≤ n = omega (arith, length-take buffer_size datagram) in
            let wide = size_wide k n t.packet_size v small room in
            let first : take k (take size p) ≡ take k datagram =
              take-take k size p wide ∙ take-receive k datagram buffer (omega arith) long in
            let rest = echo-own is_own t k p ds on v small others in
            rw (on, mine) (ground (arith, first, rest))
      ]

  -- With a fixed size s the answer to a packet that is shorter ends with bytes of the packet before
  -- it, which may have come from another client.
  pub echo_stale :
      (t : Thread D) (buffer : List B) (first second : List B) (a b : A)
      → t.no_echo ≡ false
      → t.packet_size ≢ 0
      → length second ≤ t.packet_size
      → t.packet_size ≤ length first
      → length first ≤ buffer_size
      → echo t buffer ((first, a) ∷ (second, b) ∷ [])
        ≡ (take t.packet_size first, a)
          ∷ (second ++ take (t.packet_size - length second) (drop (length second) first), b)
          ∷ []
  unfolding echo receive
  echo_stale t buffer first second a b on fixed short long fits =
      let s = t.packet_size in
      let n = length second in
      let rest = drop (length first) buffer in
      let whole : taken first ≡ first = take_all buffer_size first fits in
      let whole' : taken second ≡ second = take_all buffer_size second (omega arith) in
      let one : take s (first ++ rest) ≡ take s first = take-append s first rest long in
      let other : take s (second ++ drop n (first ++ rest))
          ≡ second ++ take (s - n) (drop n first) =
        take-append_past s second (drop n (first ++ rest)) short
        ∙ ap (λ xs. second ++ take (s - n) xs) (drop-append n first rest (omega arith))
        ∙ ap (◌++◌ second)
            (take-append (s - n) (drop n first) rest (omega (arith, length-drop n first))) in
      ground (arith, whole, whole', one, other)
