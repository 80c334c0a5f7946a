-- ===== src/Datagram.antt =====
-- A datagram and the buffers of 4096 bytes that src/UDPEchoBouncerThread.cpp and
-- src/UDPEchoReceiverThread.cpp take it into. `B` is the type of bytes.
use udppingpong.Base.{
  ℕ, ◌≤◌, ◌≡◌, List, ◌++◌, length, take, drop, arith, length-take, length-drop, length-append,
  take-take, take-append, ◌∙◌,
}

-- The size of a receive buffer, and the limit that is passed to `recvfrom` and `recv`.
abbrev pub buffer_size : ℕ
buffer_size = 4096

module _ {B : Type 0} where
  -- What a call of `recvfrom` or `recv` takes of a datagram.
  abbrev pub taken : List B → List B
  taken datagram = take buffer_size datagram

  -- The buffer after it.
  unfoldable pub receive : List B → List B → List B
  receive datagram buffer = taken datagram ++ drop (length (taken datagram)) buffer

  pub length-taken : (datagram : List B) → length (taken datagram) ≤ buffer_size
  length-taken datagram = omega (arith, length-take buffer_size datagram)

  pub length-receive :
      (datagram buffer : List B)
      → length buffer ≡ buffer_size
      → length (receive datagram buffer) ≡ buffer_size
  unfolding receive
  length-receive datagram buffer h =
      let p = taken datagram in
      omega (
        arith,
        length-taken datagram,
        length-drop (length p) buffer,
        length-append p (drop (length p) buffer),
      )

  -- The first bytes in the buffer are those of the datagram, as far as it has them.
  pub take-receive :
      (k : ℕ) (datagram buffer : List B)
      → k ≤ buffer_size
      → k ≤ length datagram
      → take k (receive datagram buffer) ≡ take k datagram
  unfolding receive
  take-receive k datagram buffer h room =
      let p = taken datagram in
      take-append k p (drop (length p) buffer) (omega (arith, length-take buffer_size datagram))
      ∙ take-take k buffer_size datagram h
