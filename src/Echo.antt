-- ===== src/Echo.antt =====
-- The sender and the bouncer together: the packets of a worker of the sender on their way to a
-- worker of the bouncer (src/UDPEchoBouncerThread.cpp) and back to its receiver
-- (src/UDPEchoReceiverThread.cpp). `B` is the type of bytes.
pub mod Losses
pub mod Times
pub mod Presented
pub mod Examples
use udppingpong.Base.{ℕ, ◌≤◌, ◌≡◌, Bool, false, List, [], ◌∷◌, map, length, take, ◌+◌}
use udppingpong.Network.{Transit}
use udppingpong.Double.{Double}
use udppingpong.Exception.{ok}
use udppingpong.Bouncer.Thread
use udppingpong.Bouncer.Thread.{Thread}
use udppingpong.Bouncer.Thread.Trace.{packets}
use udppingpong.Bouncer.Thread.Replies.{IsPacketSize}
use udppingpong.Bouncer.Thread.Contents.{echo, own, told}
use udppingpong.Receiver
use udppingpong.Receiver.Contents.{readings}
use udppingpong.Sender.Thread.{Packet, SenderThread}
use udppingpong.Sender.Thread.Run.{RunAnswers}
use udppingpong.Sender.Thread.Run.Accepted.{accepted_in}

-- `sizeof(PACKET)`
abbrev pub header : ℕ
header = 16

-- How the compiler lays a packet out: `bytes_of` is the buffer that holds it, `time_at` reads the
-- field `time` of a `PACKET` in the first bytes.
pub record IsLayout {D B : Type 0} (bytes_of : Packet D → List B) (time_at : List B → D)
    : Type 0 where
  pub room : (p : Packet D) → header ≤ length (bytes_of p)
  pub reads : (b c : List B) → take header b ≡ take header c → time_at b ≡ time_at c
  pub time : (p : Packet D) → time_at (bytes_of p) ≡ p.time

module _ {D B : Type 0} where
  -- What `send` is handed.
  unfoldable pub datagram : (Packet D → List B) → ℕ → Packet D → List B
  datagram bytes_of packetsize p = take packetsize (bytes_of p)

module _ {D B : Type 0} ⦃d : Double D⦄ (bytes_of : Packet D → List B) (time_at : List B → D) where
  -- What happens to the packets of a run of the worker `t` of the sender, which leaves it as `u`: the
  -- network carries those that `send` has accepted to a worker of the bouncer, which may serve other
  -- clients too, and carries its answers back to the receiver, as far as it takes them in before it
  -- stops.
  pub record Trip (A : Type 0) (a : RunAnswers D) (t u : SenderThread D) : Type 0 where
    pub address : A
    pub is_own : A → Bool
    pub bouncer : Thread D
    pub buffer : List B
    pub arrived : List (List B × A)
    pub no_echo : bouncer.no_echo ≡ false
    pub packet_size : IsPacketSize bouncer.packet_size
    pub losses_there : ℕ
    pub copies_there : ℕ
    pub there :
        Transit
          (map (λ p. (datagram bytes_of u.packetsize p, address)) (accepted_in a t))
          (own is_own arrived)
          losses_there
          copies_there
    pub returned : List (List B)
    pub losses_back : ℕ
    pub copies_back : ℕ
    pub back :
        Transit
          (map (λ p. p.0) (own is_own (echo bouncer buffer arrived)))
          returned
          losses_back
          copies_back
    pub recbuffer : List B
    pub measured :
        map
          (λ x. (x.bytes, x.time))
          (Receiver.run u.receiver a.receiver_start a.receiver_passes).arrivals
        ≡ readings time_at recbuffer returned
