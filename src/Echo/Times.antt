-- ===== src/Echo/Times.antt =====
-- The times that the receiver measures with.
use udppingpong.Base.{◌≤◌, List, length}
use udppingpong.Double.{Double}
use udppingpong.Receiver
use udppingpong.Receiver.{Arrival}
use udppingpong.Sender.Thread.{Packet}
use udppingpong.Echo.{IsLayout, header}

module _ {D B : Type 0} (bytes_of : Packet D → List B) (time_at : List B → D)
    (layout : IsLayout bytes_of time_at) (P : D → Type 0) where
  -- A datagram with a header that carries a time that P holds of.
  abbrev Carries : List B → Type 0
  Carries c = (header ≤ length c) × P (time_at c)
