-- ===== src/Counter/Exchange.antt =====
-- src/UDPEchoCounter.cpp: `exportToArray` and `importFromArray`.
pub mod RoundTrip
pub mod Examples
use udppingpong.Base.{ℕ, Bool, ◌==◌, List, [], ◌∷◌}
use udppingpong.Exception.{Thrown}
use udppingpong.Arrays.{Arrays, Formats, set_all, assign_all}
use udppingpong.Counter.{Counter}

-- The keys of the array.
pub data Key : Type 0 where
  sample_time packets_received packets_send bytes_received bytes_send : Key

abbrev pub number : Key → ℕ
number sample_time = 0
number packets_received = 1
number packets_send = 2
number bytes_received = 3
number bytes_send = 4

abbrev pub same : Key → Key → Bool
same k l = number k == number l

module _ {D S : Type 0} (f : Formats D S) where
  open f use {show_double, show_word, to_double, to_word}

  -- What `exportToArray` sets, in its order.
  abbrev pub entries : Counter D → List (Key × S)
  entries c =
      (sample_time, show_double c.sample_time)
      ∷ (packets_received, show_word c.packets_received)
      ∷ (packets_send, show_word c.packets_send)
      ∷ (bytes_received, show_word c.bytes_received)
      ∷ (bytes_send, show_word c.bytes_send)
      ∷ []

  -- What `importFromArray` assigns, in its order.
  abbrev pub assignments : List (Key × (S → Counter D → Counter D))
  assignments =
      (sample_time, λ s c. record c { sample_time = to_double s })
      ∷ (packets_received, λ s c. record c { packets_received = to_word s })
      ∷ (packets_send, λ s c. record c { packets_send = to_word s })
      ∷ (bytes_received, λ s c. record c { bytes_received = to_word s })
      ∷ (bytes_send, λ s c. record c { bytes_send = to_word s })
      ∷ []

  -- The value that each key gets.
  abbrev pub value : Counter D → Key → S
  value c sample_time = show_double c.sample_time
  value c packets_received = show_word c.packets_received
  value c packets_send = show_word c.packets_send
  value c bytes_received = show_word c.bytes_received
  value c bytes_send = show_word c.bytes_send

  module _ {M : Type 0} (a : Arrays Key S M) where
    unfoldable pub export_to_array : Counter D → M → M
    export_to_array c m = set_all a (entries c) m

    unfoldable pub import_from_array : M → Counter D → Counter D × Thrown
    import_from_array m c = assign_all a assignments m c
