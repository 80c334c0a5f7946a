-- ===== src/Sender/Thread/Connect/Examples.antt =====
-- Connecting to a host with several addresses, and the theorem at it.
use udppingpong.Base.{
  ℕ, ◌≡◌, ◌==◌, refl, false, Option, some, none, [], ◌∷◌, if◌then◌else◌, arith, ap,
}
use udppingpong.Base.Int.{ℤ, pos}
use udppingpong.Exception.{ok, throw, illegal_argument, illegal_port, socket_exception}
use udppingpong.Sender.Thread.Connect.{BufferAnswers, Connected, connect, parse_destination}
use udppingpong.Sender.Thread.Connect.Order.{connect_first}

-- Strings are numbers here; 7 names the service at port 5001, other numbers below 10 are no names.
abbrev pub to_int : ℕ → ℤ
to_int s = if s == 7 then pos 0 else pos s

abbrev pub service : ℕ → Option ℕ
service s = if s == 7 then some 5001 else none

-- Only address 3 accepts.
abbrev pub refuses : ℕ → Option ℕ
refuses a = if a == 3 then none else some 111

abbrev pub buffer : BufferAnswers
buffer = record { get_rcvbuf = ok (pos 4096); set_rcvbuf = none }

abbrev pub size : ℕ → ℕ
size s = 1

abbrev host : ℕ
host = 99

tests :
    (parse_destination to_int size service false (host ∷ 7 ∷ []) ≡ ok (host, pos 5001))
    × (parse_destination to_int size service false (host ∷ 0 ∷ []) ≡ throw illegal_port)
    × (parse_destination to_int size service false (host ∷ []) ≡ throw illegal_argument)
    × ((connect (ok (1, 2 ∷ [])) refuses buffer).outcome ≡ throw (socket_exception 111))
unfolding parse_destination connect
tests = (refl, refl, refl, refl)

connect_first_example : (connect (ok (1, 3 ∷ 4 ∷ [])) refuses buffer).tried ≡ 1 ∷ 3 ∷ []
connect_first_example =
    ap (λ (c : Connected ℕ). c.tried)
      (connect_first refuses buffer (1 ∷ []) 3 (4 ∷ []) ((λ e. ground arith), tt) refl)
