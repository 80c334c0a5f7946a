-- ===== src/Sender/Thread/Connect.antt =====
-- src/UDPEchoSenderThread.cpp: the constructor and the destructor, `connect` and `setSourceIP`.
pub mod Order
pub mod Examples
use udppingpong.Base.{
  ℕ, Bool, true, false, ◌&&◌, Option, none, some, List, [], ◌∷◌, ◌++◌, if◌then◌else◌, ltb, ◌≡◌, All,
  refl, arith, Option-cases, inl, inr, ap, ◌≢◌,
}
use udppingpong.Base.Int.{ℤ, pos, leb_ℤ}
use udppingpong.Exception.{
  Exception, Result, Thrown, ok, throw, done, illegal_argument, illegal_port, socket_exception,
  could_not_bind_to_interface, could_not_open_socket,
}
use udppingpong.Resolve.{get_sock_addr}
use udppingpong.Double.{Double}
use udppingpong.Socket.{Call, is_set, close_if_set}
use udppingpong.Sender.Thread.{Packet, SenderThread, create}

-- The constructor. Only the answer 0 of `socket` is taken for a failure.
unfoldable pub new_sender : {D : Type 0} → ⦃d : Double D⦄ → Packet D → ℤ → Result (SenderThread D)
unfolding create
new_sender empty sockfd =
    if is_set sockfd then ok (create empty sockfd) else throw could_not_open_socket

-- The destination HOST:PORT, by the string functions of ppl7 (`S` is the type of strings): the
-- tokens between its `:`, the number and the length of the port's name, and the port of a service.
module _ {S : Type 0} (to_int : S → ℤ) (size : S → ℕ) (get_serv_by_name : S → Option ℕ) where
  -- A port that is no positive number may be the name of a service.
  unfoldable pub port_of : S → Result ℤ
  port_of portname =
      let port = to_int portname in
      if leb_ℤ port (pos 0) && ltb 0 (size portname)
      then elim (get_serv_by_name portname) [
        | some p ↦ if leb_ℤ (pos p) (pos 0) then throw illegal_port else ok (pos p)
        | none ↦ throw illegal_port
      ]
      else if leb_ℤ port (pos 0)
      then throw illegal_port
      else ok port

  -- `connect(destination)`, up to its call of `connect(hostname, port)`.
  unfoldable pub parse_destination : Bool → List S → Result (S × ℤ)
  unfolding port_of
  parse_destination is_empty (hostname ∷ portname ∷ []) =
      if is_empty
      then throw illegal_argument
      else elim (port_of portname) [ ok port ↦ ok (hostname, port) | throw e ↦ throw e ]
  parse_destination is_empty tokens = throw illegal_argument

-- What is left of `connect`: the addresses tried, the one that the socket is connected to, and how
-- it ended.
pub record Connected (A : Type 0) : Type 0 where
  pub tried : List A
  pub address : Option A
  pub outcome : Thrown

-- What the calls after the loop answer: `none` is success of `setsockopt`, `some` its `errno`.
pub record BufferAnswers : Type 0 where
  pub get_rcvbuf : Result ℤ
  pub set_rcvbuf : Option ℕ

-- From `getsockopt` on.
unfoldable pub set_buffer : BufferAnswers → Thrown
set_buffer os = elim os.get_rcvbuf [
  | throw e ↦ throw e
  | ok size ↦ elim os.set_rcvbuf [ none ↦ done | some errno ↦ throw (socket_exception errno) ]
]

module _ {A : Type 0} where
  -- The loop over the addresses that `getaddrinfo` found, of which there is at least one, and what
  -- follows it. `refuses` is the `errno` of `::connect`, or `none` if it connects.
  unfoldable pub try_connect : (A → Option ℕ) → BufferAnswers → A → List A → Connected A
  unfolding set_buffer
  try_connect refuses os a [] = elim (refuses a) [
    | none ↦ record { tried = a ∷ []; address = some a; outcome = set_buffer os }
    | some errno ↦ record {
      tried = a ∷ [];
      address = none;
      outcome = throw (socket_exception errno);
    }
  ]
  try_connect refuses os a (b ∷ rest) =
      let later = try_connect refuses os b rest in
      elim (refuses a) [
        | none ↦ record { tried = a ∷ []; address = some a; outcome = set_buffer os }
        | some errno ↦ record later { tried = a ∷ later.tried }
      ]

  -- `connect(hostname, port)`; `found` is what `getaddrinfo` finds.
  unfoldable pub connect : Result (A × List A) → (A → Option ℕ) → BufferAnswers → Connected A
  unfolding try_connect
  connect found refuses os = elim found [
    | ok (a, others) ↦ try_connect refuses os a others
    | throw e ↦ record { tried = []; address = none; outcome = throw e }
  ]

  -- The address that the socket is bound to. `bound` is the `errno` of `::bind`, or `none`.
  unfoldable pub set_source_ip : {Ip : Type 0} → (Ip → ℤ → A) → List Ip → Option ℕ → Result A
  unfolding get_sock_addr
  set_source_ip sock_addr resolved bound = elim (get_sock_addr sock_addr resolved (pos 0)) [
    | throw e ↦ throw e
    | ok address ↦ elim bound [
      | none ↦ ok address
      | some errno ↦ throw (could_not_bind_to_interface errno)
    ]
  ]

  -- The destructor, after it has stopped the receiver.
  unfoldable pub destroy_sender : {D : Type 0} → SenderThread D → List (Call A)
  destroy_sender t = close_if_set t.sockfd
