-- ===== src/Bouncer/Program/Settings.antt =====
-- The settings with which the bouncer is started.
use udppingpong.Base.{ℕ, ◌≡◌, List, [], ◌∷◌, arith, ltb, if◌then◌else◌, refl}
use udppingpong.Base.Int.{ℤ}
use udppingpong.Exception.{Result, ok, throw}
use udppingpong.Bouncer.{Bouncer, disable_responses, set_interface, set_fixed_response_packet_size}
use mathlib.Core.Path.{subst}
use udppingpong.Bouncer.Thread.Replies.{IsPacketSize}
use udppingpong.Bouncer.Program.{Arguments, starts, with_size, by_server, set_up}

module _ {D A : Type 0} where
  set_interface-size :
      {Ip : Type 0} (sock_addr : Ip → ℤ → A) (ips : List Ip) (port : ℤ) (b c : Bouncer D A)
      → set_interface sock_addr ips port b ≡ ok c
      → c.packet_size ≡ b.packet_size
  unfolding set_interface
  set_interface-size sock_addr [] port b c e = ground arith
  set_interface-size sock_addr (ip ∷ []) port b c e = ground (arith, e)
  set_interface-size sock_addr (ip ∷ other ∷ ips) port b c e = ground arith

module _ {D A S : Type 0} where
  -- How `c` is set up by the command line, from a bouncer with the packet size `size`.
  pub record IsSetUp (a : Arguments S) (size : ℕ) (c : Bouncer D A) : Type 0 where
    pub valid : IsPacketSize c.packet_size
    pub packet_size : c.packet_size ≡ (if ltb 0 a.packet_size then a.packet_size else size)
    pub no_echo : c.no_echo ≡ a.noecho

  with_size-IsSetUp :
      (a : Arguments S) (b c : Bouncer D A) (threads : ℤ)
      → IsPacketSize b.packet_size
      → b.no_echo ≡ a.noecho
      → with_size a b ≡ ok (starts c threads)
      → IsSetUp a b.packet_size c
  unfolding with_size set_fixed_response_packet_size
  with_size-IsSetUp a b c threads v n e = record {
    valid = ground (arith, e);
    packet_size = ground (arith, e);
    no_echo = ground (arith, e);
  }

  by_server-IsSetUp :
      {Ip : Type 0} (to_int : S → ℤ) (resolve : S → List Ip) (sock_addr : Ip → ℤ → A)
      (a : Arguments S) (parts : List S) (b c : Bouncer D A) (threads : ℤ)
      → IsPacketSize b.packet_size
      → by_server to_int resolve sock_addr a parts b ≡ ok (starts c threads)
      → IsSetUp a b.packet_size c
  unfolding by_server
  by_server-IsSetUp to_int resolve sock_addr a [] b c threads v e = ground arith
  by_server-IsSetUp to_int resolve sock_addr a (host ∷ []) b c threads v e = ground arith
  by_server-IsSetUp to_int resolve sock_addr a (host ∷ port ∷ x ∷ xs) b c threads v e = ground arith
  by_server-IsSetUp to_int resolve sock_addr a (host ∷ port ∷ []) b c threads v e =
      by_interface (set_interface sock_addr (resolve host) (to_int port) b) refl e
    where
      by_interface :
          (r : Result (Bouncer D A))
          → set_interface sock_addr (resolve host) (to_int port) b ≡ r
          → (elim r [ ok b' ↦ with_size a (disable_responses a.noecho b') | throw x ↦ throw x ])
            ≡ ok (starts c threads)
          → IsSetUp a b.packet_size c
      by_interface (throw x) same k = ground arith
      by_interface (ok b') same k =
          let size = set_interface-size sock_addr (resolve host) (to_int port) b b' same in
          subst (λ n. IsSetUp a n c) size
            (with_size-IsSetUp a (disable_responses a.noecho b') c threads (rw size v) refl k)

  -- When `main` gets to start a bouncer that was made with a valid packet size, the size is valid, it
  -- is that of the command line if one is given there, and answers are switched as `--noecho` says.
  set_up-IsSetUp :
      {Ip : Type 0} (to_int : S → ℤ) (resolve : S → List Ip) (sock_addr : Ip → ℤ → A)
      (a : Arguments S) (b c : Bouncer D A) (threads : ℤ)
      → IsPacketSize b.packet_size
      → set_up to_int resolve sock_addr a b ≡ ok (starts c threads)
      → IsSetUp a b.packet_size c
  unfolding set_up
  set_up-IsSetUp to_int resolve sock_addr a b c threads v e =
      by_server-IsSetUp to_int resolve sock_addr a a.server b c threads v (ground (arith, e))
