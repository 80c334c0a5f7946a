-- ===== src/Bouncer/Thread/Trace.antt =====
-- What the calls of a worker show: the packets that came in and those that went out.
use udppingpong.Base.{ℕ, ◌+◌, ◌≡◌, refl, ap, Option, none, some, List, [], ◌∷◌, ◌++◌, arith}
use udppingpong.Bouncer.Thread.{Syscall, recvfrom, sendto, waited}

module _ {A : Type 0} where
  -- The packets received, as sizes and addresses.
  abbrev pub packets : List (Syscall A) → List (ℕ × A)
  packets [] = []
  packets (recvfrom (some p) ∷ cs) = p ∷ packets cs
  packets (recvfrom none ∷ cs) = packets cs
  packets (sendto n a ∷ cs) = packets cs
  packets (waited b ∷ cs) = packets cs

  -- The packets sent.
  abbrev pub sends : List (Syscall A) → List (ℕ × A)
  sends [] = []
  sends (recvfrom r ∷ cs) = sends cs
  sends (sendto n a ∷ cs) = (n, a) ∷ sends cs
  sends (waited b ∷ cs) = sends cs

  -- The answers of `recvfrom`, in order.
  abbrev pub answers : List (Syscall A) → List (Option (ℕ × A))
  answers [] = []
  answers (recvfrom r ∷ cs) = r ∷ answers cs
  answers (sendto n a ∷ cs) = answers cs
  answers (waited b ∷ cs) = answers cs

  abbrev pub bytes : List (ℕ × A) → ℕ
  bytes [] = 0
  bytes ((n, a) ∷ ps) = n + bytes ps

  pub packets-append : (cs ds : List (Syscall A)) → packets (cs ++ ds) ≡ packets cs ++ packets ds
  packets-append [] ds = refl
  packets-append (recvfrom (some p) ∷ cs) ds = ap (◌∷◌ p) (packets-append cs ds)
  packets-append (recvfrom none ∷ cs) ds = packets-append cs ds
  packets-append (sendto n a ∷ cs) ds = packets-append cs ds
  packets-append (waited b ∷ cs) ds = packets-append cs ds

  pub sends-append : (cs ds : List (Syscall A)) → sends (cs ++ ds) ≡ sends cs ++ sends ds
  sends-append [] ds = refl
  sends-append (recvfrom r ∷ cs) ds = sends-append cs ds
  sends-append (sendto n a ∷ cs) ds = ap (◌∷◌ (n, a)) (sends-append cs ds)
  sends-append (waited b ∷ cs) ds = sends-append cs ds

  pub answers-append : (cs ds : List (Syscall A)) → answers (cs ++ ds) ≡ answers cs ++ answers ds
  answers-append [] ds = refl
  answers-append (recvfrom r ∷ cs) ds = ap (◌∷◌ r) (answers-append cs ds)
  answers-append (sendto n a ∷ cs) ds = answers-append cs ds
  answers-append (waited b ∷ cs) ds = answers-append cs ds

  pub bytes-append : (ps qs : List (ℕ × A)) → bytes (ps ++ qs) ≡ bytes ps + bytes qs
  bytes-append [] qs = omega arith
  bytes-append (p ∷ ps) qs = omega (arith, bytes-append ps qs)
