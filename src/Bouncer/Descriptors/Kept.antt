-- ===== src/Bouncer/Descriptors/Kept.antt =====
-- What `getCounter` and `stop` leave of the descriptors that are held.
use udppingpong.Socket.Descriptors.{held}
use udppingpong.Bouncer.Descriptors.{holds, holds_all, stop-sockfd}
use udppingpong.Bouncer.Thread.{Thread}
use udppingpong.Counter.{Counter, clear}
use udppingpong.Base.Int.{ℤ}
use udppingpong.Bouncer.{collect, get_counter, Bouncer, add_counter, stop}
use udppingpong.Base.{◌+◌, ◌≡◌, refl, List, [], ◌∷◌, arith, ap}

module _ {D : Type 0} where
  collect-holds :
      (fd : ℤ) (c : Counter D) (ts : List (Thread D)) → holds fd (collect c ts).1 ≡ holds fd ts
  unfolding collect
  collect-holds fd c [] = refl
  collect-holds fd c (t ∷ ts) = omega (arith, collect-holds fd (add_counter c t.counter) ts)

module _ {D A : Type 0} where
  pub get_counter-holds :
      (fd : ℤ) (garbage : Counter D) (now : D) (b : Bouncer D A)
      → holds_all fd (get_counter garbage now b).1 ≡ holds_all fd b
  unfolding get_counter
  get_counter-holds fd garbage now b =
      ap (λ n. held fd b.sockfd + n)
        (collect-holds fd (record (clear garbage) { sample_time = now }) b.threadpool)

  pub stop-holds : (fd : ℤ) (b : Bouncer D A) → holds_all fd (stop b).bouncer ≡ 0
  unfolding stop
  stop-holds fd b = omega (arith, stop-sockfd fd b)
