-- ===== src/Bouncer/Reachable.antt =====
-- The states of a bouncer that its owner can bring about by calling its methods in any order, while
-- its workers count packets.
pub mod Sound
pub mod Owned
pub mod Fit
pub mod Examples
use udppingpong.Base.{ℕ, List, [], ◌∷◌, ◌++◌, ◌≡◌, modify, Bool}
use udppingpong.Base.Int.{ℤ}
use udppingpong.Exception.{ok}
use udppingpong.Counter.{Counter}
use udppingpong.Socket.{Call, Answers}
use udppingpong.Bouncer.Thread.{Thread, count}
use udppingpong.Bouncer.{
  Bouncer, create, set_fixed_response_packet_size, set_interface, disable_responses, start, stop,
  get_counter,
}

-- `Reaches nowhere calls b`: from the constructor to `b`, with these socket calls.
pub data Reaches {D A : Type 0} (nowhere : A) : List (Call A) → Bouncer D A → Type 0 where
  created : Reaches nowhere [] (create nowhere)
  sized :
      {cs : List (Call A)} {b c : Bouncer D A} (size : ℕ)
      → Reaches nowhere cs b
      → set_fixed_response_packet_size size b ≡ ok c
      → Reaches nowhere cs c
  addressed :
      {cs : List (Call A)} {b : Bouncer D A} (address : A)
      → Reaches nowhere cs b
      → Reaches nowhere cs (record b { sockaddr = address })
  switched :
      {cs : List (Call A)} {b : Bouncer D A} (flag : Bool)
      → Reaches nowhere cs b
      → Reaches nowhere cs (disable_responses flag b)
  started :
      {cs : List (Call A)} {b : Bouncer D A} (n : ℕ) (main_os : Answers) (os : ℕ → Answers)
      (time : D)
      → Reaches nowhere cs b
      → Reaches nowhere
          (cs ++ (start n main_os os time b).calls)
          (start n main_os os time b).bouncer
  stopped :
      {cs : List (Call A)} {b : Bouncer D A}
      → Reaches nowhere cs b
      → Reaches nowhere (cs ++ (stop b).calls) (stop b).bouncer
  collected :
      {cs : List (Call A)} {b : Bouncer D A} (garbage : Counter D) (now : D)
      → Reaches nowhere cs b
      → Reaches nowhere cs (get_counter garbage now b).1
  counted :
      {cs : List (Call A)} {b : Bouncer D A} (i n : ℕ)
      → Reaches nowhere cs b
      → Reaches nowhere cs (record b { threadpool = modify b.threadpool i (count n) })
