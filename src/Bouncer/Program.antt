-- ===== src/Bouncer/Program.antt =====
-- src/bouncer.cpp: the command line of the bouncer, and the loop that collects its counters once a
-- second and prints them with samples of the system.
pub mod Settings
pub mod Main
pub mod Lines
pub mod Examples
use udppingpong.Base.{
  ℕ, ◌+◌, Bool, true, false, not, ◌&&◌, ◌||◌, Option, none, some, List, [], ◌∷◌, ◌++◌, ltb, ◌==◌,
  if◌then◌else◌,
}
use udppingpong.Base.Int.{ℤ, pos, eq_ℤ}
use udppingpong.Double.{Double}
use udppingpong.Bouncer.Thread.{Thread, count}
use udppingpong.Sensor.System.{SystemStat}
use udppingpong.Status.{Status, bouncer_status}
use udppingpong.Exception.{Result, ok, throw}
use udppingpong.Counter.{Counter}
use udppingpong.Bouncer.{
  Bouncer, get_counter, disable_responses, set_interface, set_fixed_response_packet_size,
}

-- The command line, as ppl7 takes it apart: `server` are the parts of HOST:PORT, `port_of` the
-- number in the second.
pub record Arguments (S : Type 0) : Type 0 where
  pub help : Bool
  pub server_given : Bool
  pub server : List S
  pub noecho : Bool
  pub thread_count : ℤ
  pub packet_size : ℕ

-- What `main` returns early with, or the bouncer and the number of threads to start.
pub data Setup (D A : Type 0) : Type 0 where
  exits : (code : ℕ) → Setup D A
  starts : Bouncer D A → (threads : ℤ) → Setup D A

module _ {D A S : Type 0} where
  -- From the reading of `-n` on.
  unfoldable pub with_size : Arguments S → Bouncer D A → Result (Setup D A)
  with_size a b =
      let threads = if eq_ℤ a.thread_count (pos 0) then pos 1 else a.thread_count in
      if ltb 0 a.packet_size
      then if ltb a.packet_size 32 || ltb 4096 a.packet_size
        then ok (exits 1)
        else elim (set_fixed_response_packet_size a.packet_size b) [
          | ok c ↦ ok (starts c threads)
          | throw e ↦ throw e
        ]
      else ok (starts b threads)

  -- With the parts of HOST:PORT.
  unfoldable pub by_server :
      {Ip : Type 0}
      → (S → ℤ)
      → (S → List Ip)
      → (Ip → ℤ → A)
      → Arguments S
      → List S
      → Bouncer D A
      → Result (Setup D A)
  unfolding disable_responses with_size
  by_server to_int resolve sock_addr a (host ∷ port ∷ []) bouncer =
      elim (set_interface sock_addr (resolve host) (to_int port) bouncer) [
        | ok b ↦ with_size a (disable_responses a.noecho b)
        | throw e ↦ throw e
      ]
  by_server to_int resolve sock_addr a parts bouncer = ok (exits 1)

  -- `main`, up to `signal`; an exception ends the program.
  unfoldable pub set_up :
      {Ip : Type 0}
      → (S → ℤ)
      → (S → List Ip)
      → (Ip → ℤ → A)
      → Arguments S
      → Bouncer D A
      → Result (Setup D A)
  unfolding by_server
  set_up to_int resolve sock_addr a bouncer =
      if a.help
      then ok (exits 0)
      else if a.server_given
      then by_server to_int resolve sock_addr a a.server bouncer
      else ok (exits 1)

-- A round of the loop: the stop flag before it, the time after the sleep of 100 ms, what the local
-- counter of `getCounter` holds, the time of its sample, and what `sampleSensorData` would give.
-- During the sleep worker i counts packets of the sizes `handled i`.
pub record Round (D N : Type 0) : Type 0 where
  pub stop_flag : Bool
  pub now : D
  pub garbage : Counter D
  pub sample_time : D
  pub stat : SystemStat D N
  pub handled : ℕ → List ℕ

module _ {D : Type 0} where
  -- A worker counts packets of these sizes.
  unfoldable pub work_off : List ℕ → Thread D → Thread D
  unfolding count
  work_off [] t = t
  work_off (n ∷ ns) t = work_off ns (count n t)

  -- All workers do, from number i on.
  unfoldable pub work_off_all : (ℕ → List ℕ) → ℕ → List (Thread D) → List (Thread D)
  unfolding work_off
  work_off_all handled i [] = []
  work_off_all handled i (t ∷ ts) = work_off (handled i) t ∷ work_off_all handled (i + 1) ts

module _ {D A N : Type 0} ⦃d : Double D⦄ where
  open d use {of_int, add, le}

  -- The loop of `run`, with the lines printed; it ends with the flag or with the rounds given. No
  -- worker counts while `getCounter` collects.
  unfoldable pub collecting :
      Bool → D → SystemStat D N → List (Round D N) → Bouncer D A → Bouncer D A × List (Status D)
  unfolding get_counter bouncer_status work_off_all
  collecting quiet end stat_start [] b = (b, [])
  collecting quiet end stat_start (r ∷ rs) b =
      let due = not quiet && le end r.now in
      let a = record b { threadpool = work_off_all r.handled 0 b.threadpool } in
      let (c, b') = get_counter r.garbage r.sample_time a in
      let (last, others) =
        collecting quiet (if due then add end (of_int (pos 1)) else end)
          (if due then r.stat else stat_start) rs (if due then b' else a) in
      if r.stop_flag
      then (b, [])
      else (last, if due then bouncer_status stat_start r.stat c ∷ others else others)

  unfoldable pub run_bouncer :
      Bool → D → SystemStat D N → List (Round D N) → Bouncer D A → Bouncer D A × List (Status D)
  unfolding collecting
  run_bouncer quiet start stat_start rs b =
      collecting quiet (add start (of_int (pos 1))) stat_start rs b
