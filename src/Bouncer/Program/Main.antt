-- ===== src/Bouncer/Program/Main.antt =====
-- src/bouncer.cpp: `main` as a whole.
pub mod Balance
pub mod Examples
use udppingpong.Base.{ℕ, Bool, false, ◌||◌, List, [], ◌∷◌, ◌++◌, Option, none, some, if◌then◌else◌}
use udppingpong.Base.Int.{ℤ}
use udppingpong.Base.Word.{word_of}
use udppingpong.Double.{Double}
use udppingpong.Exception.{Result, ok, throw}
use udppingpong.Sensor.System.{SystemStat}
use udppingpong.Status.{Status}
use udppingpong.Socket.{Call, Answers}
use udppingpong.Bouncer.{Bouncer, create, start, stop, destroy_bouncer}
use udppingpong.Bouncer.Program.{Arguments, exits, starts, set_up, Round, run_bouncer}

-- What the system answers: to the calls for the bouncer's own socket, and to those of thread i; what
-- `sampleTime` of a new thread holds; the time when the loop starts, a sample then, and its rounds.
pub record World (D N : Type 0) : Type 0 where
  pub main_os : Answers
  pub os : ℕ → Answers
  pub time : D
  pub loop_start : D
  pub stat_start : SystemStat D N
  pub rounds : List (Round D N)

-- The exit code, the socket calls made, and the lines printed once a second.
pub record Ended (D A : Type 0) : Type 0 where
  pub code : ℕ
  pub calls : List (Call A)
  pub lines : List (Status D)

module _ {D N : Type 0} where
  -- Whether the loop ends within the rounds.
  abbrev pub stops : List (Round D N) → Bool
  stops [] = false
  stops (r ∷ rs) = r.stop_flag || stops rs

module _ {D A N : Type 0} ⦃d : Double D⦄ where
  -- From the start on; the destructor comes last. `none` if the rounds given do not end the loop.
  unfoldable pub serve : Bool → World D N → ℤ → Bouncer D A → Result (Option (Ended D A))
  unfolding start run_bouncer stop destroy_bouncer
  serve quiet w threads b =
      let s = start (word_of threads) w.main_os w.os w.time b in
      let (c, lines) = run_bouncer quiet w.loop_start w.stat_start w.rounds s.bouncer in
      let t = stop c in
      elim s.outcome [
        | throw e ↦ throw e
        | ok _ ↦ ok (
            if stops w.rounds
            then some (record {
              code = 0;
              calls = s.calls ++ t.calls ++ destroy_bouncer t.bouncer;
              lines = lines;
            })
            else none)
      ]

  -- A `main` that returns early has opened no socket. An exception ends the program.
  unfoldable pub main :
      {S Ip : Type 0}
      → (S → ℤ)
      → (S → List Ip)
      → (Ip → ℤ → A)
      → A
      → Arguments S
      → Bool
      → World D N
      → Result (Option (Ended D A))
  unfolding set_up create serve
  main to_int resolve sock_addr nowhere a quiet w =
      elim (set_up to_int resolve sock_addr a (create nowhere)) [
        | throw e ↦ throw e
        | ok setup ↦ elim setup [
          | exits code ↦ ok (some (record { code = code; calls = []; lines = [] }))
          | starts b threads ↦ serve quiet w threads b
        ]
      ]
