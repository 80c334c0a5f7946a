-- ===== src/Bouncer/Thread/Sharing.antt =====
-- src/UDPEchoBouncerThread.cpp: `run` and `getAndClearCounter` on one field of the counter. The mutex
-- is locked by `getAndClearCounter` only, since the calls around the updates in `run` are commented
-- out. So an update, which loads the field and stores the sum, and a collection, which copies the
-- field and assigns 0 to it, can be interleaved in any order. A turn of a thread is a load, a store,
-- the copy or the assignment; a field has only one worker that updates it.
pub mod Losses
use udppingpong.Base.{ℕ, Option, none, some, List, [], ◌∷◌, ◌++◌, ◌≡◌, refl}
use udppingpong.Base.Word.{add64}
use udppingpong.Bouncer.Thread.{Thread, count, get_and_clear_counter}

pub data Turn : Type 0 where
  worker collector : Turn

-- The field; what the worker has still to add to it, packet after packet; what it has loaded, with
-- what it is to add, between a load and a store; and the copy that the collector holds.
pub record Field : Type 0 where
  pub value : ℕ
  pub adding : List ℕ
  pub loaded : Option (ℕ × ℕ)
  pub ret : Option ℕ

-- `counter.field+=n`: a load, or the store after it.
unfoldable pub update_step : Field → Field
update_step s = elim (s.loaded) [
  | some (v, n) ↦ record s { value = add64 v n; loaded = none }
  | none ↦ elim (s.adding) [
    | [] ↦ s
    | n ∷ ns ↦ record s { adding = ns; loaded = some (s.value, n) }
  ]
]

-- The copy, or the assignment of 0 after it, with the value that is returned then.
unfoldable pub collect_step : Field → Field × List ℕ
collect_step s = elim (s.ret) [
  | none ↦ (record s { ret = some s.value }, [])
  | some c ↦ (record s { value = 0; ret = none }, c ∷ [])
]

unfoldable pub take_turn : Turn → Field → Field × List ℕ
unfolding update_step collect_step
take_turn worker s = (update_step s, [])
take_turn collector s = collect_step s

-- With the values that the collector has returned.
unfoldable pub run_turns : List Turn → Field → Field × List ℕ
unfolding take_turn
run_turns [] s = (s, [])
run_turns (turn ∷ turns) s =
    let (s', first) = take_turn turn s in
    let (last, others) = run_turns turns s' in (last, first ++ others)

-- A field between two updates and two collections.
abbrev pub at_rest : ℕ → List ℕ → Field
at_rest value adding = record { value = value; adding = adding; loaded = none; ret = none }

module _ {D : Type 0} where
  -- What is modelled of two fields, if nothing comes between the two turns, is `count` and
  -- `getAndClearCounter`.
  run_turns-count :
      (n : ℕ) (t : Thread D)
      → let two = worker ∷ worker ∷ [] in
        let u = count n t in
        (run_turns two (at_rest t.counter.packets_received (1 ∷ []))
          ≡ (at_rest u.counter.packets_received [], []))
        × (run_turns two (at_rest t.counter.bytes_received (n ∷ []))
            ≡ (at_rest u.counter.bytes_received [], []))
  unfolding run_turns count
  run_turns-count n t = (refl, refl)

  run_turns-get_and_clear_counter :
      (t : Thread D) (adding : List ℕ)
      → let (c, u) = get_and_clear_counter t in
        run_turns (collector ∷ collector ∷ []) (at_rest t.counter.packets_received adding)
        ≡ (at_rest u.counter.packets_received adding, c.packets_received ∷ [])
  unfolding run_turns get_and_clear_counter
  run_turns-get_and_clear_counter t adding = refl
