-- ===== src/Bouncer/Thread/Sharing/Losses.antt =====
-- What the unlocked counter loses, and what it counts twice.
use udppingpong.Base.{
  ℕ, ◌+◌, ◌%◌, ◌≡◌, refl, Bool, true, false, Option, none, some, List, [], ◌∷◌, sum, arith,
  if◌then◌else◌,
}
use udppingpong.Base.Word.{word_mod, add64}
use udppingpong.Bouncer.Thread.Sharing.{
  Turn, worker, collector, Field, take_turn, run_turns, at_rest,
}

-- What the assignments of 0 have taken away that was in no copy, and what stores have brought back
-- that an assignment of 0 had taken away.
pub record Tally : Type 0 where
  pub lost : ℕ
  pub back : ℕ

-- `since` is what has come to the field since the copy that the collector holds; `wiped` tells
-- whether 0 has been assigned since the load whose store is to come.
unfoldable pub tally : List Turn → Field → ℕ → Bool → Tally
unfolding take_turn
tally [] s since wiped = record { lost = 0; back = 0 }
tally (worker ∷ ts) s since wiped =
    let s' = (take_turn worker s).0 in
    elim (s.loaded) [
      | none ↦ tally ts s' since false
      | some (v, n) ↦
          let again = if wiped then v else 0 in
          let rest = tally ts s' (since + n + again) false in
          record rest { back = again + rest.back }
    ]
tally (collector ∷ ts) s since wiped =
    let s' = (take_turn collector s).0 in
    elim (s.ret) [
      | none ↦ tally ts s' 0 wiped
      | some c ↦ let rest = tally ts s' 0 true in record rest { lost = since + rest.lost }
    ]

-- What is still to be stored.
abbrev pub in_hand : Field → ℕ
in_hand s = elim (s.loaded) [ none ↦ sum s.adding | some (v, n) ↦ n + sum s.adding ]

abbrev IsLoaded : ℕ → Option (ℕ × ℕ) → Bool → Type 0
IsLoaded value none wiped = Unit
IsLoaded value (some (v, n)) wiped = value ≡ (if wiped then 0 else v)

abbrev IsCopied : ℕ → Option ℕ → ℕ → Type 0
IsCopied value none since = Unit
IsCopied value (some c) since = value % word_mod ≡ (c + since) % word_mod

abbrev Account : List Turn → Field → ℕ → Bool → Type 0
Account ts s since wiped =
    let (last, reported) = run_turns ts s in
    let t = tally ts s since wiped in
    (sum reported + last.value + in_hand last + t.lost) % word_mod
    ≡ (s.value + in_hand s + t.back) % word_mod

turns_add_up :
    (ts : List Turn) (value : ℕ) (adding : List ℕ) (loaded : Option (ℕ × ℕ)) (ret : Option ℕ)
    (since : ℕ) (wiped : Bool)
    → IsLoaded value loaded wiped
    → IsCopied value ret since
    → Account ts (record { value = value; adding = adding; loaded = loaded; ret = ret }) since wiped
unfolding run_turns tally add64
turns_add_up [] value adding loaded ret since wiped l c = omega arith
turns_add_up (worker ∷ ts) value [] none ret since wiped l c =
    turns_add_up ts value [] none ret since false tt c
turns_add_up (worker ∷ ts) value (n ∷ ns) none ret since wiped l c =
    let rest = turns_add_up ts value ns (some (value, n)) ret since false refl c in
    omega (arith, rest)
turns_add_up (worker ∷ ts) value adding (some (v, n)) none since true l c =
    omega (arith, l, turns_add_up ts (add64 v n) adding none none (since + n + v) false tt tt)
turns_add_up (worker ∷ ts) value adding (some (v, n)) none since false l c =
    omega (arith, l, turns_add_up ts (add64 v n) adding none none (since + n + 0) false tt tt)
turns_add_up (worker ∷ ts) value adding (some (v, n)) (some k) since true l c =
    let copied : IsCopied (add64 v n) (some k) (since + n + v) = omega (arith, l, c) in
    omega
      (arith, l, turns_add_up ts (add64 v n) adding none (some k) (since + n + v) false tt copied)
turns_add_up (worker ∷ ts) value adding (some (v, n)) (some k) since false l c =
    let copied : IsCopied (add64 v n) (some k) (since + n + 0) = omega (arith, l, c) in
    omega
      (arith, l, turns_add_up ts (add64 v n) adding none (some k) (since + n + 0) false tt copied)
turns_add_up (collector ∷ ts) value adding loaded none since wiped l c =
    turns_add_up ts value adding loaded (some value) 0 wiped l (omega arith)
turns_add_up (collector ∷ ts) value adding none (some k) since wiped l c =
    omega (arith, turns_add_up ts 0 adding none none 0 true tt tt, c)
turns_add_up (collector ∷ ts) value adding (some (v, n)) (some k) since wiped l c =
    omega (arith, turns_add_up ts 0 adding (some (v, n)) none 0 true refl tt, c)

-- For every order of the turns of a worker and of the collecting thread on a field of the counter,
-- starting between two updates and two collections: what is returned, what the field holds at the
-- end, what is still to be added and what is lost make up, modulo 2 ^ 64, what the field held, what
-- was to be added and what is brought back. Lost is what comes to the field between a copy and the
-- assignment of 0 after it; brought back is what a store writes again that was assigned 0 since its
-- load. So nothing else is lost, and nothing else is told of twice.
pub run_turns_account :
    (ts : List Turn) (value : ℕ) (adding : List ℕ)
    → let (last, reported) = run_turns ts (at_rest value adding) in
      let t = tally ts (at_rest value adding) 0 false in
      (sum reported + last.value + in_hand last + t.lost) % word_mod
      ≡ (value + sum adding + t.back) % word_mod
run_turns_account ts value adding = turns_add_up ts value adding none none 0 false tt tt
