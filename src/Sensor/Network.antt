-- ===== src/Sensor/Network.antt =====
-- What a sample of the network holds.
use mathlib.Core.Path.{subst}
use udppingpong.Base.Word.{word_mod, add_all, add_all-zero}
use udppingpong.Base.{
  ◌≡◌, refl, Bool, List, [], ◌∷◌, if◌then◌else◌, Bool-cases, inl, inr, Option, true, sum, some, ◌↔◌,
  map, arith, ap, none, ◌%◌, ◌∙◌, Option-cases,
}
use mathlib.Core.List.{foldl}
use udppingpong.Base.Int.{pos, ltb_ℤ}
use udppingpong.Sensor.{
  Interface, Line, Sample, add_interface, interface_of_line, sample_lines, add_traffic, Traffic,
  sample_network, clear_traffic, insert, find,
}

module _ {N : Type 0} (same : N → N → Bool) where
  -- The lines that stand for an interface.
  abbrev pub taken : List (Line N) → List (Interface N)
  taken [] = []
  taken (line ∷ rest) =
      if ltb_ℤ (pos 1) line.colon then interface_of_line line ∷ taken rest else taken rest

  -- One more at a time.
  abbrev pub add_taken : List (Interface N) → Sample N → Sample N
  add_taken [] s = s
  add_taken (i ∷ rest) s = add_taken rest (add_interface same i s)

  pub sample_lines-taken :
      (lines : List (Line N)) (s : Sample N) → sample_lines same lines s ≡ add_taken (taken lines) s
  unfolding sample_lines
  sample_lines-taken [] s = refl
  sample_lines-taken (line ∷ rest) s = elim (Bool-cases (ltb_ℤ (pos 1) line.colon)) [
    | inl e ↦ rw e (sample_lines-taken rest (add_interface same (interface_of_line line) s))
    | inr e ↦ rw e (sample_lines-taken rest s)
  ]

  -- Both totals.
  add_taken-received :
      (is : List (Interface N)) (s : Sample N)
      → (add_taken is s).received ≡ foldl (λ a i. add_traffic a i.receive) s.received is
  unfolding add_interface
  add_taken-received [] s = refl
  add_taken-received (i ∷ is) s = add_taken-received is (add_interface same i s)

  add_taken-transmitted :
      (is : List (Interface N)) (s : Sample N)
      → (add_taken is s).transmitted ≡ foldl (λ a i. add_traffic a i.transmit) s.transmitted is
  unfolding add_interface
  add_taken-transmitted [] s = refl
  add_taken-transmitted (i ∷ is) s = add_taken-transmitted is (add_interface same i s)

module _ {N : Type 0} where
  -- The sum of the traffic of some interfaces, as words.
  abbrev pub traffic_sum : (Interface N → Traffic) → List (Interface N) → Traffic
  traffic_sum f is = record {
    bytes = sum (map (λ i. (f i).bytes) is) % word_mod;
    packets = sum (map (λ i. (f i).packets) is) % word_mod;
    errs = sum (map (λ i. (f i).errs) is) % word_mod;
    drop = sum (map (λ i. (f i).drop) is) % word_mod;
  }

  abbrev traffic_all : (Interface N → Traffic) → Traffic → List (Interface N) → Traffic
  traffic_all f a is = record {
    bytes = add_all a.bytes (map (λ i. (f i).bytes) is);
    packets = add_all a.packets (map (λ i. (f i).packets) is);
    errs = add_all a.errs (map (λ i. (f i).errs) is);
    drop = add_all a.drop (map (λ i. (f i).drop) is);
  }

  foldl-traffic_all :
      (f : Interface N → Traffic) (a : Traffic) (is : List (Interface N))
      → foldl (λ a i. add_traffic a (f i)) a is ≡ traffic_all f a is
  unfolding add_traffic add_all
  foldl-traffic_all f a [] = refl
  foldl-traffic_all f a (i ∷ is) = foldl-traffic_all f (add_traffic a (f i)) is

  traffic_all-clear :
      (f : Interface N → Traffic) (is : List (Interface N))
      → traffic_all f clear_traffic is ≡ traffic_sum f is
  traffic_all-clear f is = ground (
    arith,
    add_all-zero (map (λ i. (f i).bytes) is),
    add_all-zero (map (λ i. (f i).packets) is),
    add_all-zero (map (λ i. (f i).errs) is),
    add_all-zero (map (λ i. (f i).drop) is),
  )

module _ {N : Type 0} where
  abbrev pub or_else : Option (Interface N) → Option (Interface N) → Option (Interface N)
  or_else none o = o
  or_else (some i) o = some i

  pub or_else_step :
      (o rest : Option (Interface N)) (i : Interface N) (b : Bool)
      → or_else (or_else o (if b then some i else none)) rest
        ≡ or_else o (if b then some i else rest)
  or_else_step none rest i b = ground arith
  or_else_step (some old) rest i b = refl

  pub or_else-none : (o : Option (Interface N)) → o ≡ or_else o none
  or_else-none none = refl
  or_else-none (some i) = refl

module _ {N : Type 0} (same : N → N → Bool) where
  -- The totals of a sample of the network are the sums, modulo 2 ^ 64, of the traffic in the lines
  -- whose `:` is not among the first two characters, whatever was sampled before.
  sample_network_totals :
      (lines : List (Line N)) (before : List (Interface N))
      → let s = sample_network same lines before in
        (s.received ≡ traffic_sum (λ i. i.receive) (taken same lines))
        × (s.transmitted ≡ traffic_sum (λ i. i.transmit) (taken same lines))
  unfolding sample_network
  sample_network_totals lines before =
      let is = taken same lines in
      let start : Sample N = record {
        interfaces = before;
        received = clear_traffic;
        transmitted = clear_traffic;
      } in
      let all = sample_lines-taken same lines start in
      (
        ap (λ (s : Sample N). s.received) all
            ∙ add_taken-received same is start
            ∙ foldl-traffic_all (λ i. i.receive) clear_traffic is
            ∙ traffic_all-clear (λ i. i.receive) is,
        ap (λ (s : Sample N). s.transmitted) all
            ∙ add_taken-transmitted same is start
            ∙ foldl-traffic_all (λ i. i.transmit) clear_traffic is
            ∙ traffic_all-clear (λ i. i.transmit) is,
      )

  module _ (same_iff : (a b : N) → (same a b ≡ true) ↔ (a ≡ b)) where
    pub find-insert :
        (name : N) (nif : Interface N) (is : List (Interface N))
        → find same name (insert same nif is)
          ≡ or_else (find same name is) (if same nif.name name then some nif else none)
    unfolding insert find
    find-insert name nif is = elim (Option-cases (find same nif.name is)) [
      | inl e ↦
          rw (e, insert)
            (elim (Bool-cases (same nif.name name)) [
              | inl s ↦
                  let e' : find same name is ≡ none =
                    subst (λ m. find same m is ≡ none) ((same_iff nif.name name).0 s) e in
                  rw (s, e') refl
              | inr s ↦ ground (arith, s)
            ])
      | inr (old, e) ↦
          rw (e, insert)
            (elim (Bool-cases (same nif.name name)) [
              | inl s ↦
                  let e' : find same name is ≡ some old =
                    subst (λ m. find same m is ≡ some old) ((same_iff nif.name name).0 s) e in
                  rw e' refl
              | inr s ↦ ground (arith, s)
            ])
    ]

    find-add_taken :
        (name : N) (is : List (Interface N)) (s : Sample N)
        → find same name (add_taken same is s).interfaces
          ≡ or_else (find same name s.interfaces) (find same name is)
    unfolding add_interface find
    find-add_taken name [] s = or_else-none (find same name s.interfaces)
    find-add_taken name (i ∷ is) s =
        find-add_taken name is (add_interface same i s)
        ∙ ap (λ o. or_else o (find same name is)) (find-insert name i s.interfaces)
        ∙ or_else_step (find same name s.interfaces) (find same name is) i (same i.name name)

    -- What a sample of the network holds for a name is the entry that was there before it, if there
    -- was one, and otherwise the first line for that name: an entry is never brought up to date.
    pub find-sample_network :
        (name : N) (lines : List (Line N)) (before : List (Interface N))
        → find same name (sample_network same lines before).interfaces
          ≡ or_else (find same name before) (find same name (taken same lines))
    unfolding sample_network
    find-sample_network name lines before =
        let start : Sample N = record {
          interfaces = before;
          received = clear_traffic;
          transmitted = clear_traffic;
        } in
        ap (λ (s : Sample N). find same name s.interfaces) (sample_lines-taken same lines start)
        ∙ find-add_taken name (taken same lines) start
