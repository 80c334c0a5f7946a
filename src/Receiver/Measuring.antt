-- ===== src/Receiver/Measuring.antt =====
-- What the receiver counts and measures.
use udppingpong.Base.{
  ℕ, ◌+◌, ◌%◌, ◌<◌, ◌≡◌, inl, inr, refl, Option, none, some, List, [], ◌∷◌, ◌++◌, ◌&&◌, map,
  append-nil, arith, sum, length, leb, if◌then◌else◌, Bool-cases, All, sym,
}
use udppingpong.Base.Word.{word_mod, add64}
use mathlib.Core.List.{foldl}
use mathlib.Core.Path.{subst}
use udppingpong.Double.Extremes.{
  IsMinimum, IsMaximum, mins, maxs, mins_first, maxs_first, IsPositive,
}
use udppingpong.Double.{Double, IsOrdered}
use udppingpong.Receiver.{
  Receiver, Arrival, Pass, reset_counter, rtt_of, count_packet, handle, loop, run,
}

module _ {D : Type 0} ⦃d : Double D⦄ where
  open d use {nought, add, lt, eq}

  -- The packets one after the other.
  abbrev count_all : Receiver D → List (Arrival D) → Receiver D
  count_all r [] = r
  count_all r (a ∷ rest) = count_all (count_packet a r) rest

  count_all-handle :
      (r : Receiver D) (o : Option (Arrival D)) (rest : List (Arrival D))
      → count_all r ((handle r o).1 ++ rest) ≡ count_all (handle r o).0 rest
  unfolding handle
  count_all-handle r none rest = refl
  count_all-handle r (some a) rest = refl

  loop-count_all :
      (r : Receiver D) (next : ℕ) (ps : List (Pass D))
      → (loop r next ps).receiver ≡ count_all r (loop r next ps).arrivals
  unfolding loop
  loop-count_all r next [] = refl
  loop-count_all r next (p ∷ ps) =
      let s = (handle r p.received).0 in
      let next' = if leb next p.clock then next + 1 else next in
      let rest = (loop s next' ps).arrivals in
      elim (Bool-cases (leb next p.clock && p.should_stop)) [
        | inl e ↦
            rw e
              (ground (arith, count_all-handle r p.received [], append-nil (handle r p.received).1))
        | inr e ↦ rw (e, count_all-handle r p.received rest) (loop-count_all s next' ps)
      ]

  record Totals (r s : Receiver D) (taken : List (Arrival D)) : Type 0 where
    received : s.counter_received ≡ add64 r.counter_received (length taken)
    bytes : s.bytes_received ≡ add64 r.bytes_received (sum (map (λ a. a.bytes) taken))
    total : s.rtt_total ≡ foldl add r.rtt_total (map rtt_of taken)

  count_all-Totals :
      (r : Receiver D) (taken : List (Arrival D))
      → r.counter_received < word_mod
      → r.bytes_received < word_mod
      → Totals r (count_all r taken) taken
  unfolding count_packet add64
  count_all-Totals r [] h k = record { received = omega arith; bytes = omega arith; total = refl }
  count_all-Totals r (a ∷ rest) h k =
      let s = count_all-Totals (count_packet a r) rest (omega arith) (omega arith) in
      record {
        received = omega (arith, s.received);
        bytes = omega (arith, s.bytes);
        total = s.total;
      }

  count_all-mins :
      (r : Receiver D) (taken : List (Arrival D))
      → ((count_all r taken).rtt_min ≡ mins r.rtt_min (map rtt_of taken))
        × ((count_all r taken).rtt_max ≡ maxs r.rtt_max (map rtt_of taken))
  unfolding count_packet mins maxs
  count_all-mins r [] = (refl, refl)
  count_all-mins r (a ∷ rest) = count_all-mins (count_packet a r) rest

module _ {D : Type 0} ⦃d : Double D⦄ where
  open d use {nought, add, lt}

  -- The receiver after a run counts the packets that it took in and their bytes, modulo 2 ^ 64, and
  -- has added up their round trip times in the order of arrival. It starts from nothing, whatever
  -- it held before.
  pub run_totals :
      (r : Receiver D) (start : ℕ) (ps : List (Pass D))
      → let o = run r start ps in
        (o.receiver.counter_received ≡ length o.arrivals % word_mod)
        × (o.receiver.bytes_received ≡ sum (map (λ a. a.bytes) o.arrivals) % word_mod)
        × (o.receiver.rtt_total ≡ foldl add nought (map rtt_of o.arrivals))
  unfolding run reset_counter add64
  run_totals r start ps =
      let taken = (run r start ps).arrivals in
      let t = count_all-Totals (reset_counter r) taken (omega arith) (omega arith) in
      rw (loop-count_all (reset_counter r) (start + 1) ps)
        (omega (arith, t.received), omega (arith, t.bytes), t.total)

  run-mins :
      (r : Receiver D) (start : ℕ) (ps : List (Pass D)) (taken : List (Arrival D))
      → (run r start ps).arrivals ≡ taken
      → ((run r start ps).receiver.rtt_min ≡ mins nought (map rtt_of taken))
        × ((run r start ps).receiver.rtt_max ≡ maxs nought (map rtt_of taken))
  unfolding run reset_counter
  run-mins r start ps taken e =
      let both = count_all-mins (reset_counter r) (run r start ps).arrivals in
      rw (← e, loop-count_all (reset_counter r) (start + 1) ps) both

  -- If at least one packet came in and every round trip time is positive, `rtt_min` and `rtt_max`
  -- are among the times, no time is less than `rtt_min`, and `rtt_max` is less than none.
  pub run_extremes :
      (laws : IsOrdered D) (r : Receiver D) (start : ℕ) (ps : List (Pass D)) (a : Arrival D)
      (others : List (Arrival D))
      → (run r start ps).arrivals ≡ a ∷ others
      → All IsPositive (map rtt_of (a ∷ others))
      → let s = (run r start ps).receiver in
        let times = map rtt_of (a ∷ others) in IsMinimum s.rtt_min times × IsMaximum s.rtt_max times
  run_extremes laws r start ps a others e p =
      let times = map rtt_of (a ∷ others) in
      let (least, greatest) = run-mins r start ps (a ∷ others) e in
      (
        subst (λ m. IsMinimum m times) (sym least)
            (mins_first laws (rtt_of a) (map rtt_of others) p),
        subst (λ m. IsMaximum m times) (sym greatest)
            (maxs_first laws (rtt_of a) (map rtt_of others) p.0),
      )
