-- ===== src/Sender/Program/Rates.antt =====
-- The query rates of a range.
use udppingpong.Base.{ℕ, zero, suc, ◌+◌, ◌<◌, ◌≤◌, ◌≡◌, refl, none, List, [], ◌∷◌, arith}
use udppingpong.Base.Word.{word_mod, add64, add64-zero}
use udppingpong.Sender.Program.{range_rates, get_query_rates, range}

-- n numbers from i on, each greater by a step.
abbrev pub steps : ℕ → ℕ → ℕ → List ℕ
steps zero i step = []
steps (suc n) i step = i ∷ steps n (i + step) step

-- With a step of 0 the loop over a range that holds a rate never ends, whatever fuel it is given.
get_query_rates_forever :
    (fuel first last : ℕ)
    → first ≤ last
    → last < word_mod
    → get_query_rates fuel (range first last 0) ≡ none
unfolding get_query_rates
get_query_rates_forever zero first last h w = refl
get_query_rates_forever (suc fuel) first last h w =
    let same : add64 first 0 ≡ first = add64-zero first (omega (arith, h, w)) in
    let rest = get_query_rates_forever fuel first last h w in
    let tail : range_rates fuel (add64 first 0) last 0 ≡ none = rw same rest in
    rw tail (ground (arith, h))
