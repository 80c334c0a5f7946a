-- ===== src/Sender/Program.antt =====
-- src/sender.cpp: what `main` makes of the command line, the list of query rates, the list of
-- source addresses, and the preparation of the threads.
pub mod Rates
pub mod Prepare
pub mod Examples
use udppingpong.Base.{
  ℕ, zero, suc, ◌+◌, Bool, true, false, not, ◌&&◌, Option, none, some, List, [], ◌∷◌, ◌++◌, leb,
  length, ltb, if◌then◌else◌, ◌==◌,
}
use mathlib.Core.Option
use udppingpong.Base.Int.{ℤ, pos, eq_ℤ, ltb_ℤ}
use udppingpong.Base.Word.{add64}
use udppingpong.Double.{Double}
use udppingpong.Exception.{Result, ok, throw}
use udppingpong.Sender.Thread.{
  Packet, SenderThread, create, set_packetsize, set_runtime, set_timeout, set_zeitscheibe,
  set_ignore_responses, set_verbose, set_always_randomize,
}

-- The fields of `UDPSender` that the command line sets; `S` is the type of strings.
pub record Settings (D S : Type 0) : Type 0 where
  pub ziel : S
  pub source_ip_list : List S
  pub packetsize : ℤ
  pub laufzeit : ℤ
  pub timeout : ℤ
  pub thread_count : ℤ
  pub zeitscheibe : D
  pub ignore_responses : Bool
  pub always_randomize : Bool

-- A number that is not given, or 0, is replaced.
abbrev pub or_default : ℤ → ℤ → ℤ
or_default default n = if eq_ℤ n (pos 0) then default else n

-- The size of `PACKET`.
abbrev pub sizeof_packet : ℤ
sizeof_packet = pos 16

module _ {D S : Type 0} ⦃d : Double D⦄ where
  open d use {nought, of_int, eq}

  -- The defaults that `main` fills in.
  unfoldable pub fill_in : Settings D S → Settings D S
  fill_in s =
      let size = or_default (pos 512) s.packetsize in
      record s {
        thread_count = or_default (pos 1) s.thread_count;
        packetsize = if ltb_ℤ size sizeof_packet then sizeof_packet else size;
        laufzeit = or_default (pos 10) s.laufzeit;
        timeout = or_default (pos 5) s.timeout;
        zeitscheibe = if eq s.zeitscheibe nought then of_int (pos 1) else s.zeitscheibe;
      }

-- The loop over a range of rates, of 64-bit words, with fuel; `none` if that runs out.
unfoldable pub range_rates : ℕ → ℕ → ℕ → ℕ → Option (List ℕ)
range_rates zero i last step = none
range_rates (suc fuel) i last step =
    let rest = range_rates fuel (add64 i step) last step in
    if leb i last then Option.map (λ rates. i ∷ rates) rest else some []

-- The value of `-r`, as ppl7 takes it apart: empty, a range, or a list of numbers.
pub data RateArgument : Type 0 where
  empty : RateArgument
  range : (first last step : ℕ) → RateArgument
  numbers : List ℕ → RateArgument

unfoldable pub get_query_rates : ℕ → RateArgument → Option (List ℕ)
unfolding range_rates
get_query_rates fuel empty = some (0 ∷ [])
get_query_rates fuel (range first last step) = range_rates fuel first last step
get_query_rates fuel (numbers rates) = some rates

module _ {S : Type 0} (trimmed : S → S) (is_empty is_comment : S → Bool) where
  -- `readSourceIPList`: the lines of a file, trimmed, without the empty ones and those with a `#`.
  unfoldable pub read_source_ip_list : List S → List S → List S
  read_source_ip_list [] addresses = addresses
  read_source_ip_list (line ∷ lines) addresses =
      let ip = trimmed line in
      read_source_ip_list lines
        (if not (is_empty ip) && not (is_comment ip) then addresses ++ ip ∷ [] else addresses)

-- The index of the next source address: `si++; if (si>=SourceIpList.size()) si=0;`
abbrev pub next_source : ℕ → ℕ → ℕ
next_source si size = if leb size (si + 1) then 0 else si + 1
