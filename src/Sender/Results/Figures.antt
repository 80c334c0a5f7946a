-- ===== src/Sender/Results/Figures.antt =====
-- src/sender.cpp: the figures of `presentResults` and of `saveResultsToCsv`, and the CSV file.
use udppingpong.Base.{
  ℕ, ◌*◌, ◌+◌, List, [], ◌∷◌, ◌++◌, Option, none, some, if◌then◌else◌, All, ◌<◌, ◌^◌, sum, map, ◌≡◌,
  Bool-cases, inl, inr, arith, refl,
}
use udppingpong.Base.Int.{ℤ, pos, ◌*ℤ◌, tdiv, ltb_ℤ}
use udppingpong.Base.Word.{signed64}
use udppingpong.Exception.{Result, ok, ◌>>=◌}
use udppingpong.Double.{Double}
use udppingpong.Sender.Results.{Results}

-- A line with an error code, how often it came, and that per second.
pub record CodeLine : Type 0 where
  pub code : ℕ
  pub count : ℕ
  pub per_second : ℤ

-- What is printed, from top to bottom.
pub record Figures (D : Type 0) : Type 0 where
  pub packets_send : ℕ
  pub qps_send : ℤ
  pub mbit_send : ℤ
  pub packets_received : ℕ
  pub qps_received : ℤ
  pub mbit_received : ℤ
  pub packets_lost : ℕ
  pub percent_lost : D
  pub errors : ℕ
  pub errors_qps : ℤ
  pub errors_0bytes : ℕ
  pub errors_0bytes_qps : ℤ
  pub codes : List CodeLine
  pub rtt_average : D
  pub rtt_min : D
  pub rtt_max : D

-- A line of the CSV file.
pub data CsvLine (D : Type 0) : Type 0 where
  heading : CsvLine D
  figures : (send received errors : ℤ) → (lost average least greatest : D) → CsvLine D

abbrev pub mega : ℤ
mega = pos (1024 * 1024)

module _ {D : Type 0} ⦃d : Double D⦄ where
  open d use {of_int, mul, div, trunc}

  -- `(int64_t)((double)n/duration)`
  abbrev pub per_second : ℕ → D → ℤ
  per_second n duration = trunc (div (of_int (signed64 n)) duration)

  -- `packages_lost*100.0/counter_send`
  abbrev pub percent_lost_of : Results D → D
  percent_lost_of r =
      div (mul (of_int (signed64 r.packages_lost)) (of_int (pos 100)))
        (of_int (signed64 r.counter_send))

  -- In milliseconds.
  abbrev pub in_ms : D → D
  in_ms x = mul x (of_int (pos 1000))

  -- The loop over the codes, from number i on.
  unfoldable pub code_lines : D → ℕ → List ℕ → List CodeLine
  unfolding signed64
  code_lines duration i [] = []
  code_lines duration i (n ∷ ns) =
      let rest = code_lines duration (i + 1) ns in
      if ltb_ℤ (pos 0) (signed64 n)
      then record { code = i; count = n; per_second = per_second n duration } ∷ rest
      else rest

  unfoldable pub present_results : (packetsize thread_count : ℤ) → Results D → Figures D
  unfolding code_lines signed64 ◌*ℤ◌ tdiv
  present_results packetsize thread_count r =
      let qps_send = per_second r.counter_send r.duration in
      record {
        packets_send = r.counter_send;
        qps_send = qps_send;
        mbit_send = tdiv (qps_send *ℤ packetsize *ℤ pos 8) mega;
        packets_received = r.counter_received;
        qps_received = per_second r.counter_received r.duration;
        mbit_received = tdiv (per_second r.bytes_received r.duration *ℤ pos 8) mega;
        packets_lost = r.packages_lost;
        percent_lost = percent_lost_of r;
        errors = r.counter_errors;
        errors_qps = per_second r.counter_errors r.duration;
        errors_0bytes = r.counter_0bytes;
        errors_0bytes_qps = per_second r.counter_0bytes r.duration;
        codes = code_lines r.duration 0 r.counter_errorcodes;
        rtt_average = div (in_ms r.rtt_total) (of_int thread_count);
        rtt_min = in_ms r.rtt_min;
        rtt_max = in_ms r.rtt_max;
      }

  unfoldable pub csv_line : (thread_count : ℤ) → Results D → CsvLine D
  unfolding signed64
  csv_line thread_count r =
      figures (per_second r.counter_send r.duration) (per_second r.counter_received r.duration)
        (per_second r.counter_errors r.duration) (percent_lost_of r)
        (div (in_ms r.rtt_total) (of_int thread_count)) (in_ms r.rtt_min) (in_ms r.rtt_max)

  -- `none` is a file that is not open.
  unfoldable pub save_results_to_csv :
      (thread_count : ℤ) → Results D → Option (List (CsvLine D)) → Option (List (CsvLine D))
  unfolding csv_line
  save_results_to_csv thread_count r none = none
  save_results_to_csv thread_count r (some lines) = some (lines ++ csv_line thread_count r ∷ [])

module _ {D : Type 0} where
  -- An empty file gets a heading.
  abbrev pub with_heading : List (CsvLine D) → List (CsvLine D)
  with_heading [] = heading ∷ []
  with_heading (line ∷ lines) = line ∷ lines

  -- `opened` is what is in the file, if it can be opened; what follows the `return` is never run.
  unfoldable pub open_csv_file : Result (List (CsvLine D)) → Result (List (CsvLine D))
  open_csv_file opened = opened >>= λ lines. ok (with_heading lines)

module _ {D : Type 0} ⦃d : Double D⦄ where
  -- The counts of the error codes that are printed add up to the counts of all codes, if these are
  -- not negative as 64-bit numbers.
  sum-code_lines :
      (duration : D) (i : ℕ) (ns : List ℕ)
      → All (λ n. n < 2 ^ 63) ns
      → sum (map (λ l. l.count) (code_lines duration i ns)) ≡ sum ns
  unfolding code_lines signed64
  sum-code_lines duration i [] h = refl
  sum-code_lines duration i (n ∷ ns) (small, h) = elim (Bool-cases (ltb_ℤ (pos 0) (signed64 n))) [
    | inl e ↦ rw e (omega (arith, sum-code_lines duration (i + 1) ns h))
    | inr e ↦ rw e (ground (arith, e, small, sum-code_lines duration (i + 1) ns h))
  ]
