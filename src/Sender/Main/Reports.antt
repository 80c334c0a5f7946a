-- ===== src/Sender/Main/Reports.antt =====
-- What `main` of the sender has reported when it ends.
use udppingpong.Base.{
  ℕ, false, true, List, [], ◌∷◌, ◌++◌, Option, some, ◌≡◌, map, ◌⊎◌, inl, inr, arith, append_assoc,
  ap, Option-cases, sym, append-nil, ◌∙◌, Bool-cases,
}
use udppingpong.Base.Int.{ℤ, pos}
use udppingpong.Exception.{ok, Result-cases}
use udppingpong.Double.{Double}
use udppingpong.Sender.Program.{Settings, fill_in, get_query_rates, or_default}
use udppingpong.Sender.Program.Prepare.{prepare_threads}
use udppingpong.Sender.Session.{exit_code, run_rates, LoadAnswers}
use udppingpong.Sender.Session.Rates.{run_rates_lem, run_rates-code, IsBrokenOff}
use udppingpong.Sender.Results.{Results}
use udppingpong.Sender.Results.Figures.{CsvLine, csv_line, with_heading, open_csv_file}
use udppingpong.Sender.Main.{
  Arguments, World, Ended, main, save_all, work, with_settings, read_list_file, read_arguments,
  open_if_given, pool_of,
}

module _ {D : Type 0} ⦃d : Double D⦄ where
  save_all-open :
      (n : ℤ) (rs : List (Results D)) (lines : List (CsvLine D))
      → save_all n rs (some lines) ≡ some (lines ++ map (csv_line n) rs)
  unfolding save_all
  save_all-open n [] lines = ap some (sym (append-nil lines))
  save_all-open n (r ∷ rs) lines =
      save_all-open n rs (lines ++ csv_line n r ∷ [])
      ∙ ap some (append_assoc lines (csv_line n r ∷ []) (map (csv_line n) rs))

-- The results are for the rates in their order, from the first on; for all of them, unless a load has
-- been interrupted.
abbrev pub AreReports : {D : Type 0} → (ℕ → LoadAnswers D) → List ℤ → List (Results D) → Type 0
AreReports loads rates rs =
    (others : List ℤ) × (map (λ r. r.queryrate) rs ++ others ≡ rates)
    × ((others ≡ []) ⊎ ((j : ℕ) × ((loads j).stop_flag ≡ true)))

-- Whether it ends with 0 or 1.
abbrev pub IsExit : {D : Type 0} → Ended D → Type 0
IsExit e = (e.code ≡ 0) ⊎ (e.code ≡ 1)

module _ {D S Ip A : Type 0} ⦃d : Double D⦄ (w : World D S Ip A) where
  work-IsExit :
      (rates : List ℤ) (csv : Option (List (CsvLine D))) (s : Settings D S) (e : Ended D)
      → work w rates csv s ≡ some e
      → IsExit e
  unfolding work
  work-IsExit rates csv s e h = elim (Result-cases (prepare_threads w.net w.empty w.threads s)) [
    | inr (x, failed) ↦ ground (arith, h, failed)
    | inl (ts, made) ↦ elim (Option-cases (run_rates 0 w.loads s.thread_count rates w.unset ts)) [
      | inl stuck ↦ ground (arith, h, made, stuck)
      | inr ((rs, end), ran) ↦
          let same : exit_code end ≡ e.code = ground (arith, h, made, ran) in
          rw (← same) (run_rates-code 0 w.loads s.thread_count rates w.unset ts rs end ran)
    ]
  ]

  with_settings-IsExit :
      (a : Arguments D S) (s : Settings D S) (e : Ended D) → with_settings w a s ≡ some e → IsExit e
  unfolding with_settings
  with_settings-IsExit a s e h = elim (Option-cases (get_query_rates w.fuel a.query_rates)) [
    | inl stuck ↦ ground (arith, h, stuck)
    | inr (rates, listed) ↦ elim (Result-cases (open_if_given a.csv_file)) [
      | inr (x, failed) ↦ ground (arith, h, listed, failed)
      | inl (csv, opened) ↦
          work-IsExit (map w.to_rate rates) csv s e (ground (arith, h, listed, opened))
    ]
  ]

  -- The exit code of `main` is 0 or 1.
  main-IsExit :
      (a : Arguments D S) (sender : Settings D S) (e : Ended D)
      → main w a sender ≡ ok (some e)
      → IsExit e
  unfolding main
  main-IsExit a sender e h = elim (Bool-cases (a.help)) [
    | inl help ↦ ground (arith, h, help)
    | inr go ↦ elim (Result-cases (read_list_file w a.list_file (read_arguments a sender))) [
      | inr (x, failed) ↦ ground (arith, h, go, failed)
      | inl (given, read) ↦ elim (Bool-cases (w.net.is_empty (fill_in given).ziel)) [
        | inl missing ↦ ground (arith, h, go, read, missing)
        | inr there ↦ with_settings-IsExit a (fill_in given) e (ground (arith, h, go, read, there))
      ]
    ]
  ]

  not_failed :
      (loads : ℕ → LoadAnswers D) (code : ℕ) (others : List ℤ)
      → code ≡ 0
      → IsBrokenOff loads code others
      → (others ≡ []) ⊎ ((j : ℕ) × ((loads j).stop_flag ≡ true))
  not_failed loads code others fine (inl none_left) = inl none_left
  not_failed loads code others fine (inr (inl failed)) = ground (arith, fine, failed)
  not_failed loads code others fine (inr (inr stopped)) = inr stopped

  work_lem :
      (rates : List ℤ) (lines : List (CsvLine D)) (s : Settings D S) (e : Ended D)
      → work w rates (some lines) s ≡ some e
      → e.code ≡ 0
      → AreReports w.loads rates e.results
        × (e.csv ≡ some (lines ++ map (csv_line s.thread_count) e.results))
  unfolding work
  work_lem rates lines s e h zero =
      elim (Result-cases (prepare_threads w.net w.empty w.threads s)) [
        | inr (x, failed) ↦ ground (arith, h, failed, zero)
        | inl (ts, made) ↦
            elim (Option-cases (run_rates 0 w.loads s.thread_count rates w.unset ts)) [
              | inl stuck ↦ ground (arith, h, made, stuck)
              | inr ((rs, end), ran) ↦
                  let same : e ≡ record {
                    code = exit_code end;
                    results = rs;
                    csv = save_all s.thread_count rs (some lines);
                    destroyed = pool_of end;
                  } =
                    ground (arith, h, made, ran) in
                  let (others, all, why) =
                    run_rates_lem 0 w.loads s.thread_count rates w.unset ts rs end ran in
                  let fine : exit_code end ≡ 0 = sym (ap (λ e. e.code) same) ∙ zero in
                  rw same (
                    (others, all, not_failed w.loads (exit_code end) others fine why),
                    save_all-open s.thread_count rs lines,
                  )
            ]
      ]

  with_settings_lem :
      (a : Arguments D S) (s : Settings D S) (e : Ended D) (lines : List (CsvLine D))
      (rates : List ℕ)
      → with_settings w a s ≡ some e
      → e.code ≡ 0
      → a.csv_file ≡ some (ok lines)
      → get_query_rates w.fuel a.query_rates ≡ some rates
      → AreReports w.loads (map w.to_rate rates) e.results
        × (e.csv ≡ some (with_heading lines ++ map (csv_line s.thread_count) e.results))
  unfolding with_settings open_if_given open_csv_file
  with_settings_lem a s e lines rates h zero file listed =
      work_lem (map w.to_rate rates) (with_heading lines) s e (ground (arith, h, listed, file)) zero

  thread_count_lem :
      (a : Arguments D S) (sender given : Settings D S)
      → read_list_file w a.list_file (read_arguments a sender) ≡ ok given
      → given.thread_count ≡ a.thread_count
  unfolding read_list_file read_arguments
  thread_count_lem a sender given h = ground (arith, h)

  -- When `main` was not asked for help, got a CSV file that can be opened and has ended with 0, the
  -- results it has presented are for its rates in their order, from the first on, for all of them
  -- unless a load has been interrupted, and the CSV file has a line for each of them behind what was
  -- in it, or behind a heading if it was empty.
  pub main_lem :
      (a : Arguments D S) (sender : Settings D S) (e : Ended D) (lines : List (CsvLine D))
      (rates : List ℕ)
      → main w a sender ≡ ok (some e)
      → e.code ≡ 0
      → a.help ≡ false
      → a.csv_file ≡ some (ok lines)
      → get_query_rates w.fuel a.query_rates ≡ some rates
      → AreReports w.loads (map w.to_rate rates) e.results
        × (e.csv
            ≡ some (
                with_heading lines ++ map (csv_line (or_default (pos 1) a.thread_count)) e.results))
  unfolding main fill_in
  main_lem a sender e lines rates h zero go file listed =
      elim (Result-cases (read_list_file w a.list_file (read_arguments a sender))) [
        | inr (x, failed) ↦ ground (arith, h, go, failed)
        | inl (given, read) ↦ elim (Bool-cases (w.net.is_empty (fill_in given).ziel)) [
          | inl missing ↦ ground (arith, h, go, read, missing, zero)
          | inr there ↦
              let all =
                with_settings_lem a (fill_in given) e lines rates
                  (ground (arith, h, go, read, there)) zero file listed in
              rw (← thread_count_lem a sender given read) all
        ]
      ]
