-- ===== src/Sender/Main/Bound.antt =====
-- How many packets `main` of the sender may report at most.
use udppingpong.Base.{
  ℕ, ◌≤◌, ◌≡◌, List, [], ◌∷◌, All, Option, some, map, arith, inl, inr, Option-cases, Bool-cases,
  ◌∙◌, ap, length, if◌then◌else◌,
}
use udppingpong.Base.Int.{ℤ, pos, pos_part}
use udppingpong.Double.{Double}
use udppingpong.Exception.{ok, Result-cases}
use udppingpong.Sender.Thread.{SenderThread}
use udppingpong.Sender.Thread.Run.Settings.{HasPlan}
use udppingpong.Sender.Program.{Settings, fill_in, get_query_rates, or_default}
use udppingpong.Sender.Program.Prepare.{prepare_threads, prepare_threads_lem, IsPrepared}
use udppingpong.Sender.Session.{run_rates}
use udppingpong.Sender.Session.Plan.{IsWithin, IsEnough, run_rates_bound}
use udppingpong.Sender.Thread.Run.Passes.{slices_of}
use udppingpong.Sender.Results.Figures.{CsvLine}
use udppingpong.Sender.Main.{
  Arguments, World, Ended, main, work, with_settings, read_list_file, read_arguments, open_if_given,
}

module _ {D : Type 0} ⦃d : Double D⦄ where
  open d use {of_int, div, eq, nought}

  -- The slice of a worker, in seconds.
  abbrev pub slice_of : D → D
  slice_of z = div (if eq z nought then of_int (pos 1) else z) (of_int (pos 1000))

module _ {D S : Type 0} ⦃d : Double D⦄ where
  open d use {of_int, div}

  -- Settings for s seconds in n slices and for m threads.
  pub record IsPlan (s n m : ℕ) (settings : Settings D S) : Type 0 where
    pub laufzeit : settings.laufzeit ≡ pos s
    pub slices : slices_of (pos s) (div settings.zeitscheibe (of_int (pos 1000))) ≡ pos n
    pub threads : settings.thread_count ≡ pos m

  prepared-HasPlan :
      (s n m : ℕ) (settings : Settings D S) (ts : List (SenderThread D))
      → IsPlan s n m settings
      → All (IsPrepared settings) ts
      → All (HasPlan (pos s) (div settings.zeitscheibe (of_int (pos 1000)))) ts
  prepared-HasPlan s n m settings [] plan h = tt
  prepared-HasPlan s n m settings (t ∷ ts) plan (h, hs) =
      ((h.runtime ∙ plan.laufzeit, h.zeitscheibe), prepared-HasPlan s n m settings ts plan hs)

module _ {D S Ip A : Type 0} ⦃d : Double D⦄ (w : World D S Ip A) where
  open d use {of_int, div}

  work-bound :
      (s n m : ℕ) (rates : List ℤ) (csv : Option (List (CsvLine D))) (settings : Settings D S)
      (e : Ended D)
      → IsPlan s n m settings
      → 1 ≤ m
      → All (IsEnough m) rates
      → work w rates csv settings ≡ some e
      → All (IsWithin s) e.results
  unfolding work
  work-bound s n m rates csv settings e plan one enough h =
      elim (Result-cases (prepare_threads w.net w.empty w.threads settings)) [
        | inr (x, failed) ↦ let same : [] ≡ e.results = ground (arith, h, failed) in rw (← same) tt
        | inl (ts, made) ↦
            elim (Option-cases (run_rates 0 w.loads settings.thread_count rates w.unset ts)) [
              | inl stuck ↦ ground (arith, h, made, stuck)
              | inr ((rs, end), ran) ↦
                  let same : rs ≡ e.results = ground (arith, h, made, ran) in
                  let (count, all) = prepare_threads_lem w.net w.empty w.threads settings ts made in
                  let many : length ts ≡ m = count ∙ ap pos_part plan.threads in
                  let bound =
                    run_rates_bound 0 w.loads s n (div settings.zeitscheibe (of_int (pos 1000)))
                      settings.thread_count rates w.unset ts rs end plan.slices
                      (prepared-HasPlan s n m settings ts plan all) (rw many one) (rw many enough)
                      ran in
                  rw (← same) bound
            ]
      ]

  with_settings-bound :
      (s n m : ℕ) (a : Arguments D S) (settings : Settings D S) (e : Ended D) (rates : List ℕ)
      → IsPlan s n m settings
      → 1 ≤ m
      → get_query_rates w.fuel a.query_rates ≡ some rates
      → All (IsEnough m) (map w.to_rate rates)
      → with_settings w a settings ≡ some e
      → All (IsWithin s) e.results
  unfolding with_settings
  with_settings-bound s n m a settings e rates plan one listed enough h =
      elim (Result-cases (open_if_given a.csv_file)) [
        | inr (x, failed) ↦
            let same : [] ≡ e.results = ground (arith, h, listed, failed) in rw (← same) tt
        | inl (csv, opened) ↦
            work-bound s n m (map w.to_rate rates) csv settings e plan one enough
              (ground (arith, h, listed, opened))
      ]

  given-IsPlan :
      (s n m : ℕ) (a : Arguments D S) (sender given : Settings D S)
      → or_default (pos 10) a.laufzeit ≡ pos s
      → or_default (pos 1) a.thread_count ≡ pos m
      → slices_of (pos s) (slice_of a.zeitscheibe) ≡ pos n
      → read_list_file w a.list_file (read_arguments a sender) ≡ ok given
      → IsPlan s n m (fill_in given)
  unfolding fill_in read_list_file read_arguments
  given-IsPlan s n m a sender given hs hm hn h =
      let time : given.laufzeit ≡ a.laufzeit = ground (arith, h) in
      let count : given.thread_count ≡ a.thread_count = ground (arith, h) in
      let slice : given.zeitscheibe ≡ a.zeitscheibe = ground (arith, h) in
      record { laufzeit = rw time hs; slices = rw slice hn; threads = rw count hm }

  -- The command line asks, where need be by a default, for a running time of s seconds that is cut
  -- into n slices, for m threads and at least one of them, and for rates of at least one query for
  -- each thread. Then no result that `main` presents tells of more packets than s times its rate:
  -- those sent, those not sent in full and the errors taken together.
  pub main-bound :
      (s n m : ℕ) (a : Arguments D S) (sender : Settings D S) (e : Ended D) (rates : List ℕ)
      → main w a sender ≡ ok (some e)
      → or_default (pos 10) a.laufzeit ≡ pos s
      → slices_of (pos s) (slice_of a.zeitscheibe) ≡ pos n
      → or_default (pos 1) a.thread_count ≡ pos m
      → 1 ≤ m
      → get_query_rates w.fuel a.query_rates ≡ some rates
      → All (IsEnough m) (map w.to_rate rates)
      → All (IsWithin s) e.results
  unfolding main
  main-bound s n m a sender e rates h hs hn hm one listed enough = elim (Bool-cases (a.help)) [
    | inl help ↦ let same : [] ≡ e.results = ground (arith, h, help) in rw (← same) tt
    | inr go ↦ elim (Result-cases (read_list_file w a.list_file (read_arguments a sender))) [
      | inr (x, failed) ↦ ground (arith, h, go, failed)
      | inl (given, read) ↦ elim (Bool-cases (w.net.is_empty (fill_in given).ziel)) [
        | inl missing ↦
            let same : [] ≡ e.results = ground (arith, h, go, read, missing) in rw (← same) tt
        | inr there ↦
            with_settings-bound s n m a (fill_in given) e rates
              (given-IsPlan s n m a sender given hs hm hn read) one listed enough
              (ground (arith, h, go, read, there))
      ]
    ]
  ]
