-- ===== src/Sender/Main/Returns.antt =====
-- When `main` of the sender returns.
use udppingpong.Base.{
  ℕ, ◌≡◌, refl, List, [], ◌∷◌, map, some, none, Option, arith, All, inl, inr, Bool-cases,
  Option-cases, ◌⊎◌,
}
use udppingpong.Base.Int.{ℤ, pos}
use udppingpong.Double.{Double}
use udppingpong.Exception.{Exception, ok, throw, Result-cases}
use udppingpong.Sender.Thread.{SenderThread}
use udppingpong.Sender.Program.{Settings, fill_in, get_query_rates, or_default}
use udppingpong.Sender.Program.Prepare.{IsPrepared, prepare_threads, prepare_threads_lem}
use udppingpong.Sender.Session.Returns.{IsReady, LoadPasses, run_rates-returns}
use udppingpong.Sender.Results.Figures.{CsvLine}
use udppingpong.Sender.Main.{
  Arguments, World, Ended, main, work, with_settings, read_list_file, read_arguments, open_if_given,
}
use udppingpong.Sender.Main.Bound.{slice_of}

module _ {D S : Type 0} ⦃d : Double D⦄ where
  open d use {of_int, div}

  prepared-IsReady :
      (s : Settings D S) (ts : List (SenderThread D))
      → All (IsPrepared s) ts
      → All (IsReady s.laufzeit s.timeout (div s.zeitscheibe (of_int (pos 1000)))) ts
  prepared-IsReady s [] h = tt
  prepared-IsReady s (t ∷ ts) (h, hs) =
      (rw (h.runtime, h.timeout, h.zeitscheibe, h.socket) refl, prepared-IsReady s ts hs)

module _ {D S Ip A : Type 0} ⦃d : Double D⦄ (w : World D S Ip A) where
  open d use {of_int, div}

  work-returns :
      (rates : List ℤ) (csv : Option (List (CsvLine D))) (s : Settings D S)
      → ((j : ℕ)
          → LoadPasses s.laufzeit s.timeout (div s.zeitscheibe (of_int (pos 1000))) (w.loads j))
      → (e : Ended D) × (work w rates csv s ≡ some e)
  unfolding work
  work-returns rates csv s h = elim (Option-cases (work w rates csv s)) [
    | inr found ↦ found
    | inl stuck ↦ elim (Result-cases (prepare_threads w.net w.empty w.threads s)) [
      | inr (x, failed) ↦ ground (arith, stuck, failed)
      | inl (ts, made) ↦
          let (count, all) = prepare_threads_lem w.net w.empty w.threads s ts made in
          let (x, ran) =
            run_rates-returns s.laufzeit s.timeout (div s.zeitscheibe (of_int (pos 1000))) 0 w.loads
              s.thread_count rates w.unset ts (prepared-IsReady s ts all) h in
          ground (arith, stuck, made, ran)
    ]
  ]

  with_settings-returns :
      (a : Arguments D S) (s : Settings D S) (rates : List ℕ)
      → get_query_rates w.fuel a.query_rates ≡ some rates
      → ((j : ℕ)
          → LoadPasses s.laufzeit s.timeout (div s.zeitscheibe (of_int (pos 1000))) (w.loads j))
      → (e : Ended D) × (with_settings w a s ≡ some e)
  unfolding with_settings
  with_settings-returns a s rates listed h = elim (Option-cases (with_settings w a s)) [
    | inr found ↦ found
    | inl stuck ↦ elim (Result-cases (open_if_given a.csv_file)) [
      | inr (x, failed) ↦ ground (arith, stuck, listed, failed)
      | inl (csv, opened) ↦
          let (e, ends) = work-returns (map w.to_rate rates) csv s h in
          ground (arith, stuck, listed, opened, ends)
    ]
  ]

  -- `main` comes to an end, by an exception that it does not catch or with an exit code, when the list
  -- of rates is finite, and in each load the clocks get on: for each worker through its slices, past
  -- the running time and past the timeout, and to a pass of its receiver that reads the stop flag as
  -- set, `getsockname` does not fail, and at some poll the pool is done or the stop flag is set.
  pub main-returns :
      (a : Arguments D S) (sender : Settings D S) (rates : List ℕ)
      → get_query_rates w.fuel a.query_rates ≡ some rates
      → ((j : ℕ)
          → LoadPasses
              (or_default (pos 10) a.laufzeit)
              (or_default (pos 5) a.timeout)
              (slice_of a.zeitscheibe)
              (w.loads j))
      → ((x : Exception) × (main w a sender ≡ throw x))
        ⊎ ((e : Ended D) × (main w a sender ≡ ok (some e)))
  unfolding main fill_in read_list_file read_arguments
  main-returns a sender rates listed h = elim (Bool-cases (a.help)) [
    | inl help ↦
        inr (record { code = 0; results = []; csv = none; destroyed = [] }, ground (arith, help))
    | inr go ↦ elim (Result-cases (read_list_file w a.list_file (read_arguments a sender))) [
      | inr (x, failed) ↦ inl (x, ground (arith, go, failed))
      | inl (given, read) ↦ elim (Bool-cases (w.net.is_empty (fill_in given).ziel)) [
        | inl missing ↦ inr (
          record { code = 1; results = []; csv = none; destroyed = [] },
          ground (arith, go, read, missing),
        )
        | inr there ↦
            let time : given.laufzeit ≡ a.laufzeit = ground (arith, read) in
            let late : given.timeout ≡ a.timeout = ground (arith, read) in
            let slice : given.zeitscheibe ≡ a.zeitscheibe = ground (arith, read) in
            let (e, ends) =
              with_settings-returns a (fill_in given) rates listed (rw (time, late, slice) h) in
            inr (e, ground (arith, go, read, there, ends))
      ]
    ]
  ]
