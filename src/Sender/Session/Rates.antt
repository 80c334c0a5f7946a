-- ===== src/Sender/Session/Rates.antt =====
-- The loads that the sender reports on.
use udppingpong.Base.{
  ℕ, ◌+◌, ◌≡◌, refl, some, List, [], ◌∷◌, ◌++◌, map, arith, Bool-cases, Option-cases, inl, inr, ◌⊎◌,
  ap, ◌∙◌, true,
}
use udppingpong.Base.Int.{ℤ}
use udppingpong.Double.{Double}
use udppingpong.Exception.{ok, Result-cases}
use udppingpong.Sender.Load.{run_workers, set_query_rates, end_of_run, wait_for_threads}
use udppingpong.Sender.Thread.{SenderThread}
use udppingpong.Sender.Results.{Results, add_thread, add_threads, clear_results, get_results}
use udppingpong.Sender.Session.{Ending, exit_code, LoadAnswers, run_load, run_rates, threads_after}

module _ {D : Type 0} ⦃d : Double D⦄ where
  add_threads-queryrate :
      (r : Results D) (ts : List (SenderThread D)) → (add_threads r ts).queryrate ≡ r.queryrate
  unfolding add_threads
  add_threads-queryrate r [] = refl
  add_threads-queryrate r (t ∷ ts) = add_threads-queryrate (add_thread r t) ts

  pub get_results-queryrate :
      (n : ℤ) (ts : List (SenderThread D)) (r : Results D)
      → (get_results n ts r).queryrate ≡ r.queryrate
  unfolding get_results
  get_results-queryrate n ts r = add_threads-queryrate (clear_results r) ts

  pub run_load-interrupted :
      (a : LoadAnswers D) (rate : ℤ) (ts us : List (SenderThread D))
      → run_load a rate ts ≡ some (ok (us, true))
      → a.stop_flag ≡ true
  unfolding run_load end_of_run
  run_load-interrupted a rate ts us h = elim (Option-cases (a.failure)) [
    | inr (x, failed) ↦ ground (arith, h, failed)
    | inl works ↦
        elim (Option-cases (threads_after (run_workers a.workers 0 (set_query_rates rate ts)))) [
          | inl stuck ↦ ground (arith, h, works, stuck)
          | inr (vs, ended) ↦ elim (Option-cases (wait_for_threads a.polls)) [
            | inl waiting ↦ ground (arith, h, works, ended, waiting)
            | inr (sleeps, over) ↦ elim (Bool-cases (a.stop_flag)) [
              | inl stop ↦ stop
              | inr on ↦ ground (arith, h, works, ended, over, on)
            ]
          ]
        ]
  ]

  -- Why there is no report on the other rates, if there are any.
  abbrev pub IsBrokenOff : (ℕ → LoadAnswers D) → ℕ → List ℤ → Type 0
  IsBrokenOff answers code others =
      (others ≡ []) ⊎ ((code ≡ 1) ⊎ ((j : ℕ) × ((answers j).stop_flag ≡ true)))

  -- The sender reports on its rates in their order, from the first on, and on all of them unless a
  -- load has failed, with the exit code 1, or has been interrupted.
  pub run_rates_lem :
      (i : ℕ) (answers : ℕ → LoadAnswers D) (n : ℤ) (rates : List ℤ) (results : Results D)
      (ts : List (SenderThread D)) (rs : List (Results D)) (end : Ending D)
      → run_rates i answers n rates results ts ≡ some (rs, end)
      → (others : List ℤ) × (map (λ r. r.queryrate) rs ++ others ≡ rates)
        × IsBrokenOff answers (exit_code end) others
  unfolding run_rates
  run_rates_lem i answers n [] results ts [] end e = ([], refl, inl refl)
  run_rates_lem i answers n [] results ts (r ∷ rs) end e = ground arith
  run_rates_lem i answers n (rate ∷ rates) results ts rs end e =
      elim (Option-cases (run_load (answers i) rate ts)) [
        | inl none_left ↦ ground (arith, none_left)
        | inr (o, over) ↦ elim (Result-cases o) [
          | inr (x, failed) ↦ (
            rate ∷ rates,
            ground (arith, over, failed),
            inr (inl (ground (arith, e, over, failed))),
          )
          | inl ((us, b), fine) ↦
              let r = get_results n us (record results { queryrate = rate }) in
              let own = get_results-queryrate n us (record results { queryrate = rate }) in
              elim (Bool-cases b) [
                | inl stop ↦
                    let flag =
                      run_load-interrupted (answers i) rate ts us
                        (over ∙ ap some fine ∙ ap (λ b. some (ok (us, b))) stop) in
                    (rates, ground (arith, e, over, fine, stop, own), inr (inr (i, flag)))
                | inr on ↦ elim (Option-cases (run_rates (i + 1) answers n rates r us)) [
                  | inl stuck ↦ ground (arith, e, over, fine, on, stuck)
                  | inr ((later, c), more) ↦
                      let (others, rest, why) =
                        run_rates_lem (i + 1) answers n rates r us later c more in
                      let same : c ≡ end = ground (arith, e, over, fine, on, more) in
                      (others, ground (arith, e, over, fine, on, more, own, rest), rw (← same) why)
                ]
              ]
        ]
      ]

  pub run_rates-code :
      (i : ℕ) (answers : ℕ → LoadAnswers D) (n : ℤ) (rates : List ℤ) (results : Results D)
      (ts : List (SenderThread D)) (rs : List (Results D)) (end : Ending D)
      → run_rates i answers n rates results ts ≡ some (rs, end)
      → (exit_code end ≡ 0) ⊎ (exit_code end ≡ 1)
  unfolding run_rates
  run_rates-code i answers n [] results ts rs end e = ground (arith, e)
  run_rates-code i answers n (rate ∷ rates) results ts rs end e =
      elim (Option-cases (run_load (answers i) rate ts)) [
        | inl none_left ↦ ground (arith, e, none_left)
        | inr (o, over) ↦ elim (Result-cases o) [
          | inr (x, failed) ↦ ground (arith, e, over, failed)
          | inl ((us, b), fine) ↦
              let r = get_results n us (record results { queryrate = rate }) in
              elim (Bool-cases b) [
                | inl stop ↦ ground (arith, e, over, fine, stop)
                | inr on ↦ elim (Option-cases (run_rates (i + 1) answers n rates r us)) [
                  | inl stuck ↦ ground (arith, e, over, fine, on, stuck)
                  | inr ((later, c), more) ↦
                      let same : c ≡ end = ground (arith, e, over, fine, on, more) in
                      rw (← same) (run_rates-code (i + 1) answers n rates r us later c more)
                ]
              ]
        ]
      ]
