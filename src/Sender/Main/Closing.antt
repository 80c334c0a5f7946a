-- ===== src/Sender/Main/Closing.antt =====
-- What `main` of the sender closes.
use mathlib.Core.List.{Perm}
use mathlib.Core.List.Perm
use udppingpong.Base.{
  ℕ, ◌≡◌, false, List, some, arith, ap, map, concat, inl, inr, Option, Option-cases, Bool-cases,
  ◌∙◌, All-imp, true,
}
use udppingpong.Base.Int.{ℤ, pos, pos_part}
use udppingpong.Double.{Double}
use udppingpong.Exception.{ok, Result-cases}
use udppingpong.Socket.{close, close_if_set, is_set}
use udppingpong.Sender.Program.{Settings, fill_in, get_query_rates, or_default}
use udppingpong.Sender.Program.Prepare.{prepare_threads, prepare_threads_lem, IsPrepared}
use udppingpong.Sender.Session.{exit_code, run_rates}
use udppingpong.Sender.Results.Figures.{CsvLine}
use udppingpong.Sender.Main.{
  Arguments, World, Ended, main, work, with_settings, pool_of, read_list_file, read_arguments,
  open_if_given,
}
use udppingpong.Sender.Main.Sockets.{
  sockets, close_all, closing, socket_of, closing-sockets, closing-all, run_rates-sockets,
  prepare_from-sockets,
}

module _ {D S Ip A : Type 0} ⦃d : Double D⦄ (w : World D S Ip A)
    (on : (j : ℕ) → (w.loads j).stop_flag ≡ false) where
  work-closes :
      (rates : List ℤ) (csv : Option (List (CsvLine D))) (s : Settings D S) (e : Ended D)
      → work w rates csv s ≡ some e
      → e.code ≡ 0
      → Perm
          (closing {A = A} e.destroyed)
          (close_all (sockets w.threads (pos_part s.thread_count) 0))
  unfolding work prepare_threads
  work-closes rates csv s e h zero =
      elim (Result-cases (prepare_threads w.net w.empty w.threads s)) [
        | inr (x, failed) ↦ ground (arith, h, failed, zero)
        | inl (ts, made) ↦
            elim (Option-cases (run_rates 0 w.loads s.thread_count rates w.unset ts)) [
              | inl stuck ↦ ground (arith, h, made, stuck)
              | inr ((rs, end), ran) ↦
                  let fine : exit_code end ≡ 0 = ground (arith, h, made, ran, zero) in
                  let left : e.destroyed ≡ pool_of end = ground (arith, h, made, ran) in
                  let kept =
                    run_rates-sockets 0 w.loads s.thread_count rates w.unset ts rs end on ran
                      fine in
                  let have =
                    prepare_from-sockets w.net (pos_part s.thread_count) 0 0 w.empty w.threads s ts
                      made in
                  let all =
                    All-imp (IsPrepared s) (λ t. is_set t.sockfd ≡ true) (λ t h. h.socket) ts
                      (prepare_threads_lem w.net w.empty w.threads s ts made).1 in
                  let closed : closing {A = A} e.destroyed ≡ close_all (map socket_of ts) =
                    ap closing left
                    ∙ closing-sockets (pool_of end)
                    ∙ ap (λ fds. concat (map close_if_set fds)) kept
                    ∙ closing-all ts all in
                  rw closed (Perm.map close have)
            ]
      ]

  with_settings-closes :
      (a : Arguments D S) (s : Settings D S) (e : Ended D)
      → with_settings w a s ≡ some e
      → e.code ≡ 0
      → Perm
          (closing {A = A} e.destroyed)
          (close_all (sockets w.threads (pos_part s.thread_count) 0))
  unfolding with_settings
  with_settings-closes a s e h zero = elim (Option-cases (get_query_rates w.fuel a.query_rates)) [
    | inl stuck ↦ ground (arith, h, stuck)
    | inr (rates, listed) ↦ elim (Result-cases (open_if_given a.csv_file)) [
      | inr (x, failed) ↦ ground (arith, h, listed, failed, zero)
      | inl (csv, opened) ↦
          work-closes (map w.to_rate rates) csv s e (ground (arith, h, listed, opened)) zero
    ]
  ]

  -- When `main` was not asked for help, has ended with 0, and no load was interrupted, it has closed
  -- the socket of each thread that it was to prepare, each once, in an order that is up to the pool.
  pub main-closes :
      (a : Arguments D S) (sender : Settings D S) (e : Ended D)
      → main w a sender ≡ ok (some e)
      → e.code ≡ 0
      → a.help ≡ false
      → Perm
          (closing {A = A} e.destroyed)
          (close_all (sockets w.threads (pos_part (or_default (pos 1) a.thread_count)) 0))
  unfolding main fill_in read_list_file read_arguments
  main-closes a sender e h zero go =
      elim (Result-cases (read_list_file w a.list_file (read_arguments a sender))) [
        | inr (x, failed) ↦ ground (arith, h, go, failed)
        | inl (given, read) ↦ elim (Bool-cases (w.net.is_empty (fill_in given).ziel)) [
          | inl missing ↦ ground (arith, h, go, read, missing, zero)
          | inr there ↦
              let same : given.thread_count ≡ a.thread_count = ground (arith, read) in
              let all =
                with_settings-closes a (fill_in given) e (ground (arith, h, go, read, there))
                  zero in
              rw (← same) all
        ]
      ]
