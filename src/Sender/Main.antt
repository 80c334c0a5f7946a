-- ===== src/Sender/Main.antt =====
-- src/sender.cpp: the constructor of `UDPSender` and its `main`, with the command line as ppl7 takes
-- it apart. What `main` prints, save the results, is left out.
pub mod Reports
pub mod Bound
pub mod Sockets
pub mod Closing
pub mod Returns
pub mod Examples
use udppingpong.Base.{
  ℕ, Bool, true, false, ◌||◌, List, [], ◌∷◌, ◌++◌, Option, none, some, if◌then◌else◌, map,
}
use udppingpong.Base.Int.{ℤ, pos}
use udppingpong.Exception.{Result, ok, throw, ◌>>=◌}
use udppingpong.Double.{Double}
use udppingpong.Sender.Thread.{Packet, SenderThread}
use udppingpong.Sender.Program.{
  Settings, RateArgument, fill_in, get_query_rates, read_source_ip_list,
}
use udppingpong.Sender.Program.Prepare.{Net, ThreadAnswers, prepare_threads}
use udppingpong.Sender.Session.{
  LoadAnswers, Ending, finished, broken_off, failed, exit_code, run_rates,
}
use udppingpong.Sender.Results.{Results}
use udppingpong.Sender.Results.Figures.{CsvLine, save_results_to_csv, open_csv_file}

-- `source_ips` are the parts of `-b`, `list_file` the lines of the file of `--bl`, `csv_file` what is
-- in the file of `-c`; an exception is thrown by a file that cannot be opened or read.
pub record Arguments (D S : Type 0) : Type 0 where
  pub help : Bool
  pub ziel : S
  pub packetsize : ℤ
  pub laufzeit : ℤ
  pub timeout : ℤ
  pub thread_count : ℤ
  pub query_rates : RateArgument
  pub zeitscheibe : D
  pub csv_file : Option (Result (List (CsvLine D)))
  pub ignore : Bool
  pub source_ips : Option (List S)
  pub list_file : Option (Result (List S))
  pub always_randomize : Bool

-- What the libraries and the system answer; `unset` are the results before they are set, `to_rate` is
-- `toInt` of a rate, `fuel` is for the list of rates.
pub record World (D S Ip A : Type 0) : Type 0 where
  pub net : Net S Ip A
  pub trimmed : S → S
  pub is_comment : S → Bool
  pub to_rate : ℕ → ℤ
  pub fuel : ℕ
  pub empty : Packet D
  pub threads : ℕ → ThreadAnswers A
  pub loads : ℕ → LoadAnswers D
  pub unset : Results D

-- The exit code of the program, the results it has presented, its CSV file, and the threads that it
-- has destroyed.
pub record Ended (D : Type 0) : Type 0 where
  pub code : ℕ
  pub results : List (Results D)
  pub csv : Option (List (CsvLine D))
  pub destroyed : List (SenderThread D)

module _ {D S : Type 0} ⦃d : Double D⦄ where
  -- The constructor.
  unfoldable pub udp_sender : S → Settings D S
  udp_sender empty = record {
    ziel = empty;
    source_ip_list = [];
    packetsize = pos 512;
    laufzeit = pos 10;
    timeout = pos 5;
    thread_count = pos 1;
    zeitscheibe = d.of_int (pos 1);
    ignore_responses = false;
    always_randomize = false;
  }

module _ {D S : Type 0} where
  -- The arguments in their fields, except for the addresses in a file.
  unfoldable pub read_arguments : Arguments D S → Settings D S → Settings D S
  read_arguments a s = record {
    ziel = a.ziel;
    source_ip_list = elim (a.source_ips) [
      | none ↦ s.source_ip_list
      | some ips ↦ s.source_ip_list ++ ips
    ];
    packetsize = a.packetsize;
    laufzeit = a.laufzeit;
    timeout = a.timeout;
    thread_count = a.thread_count;
    zeitscheibe = a.zeitscheibe;
    ignore_responses = a.ignore;
    always_randomize = a.always_randomize || s.always_randomize;
  }

module _ {D S Ip A : Type 0} (w : World D S Ip A) where
  unfoldable pub read_list_file : Option (Result (List S)) → Settings D S → Result (Settings D S)
  unfolding read_source_ip_list
  read_list_file none s = ok s
  read_list_file (some file) s = file >>= λ lines. ok (record s {
    source_ip_list =
        read_source_ip_list w.trimmed w.net.is_empty w.is_comment lines s.source_ip_list;
  })

module _ {D : Type 0} where
  -- `if (Filename.notEmpty())`
  unfoldable pub open_if_given :
      Option (Result (List (CsvLine D))) → Result (Option (List (CsvLine D)))
  unfolding open_csv_file
  open_if_given none = ok none
  open_if_given (some file) = open_csv_file file >>= λ lines. ok (some lines)

module _ {D : Type 0} ⦃d : Double D⦄ where
  -- The results saved one after the other.
  unfoldable pub save_all :
      ℤ → List (Results D) → Option (List (CsvLine D)) → Option (List (CsvLine D))
  unfolding save_results_to_csv
  save_all thread_count [] csv = csv
  save_all thread_count (r ∷ rs) csv =
      save_all thread_count rs (save_results_to_csv thread_count r csv)

-- `threadpool.destroyAllThreads()`, which is called only behind the loads.
abbrev pub pool_of : {D : Type 0} → Ending D → List (SenderThread D)
pool_of (finished ts) = ts
pool_of broken_off = []
pool_of failed = []

module _ {D S Ip A : Type 0} ⦃d : Double D⦄ (w : World D S Ip A) where
  -- The second `try`. `none` if the answers given do not reach the end of a load.
  unfoldable pub work : List ℤ → Option (List (CsvLine D)) → Settings D S → Option (Ended D)
  unfolding prepare_threads run_rates save_all
  work rates csv s = elim (prepare_threads w.net w.empty w.threads s) [
    | throw e ↦ some (record { code = 1; results = []; csv = csv; destroyed = [] })
    | ok ts ↦ elim (run_rates 0 w.loads s.thread_count rates w.unset ts) [
      | none ↦ none
      | some (rs, end) ↦ some (record {
        code = exit_code end;
        results = rs;
        csv = save_all s.thread_count rs csv;
        destroyed = pool_of end;
      })
    ]
  ]

  -- From the list of rates on.
  unfoldable pub with_settings : Arguments D S → Settings D S → Option (Ended D)
  unfolding get_query_rates open_if_given work
  with_settings a s = elim (get_query_rates w.fuel a.query_rates) [
    | none ↦ none
    | some rates ↦ elim (open_if_given a.csv_file) [
      | throw e ↦ some (record { code = 1; results = []; csv = none; destroyed = [] })
      | ok csv ↦ work (map w.to_rate rates) csv s
    ]
  ]

  -- An exception that `main` does not catch ends the program.
  unfoldable pub main : Arguments D S → Settings D S → Result (Option (Ended D))
  unfolding read_arguments read_list_file fill_in with_settings
  main a sender =
      if a.help
      then ok (some (record { code = 0; results = []; csv = none; destroyed = [] }))
      else read_list_file w a.list_file (read_arguments a sender) >>= λ given.
          let s = fill_in given in
          if w.net.is_empty s.ziel
          then ok (some (record { code = 1; results = []; csv = none; destroyed = [] }))
          else ok (with_settings a s)
