-- ===== src/Sender/Results/Examples.antt =====
-- Results over two workers of the sender, and the theorems at them.
use udppingpong.Base.{ℕ, ◌≡◌, refl, some, none, [], ◌∷◌, List, replicate, ◌*◌, map}
use udppingpong.Base.Int.{pos, ◌+ℤ◌, ◌*ℤ◌, tdiv}
use udppingpong.Base.Word.{add64, sub64, signed64}
use udppingpong.Counter.{Counter}
use udppingpong.Double.Extremes.{IsMinimum, IsMaximum}
use udppingpong.Double.Micros.{Micros, micros_double, Micros-IsOrdered}
use udppingpong.Sender.Thread.{SenderThread, create}
use udppingpong.Sender.Thread.Examples.{worker}
use udppingpong.Sender.Results.Figures.{present_results}
use udppingpong.Sender.Results.{Results, get_results, get_sender_counter}
use mathlib.Core.Quot
use udppingpong.Sender.Results.Pool.{total, get_results-refines}
use udppingpong.Sender.Results.Times.{get_results_extremes, leasts, greatests}

-- A worker that sent `send` packets and got `received` answers, the quickest after `quick`.
abbrev finished : ℕ → ℕ → ℕ → SenderThread Micros
finished send received quick = record worker {
  counter_send = send;
  errors = 1;
  counter_errorcodes = 0 ∷ 1 ∷ replicate 253 0;
  duration = some (pos 1_000_000);
  receiver = record {
    sockfd = pos 3;
    counter_received = received;
    bytes_received = received * 512;
    rtt_total = some (pos (received * 400));
    rtt_min = some (pos quick);
    rtt_max = some (pos 900);
  };
}

abbrev pool : List (SenderThread Micros)
pool = finished 10 8 300 ∷ finished 20 19 200 ∷ []

abbrev pub unset : Results Micros
unset = record {
  queryrate = pos 30;
  counter_send = 7;
  counter_received = 7;
  bytes_received = 7;
  counter_errors = 7;
  packages_lost = 7;
  counter_0bytes = 7;
  counter_errorcodes = [];
  duration = none;
  rtt_total = none;
  rtt_min = none;
  rtt_max = none;
}

-- What the local counter of `getCounter` may hold before it is set.
abbrev garbage : Counter Micros
garbage = record {
  packets_received = 3;
  packets_send = 3;
  bytes_received = 3;
  bytes_send = 3;
  sample_time = none;
}

tests :
    let r = get_results (pos 2) pool unset in
    (r.packages_lost ≡ 3)
    × (r.duration ≡ some (pos 1_000_000))
    × (r.rtt_total ≡ some (pos 800))
    × (r.rtt_min ≡ some (pos 200))
    × ((get_sender_counter garbage (some (pos 5)) pool).packets_received ≡ 27)
unfolding get_results get_sender_counter create add64 sub64 signed64 ◌+ℤ◌ ◌*ℤ◌ tdiv
tests = (refl, refl, refl, refl, refl)

get_results_extremes_example :
    let r = get_results (pos 2) pool unset in
    IsMinimum r.rtt_min (leasts pool) × IsMaximum r.rtt_max (greatests pool)
get_results_extremes_example =
    get_results_extremes Micros-IsOrdered (pos 2) (finished 10 8 300) (finished 20 19 200 ∷ [])
      unset (refl, (refl, tt)) (refl, (refl, tt))

-- The pool in the other order.
abbrev turned : List (SenderThread Micros)
turned = finished 20 19 200 ∷ finished 10 8 300 ∷ []

more_tests :
    let figures = present_results (pos 512) (pos 2) (get_results (pos 2) pool unset) in
    (figures.qps_send ≡ pos 30) × (map (λ l. l.code) figures.codes ≡ 1 ∷ [])
unfolding present_results get_results add64 sub64 signed64 ◌+ℤ◌ ◌*ℤ◌ tdiv
more_tests = (refl, refl)

-- The same results for both orders of the pool.
get_results-refines_example :
    (get_results (pos 2) pool unset).counter_send ≡ total (λ t. t.counter_send) (Quot.mk turned)
unfolding total get_results add64
get_results-refines_example = (get_results-refines (pos 2) pool unset).0
