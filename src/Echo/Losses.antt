-- ===== src/Echo/Losses.antt =====
-- The packets that get lost on the way, and those that the sender takes for lost.
use udppingpong.Base.{
  ℕ, suc, some, ◌+◌, ◌%◌, ◌≡◌, refl, Bool, false, List, [], ◌∷◌, length, sum, arith, ap, length-map,
  ◌∙◌, Bool-cases, inl, inr,
}
use udppingpong.Base.Int.{ℤ}
use udppingpong.Base.Word.{word_mod, sub64}
use udppingpong.Network.{Transit-length}
use udppingpong.Double.{Double}
use udppingpong.Exception.{ok}
use udppingpong.Bouncer.Thread.{Thread}
use udppingpong.Bouncer.Thread.Contents.{echo, own}
use udppingpong.Receiver
use udppingpong.Receiver.Contents.{readings, run_same}
use udppingpong.Receiver.Measuring.{run_totals}
use udppingpong.Sender.Thread.{
  Packet, SenderThread, SendAnswers, send_packet, prepare_run, count_sent, count_error,
  get_packets_send,
}
use udppingpong.Sender.Thread.Getters.{get_packets_received}
use udppingpong.Sender.Thread.Run.{RunAnswers, run_sender, finish_run}
use udppingpong.Sender.Thread.Run.Kept.{run_sender-kept}
use udppingpong.Sender.Results.{Results, get_results}
use udppingpong.Sender.Results.Totals.{each, get_results_lem}
use udppingpong.Datagram.{receive}
use udppingpong.Sender.Thread.Run.Accepted.{accepted_in}
use udppingpong.Sender.Thread.Run.Counting.{run_sender-accepted}
use udppingpong.Echo.{Trip, datagram}

module _ {D : Type 0} where
  abbrev IsListening : SenderThread D → Type 0
  IsListening t = t.ignore_responses ≡ false

  send_packet-IsListening :
      (a : SendAnswers D) (t : SenderThread D) → IsListening t → IsListening (send_packet a t).0
  unfolding send_packet count_sent count_error
  send_packet-IsListening a t h = ground arith

module _ {D : Type 0} ⦃d : Double D⦄ where
  finish_run-receiver :
      (a : RunAnswers D) (w u : SenderThread D) (packets sent : List (Packet D))
      → IsListening w
      → finish_run a w packets ≡ some (u, sent)
      → u.receiver ≡ (Receiver.run w.receiver a.receiver_start a.receiver_passes).receiver
  unfolding finish_run
  finish_run-receiver a w u packets sent h e = ground arith

  -- The receiver of a run has counted what it took in.
  run_sender-received :
      (a : RunAnswers D) (t u : SenderThread D) (sent : List (Packet D))
      → IsListening t
      → run_sender a t ≡ ok (some (u, sent))
      → u.receiver.counter_received
        ≡ length (Receiver.run u.receiver a.receiver_start a.receiver_passes).arrivals % word_mod
  unfolding prepare_run
  run_sender-received a t u sent h e =
      let step = λ (b : SendAnswers D) (w : SenderThread D). send_packet-IsListening b w in
      let (w, on, (packets, ends)) = run_sender-kept IsListening step a t u sent h e in
      let s = a.receiver_start in
      let ps = a.receiver_passes in
      ap (λ r. r.counter_received) (finish_run-receiver a w u packets sent on ends)
      ∙ (run_totals w.receiver s ps).0
      ∙ ap (λ xs. length xs % word_mod) (run_same w.receiver u.receiver s ps)

module _ {D B : Type 0} where
  length-readings :
      (time_at : List B → D) (buffer : List B) (ds : List (List B))
      → length (readings time_at buffer ds) ≡ length ds
  unfolding readings
  length-readings time_at buffer [] = refl
  length-readings time_at buffer (c ∷ cs) =
      omega (arith, length-readings time_at (receive c buffer) cs)

module _ {D A B : Type 0} where
  -- The bouncer answers each packet.
  length-echo :
      (is_own : A → Bool) (t : Thread D) (buffer : List B) (ds : List (List B × A))
      → t.no_echo ≡ false
      → length (own is_own (echo t buffer ds)) ≡ length (own is_own ds)
  unfolding echo
  length-echo is_own t buffer [] on = refl
  length-echo is_own t buffer ((c, from) ∷ ds) on =
      let rest = length-echo is_own t (receive c buffer) ds on in
      elim (Bool-cases (is_own from)) [
        | inl mine ↦ rw (on, mine) (ap suc rest)
        | inr other ↦ rw (on, other) rest
      ]

module _ {D A B : Type 0} ⦃d : Double D⦄ (bytes_of : Packet D → List B) (time_at : List B → D) where
  -- After a run of a worker that listens for answers: the packets that its receiver tells of and those
  -- lost on the way to the bouncer and back are, modulo 2 ^ 64, those that it tells of as sent and the
  -- copies that the network has made.
  pub run_sender-Trip :
      (a : RunAnswers D) (t u : SenderThread D) (sent : List (Packet D))
      → run_sender a t ≡ ok (some (u, sent))
      → t.ignore_responses ≡ false
      → (trip : Trip bytes_of time_at A a t u)
      → (get_packets_received u + trip.losses_there + trip.losses_back) % word_mod
        ≡ (get_packets_send u + trip.copies_there + trip.copies_back) % word_mod
  unfolding get_packets_received Receiver.get_packets_received get_packets_send
  run_sender-Trip a t u sent ran on trip =
      let taken = (Receiver.run u.receiver a.receiver_start a.receiver_passes).arrivals in
      omega (
        arith,
        run_sender-received a t u sent on ran,
        length-map {B = ℕ × D} (λ (x : Receiver.Arrival D). (x.bytes, x.time)) taken,
        ap length trip.measured,
        length-readings time_at trip.recbuffer trip.returned,
        Transit-length trip.back,
        length-map (λ (p : List B × A). p.0)
            (own trip.is_own (echo trip.bouncer trip.buffer trip.arrived)),
        length-echo trip.is_own trip.bouncer trip.buffer trip.arrived trip.no_echo,
        Transit-length trip.there,
        length-map {B = List B × A}
            (λ (p : Packet D). (datagram bytes_of u.packetsize p, trip.address)) (accepted_in a t),
        (run_sender-accepted a t u sent ran).1,
      )

module _ {D B : Type 0} ⦃d : Double D⦄ (bytes_of : Packet D → List B) (time_at : List B → D) where
  -- The workers of a load, none of whose packets the network copies, and how many packets get lost.
  pub data Trips (A : Type 0) : List (SenderThread D) → ℕ → Type 0 where
    no_trips : Trips A [] 0
    trip_of :
        {us : List (SenderThread D)} {losses : ℕ} (a : RunAnswers D) (t u : SenderThread D)
        (sent : List (Packet D)) (trip : Trip bytes_of time_at A a t u)
        → run_sender a t ≡ ok (some (u, sent))
        → t.ignore_responses ≡ false
        → trip.copies_there ≡ 0
        → trip.copies_back ≡ 0
        → Trips A us losses
        → Trips A (u ∷ us) (trip.losses_there + trip.losses_back + losses)

module _ {D A B : Type 0} ⦃d : Double D⦄ (bytes_of : Packet D → List B) (time_at : List B → D) where
  Trips-sum :
      {us : List (SenderThread D)} {losses : ℕ}
      → Trips bytes_of time_at A us losses
      → (sum (each (λ t. t.receiver.counter_received) us) + losses) % word_mod
        ≡ sum (each (λ t. t.counter_send) us) % word_mod
  unfolding get_packets_received Receiver.get_packets_received get_packets_send
  Trips-sum no_trips = refl
  Trips-sum (trip_of a t u sent trip ran on none_there none_back rest) = omega (
    arith,
    run_sender-Trip bytes_of time_at a t u sent ran on trip,
    none_there,
    none_back,
    Trips-sum rest,
  )

  -- The packets that `getResults` takes for lost are, modulo 2 ^ 64, those that got lost on the way to
  -- the bouncer or back, over all workers, if these listen for answers and the network copies none.
  pub get_results-Trips :
      (n : ℤ) (us : List (SenderThread D)) (losses : ℕ) (before : Results D)
      → Trips bytes_of time_at A us losses
      → (get_results n us before).packages_lost ≡ losses % word_mod
  unfolding sub64
  get_results-Trips n us losses before trips =
      let (total, lost) = get_results_lem n us before in
      omega (arith, lost, total.send, total.received, Trips-sum trips)
