-- ===== src/Sender/Thread/Run/Settings.antt =====
-- A run of a worker leaves its settings alone.
use udppingpong.Sender.Thread.Run.{finish_run, run_sender, RunAnswers}
use udppingpong.Sender.Thread.Run.Kept.{run_sender-kept}
use udppingpong.Base.{◌≡◌, some, List, arith, refl, ◌∙◌}
use udppingpong.Base.Int.{ℤ}
use udppingpong.Double.{Double}
use udppingpong.Exception.{ok}
use udppingpong.Sender.Thread.{
  SenderThread, SendAnswers, send_packet, Packet, prepare_run, count_sent, count_error,
}

module _ {D : Type 0} where
  -- Running time, timeout, slice and socket.
  abbrev pub settings_of : SenderThread D → (ℤ × ℤ) × (D × ℤ)
  settings_of t = ((t.runtime, t.timeout), (t.zeitscheibe, t.sockfd))

  abbrev pub HasSettings : (ℤ × ℤ) × (D × ℤ) → SenderThread D → Type 0
  HasSettings s t = settings_of t ≡ s

  pub send_packet-HasSettings :
      (s : (ℤ × ℤ) × (D × ℤ)) (a : SendAnswers D) (t : SenderThread D)
      → HasSettings s t
      → HasSettings s (send_packet a t).0
  unfolding send_packet count_sent count_error
  send_packet-HasSettings s a t h = ground (arith, h)

  -- Its running time and its slice.
  abbrev pub HasPlan : ℤ → D → SenderThread D → Type 0
  HasPlan runtime slice t = (t.runtime ≡ runtime) × (t.zeitscheibe ≡ slice)

module _ {D : Type 0} ⦃d : Double D⦄ where
  finish_run-settings :
      (a : RunAnswers D) (w u : SenderThread D) (packets sent : List (Packet D))
      → finish_run a w packets ≡ some (u, sent)
      → settings_of u ≡ settings_of w
  unfolding finish_run
  finish_run-settings a w u packets sent e = ground (arith, e)

  pub run_sender-settings :
      (a : RunAnswers D) (t u : SenderThread D) (sent : List (Packet D))
      → run_sender a t ≡ ok (some (u, sent))
      → settings_of u ≡ settings_of t
  unfolding prepare_run
  run_sender-settings a t u sent e =
      let (w, kept, (packets, ends)) =
        run_sender-kept (HasSettings (settings_of t)) (send_packet-HasSettings (settings_of t)) a t
          u sent refl e in
      finish_run-settings a w u packets sent ends ∙ kept
