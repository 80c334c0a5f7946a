-- ===== src/Sender/Thread/Run/Accepted.antt =====
-- The packets of a run that `send` has accepted, by its answers, and when they were sent.
use mathlib.Core.List.{Mem}
use udppingpong.Base.{
  ℕ, ◌+◌, ◌≡◌, Bool, true, false, ◌&&◌, List, [], ◌∷◌, ◌++◌, ltb, ◌==◌, if◌then◌else◌, ◌⊎◌,
}
use udppingpong.Base.Int.{pos, ltb_ℤ}
use udppingpong.Double.{Double}
use udppingpong.Exception.{ok, throw}
use udppingpong.Sender.Thread.{Packet, SenderThread, SendAnswers, Sent, sent, failed, prepare_run}
use udppingpong.Sender.Thread.Rate.{SliceAnswers, run_with_rate_limit}
use udppingpong.Sender.Thread.Run.{Round, RunAnswers, socket_ready, run_without_rate_limit}

-- `send` has taken the whole packet.
abbrev pub accepts : ℕ → Sent → Bool
accepts size (sent n) = ltb 0 n && n == size
accepts size (failed errno) = false

module _ {D : Type 0} where
  -- Of packets sent in a row, from answer number i on.
  unfoldable pub accepted_packets : ℕ → ℕ → (ℕ → SendAnswers D) → List (Packet D) → List (Packet D)
  accepted_packets size i answers [] = []
  accepted_packets size i answers (p ∷ ps) =
      let rest = accepted_packets size (i + 1) answers ps in
      if accepts size (answers i).send then p ∷ rest else rest

  -- Of the packets of some slices, from number z on.
  unfoldable pub accepted_slices :
      ℕ → ℕ → (ℕ → SliceAnswers D) → List (List (Packet D)) → List (Packet D)
  unfolding accepted_packets
  accepted_slices size z answers [] = []
  accepted_slices size z answers (ps ∷ pss) =
      accepted_packets size 0 (answers z).sends ps ++ accepted_slices size (z + 1) answers pss

  -- The calls of `sendPacket` in the loop without rate limit.
  abbrev pub ready_sends : List (Round D) → List (SendAnswers D)
  ready_sends [] = []
  ready_sends (r ∷ rs) = if socket_ready r.writable then r.send ∷ ready_sends rs else ready_sends rs

  -- Of packets that got these answers.
  unfoldable pub accepted_each : ℕ → List (Packet D) → List (SendAnswers D) → List (Packet D)
  accepted_each size [] answers = []
  accepted_each size (p ∷ ps) [] = []
  accepted_each size (p ∷ ps) (a ∷ answers) =
      let rest = accepted_each size ps answers in if accepts size a.send then p ∷ rest else rest

  -- The time is that read in such a call of `sendPacket`, of which `send` has accepted the packet.
  abbrev pub IsSentAt : (SendAnswers D → Type 0) → ℕ → D → Type 0
  IsSentAt Q size x = (s : SendAnswers D) × Q s × (accepts size s.send ≡ true) × (x ≡ s.now)

  -- A call of `sendPacket` in a run: in a slice, or in a round of the loop without rate limit.
  abbrev pub IsCallOf : RunAnswers D → SendAnswers D → Type 0
  IsCallOf a s =
      ((z : ℕ) × (i : ℕ) × (s ≡ (a.slices z).sends i))
      ⊎ ((r : Round D) × Mem r a.rounds × (s ≡ r.send))

module _ {D : Type 0} ⦃d : Double D⦄ where
  open d use {of_int, add, lt, le}

  -- The packets of a run that `send` has accepted.
  unfoldable pub accepted_in : RunAnswers D → SenderThread D → List (Packet D)
  unfolding accepted_slices accepted_each prepare_run run_with_rate_limit run_without_rate_limit
  accepted_in a t =
      let t' = prepare_run a.random t in
      if ltb_ℤ (pos 0) t.queryrate
      then elim (run_with_rate_limit a.sock_errno a.nsec a.loop_start a.slices t') [
        | throw e ↦ []
        | ok r ↦ accepted_slices t.packetsize 0 a.slices r.slices
      ]
      else accepted_each t.packetsize (run_without_rate_limit a.loop_start a.rounds t').packets
          (ready_sends a.rounds)
