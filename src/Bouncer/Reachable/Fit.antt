-- ===== src/Bouncer/Reachable/Fit.antt =====
-- The answers of the workers of a bouncer, in every state of it.
use udppingpong.Base.{ℕ, ◌≤◌, ◌<◌, List, All, All-get_or, length, get_or}
use udppingpong.Socket.{Call}
use udppingpong.Bouncer.Thread.{Thread, Pass, run, buffer_size}
use udppingpong.Bouncer.Thread.Trace.{packets, sends}
use udppingpong.Bouncer.Thread.Replies.{IsPacketSize, run-sends_fit}
use udppingpong.Bouncer.{Bouncer}
use udppingpong.Bouncer.Reachable.{Reaches}
use udppingpong.Bouncer.Reachable.Sound.{Reaches-IsSound}

module _ {D A : Type 0} where
  -- Whatever its owner has called and whatever has been counted, no worker of a bouncer reads past the
  -- end of its buffer when it sends, as long as `recvfrom` keeps to the 4096 bytes that it is given
  -- room for.
  pub Reaches-sends_fit :
      (nowhere : A) (calls : List (Call A)) (b : Bouncer D A) (i : ℕ) (default : Thread D)
      (start : ℕ) (ps : List (Pass A))
      → Reaches nowhere calls b
      → i < length b.threadpool
      → let t = get_or b.threadpool i default in
        All (λ p. p.0 ≤ buffer_size) (packets (run t start ps).calls)
        → All (λ p. p.0 ≤ buffer_size) (sends (run (get_or b.threadpool i default) start ps).calls)
  Reaches-sends_fit nowhere calls b i default start ps r h fits =
      let valid =
        All-get_or (λ t. IsPacketSize t.packet_size) b.threadpool i default h
          (Reaches-IsSound nowhere calls b r).sizes in
      run-sends_fit (get_or b.threadpool i default) start ps valid fits
