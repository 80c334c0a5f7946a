-- ===== src/Sender/Load/Lines.antt =====
-- src/sender.cpp: the lines that `run` prints while its threads are running.
use udppingpong.Base.{
  ℕ, ◌+◌, ◌%◌, ◌≡◌, List, [], ◌∷◌, map, sum, if◌then◌else◌, arith, Bool-cases, inl, inr, ◌<◌, All,
}
use udppingpong.Base.Int.{pos}
use udppingpong.Base.Word.{word_mod, sub64}
use udppingpong.Double.{Double}
use udppingpong.Counter.{Counter, clear}
use udppingpong.Sensor.System.{SystemStat}
use udppingpong.Status.{Status, sender_status}

-- A round of the loop that waits: the time after its sleep, and what `sampleSensorData` and
-- `getCounter` would give then.
pub record Tick (D N : Type 0) : Type 0 where
  pub now : D
  pub stat : SystemStat D N
  pub counter : Counter D

-- The lines, and the sample and the counter that the last one was made of.
pub record Lines (D N : Type 0) : Type 0 where
  pub lines : List (Status D)
  pub stat : SystemStat D N
  pub counter : Counter D

step :
    (c p x last : ℕ)
    → p < word_mod
    → (x + c) % word_mod ≡ last % word_mod
    → (sub64 c p + x + p) % word_mod ≡ last % word_mod
unfolding sub64
step c p x last h e = omega (arith, h, e)

module _ {D N : Type 0} ⦃d : Double D⦄ where
  open d use {of_int, add, le}

  unfoldable pub print_lines : D → SystemStat D N → Counter D → List (Tick D N) → Lines D N
  unfolding sender_status
  print_lines end stat_start previous [] = record {
    lines = [];
    stat = stat_start;
    counter = previous;
  }
  print_lines end stat_start previous (t ∷ ts) =
      let due = le end t.now in
      let rest =
        print_lines (if due then add end (of_int (pos 1)) else end)
          (if due then t.stat else stat_start) (if due then t.counter else previous) ts in
      if due
      then record rest { lines = sender_status stat_start t.stat previous t.counter ∷ rest.lines }
      else rest

  -- From the start of the load on; `garbage` is the uninitialised counter before it is cleared.
  unfoldable pub print_load_lines : D → SystemStat D N → Counter D → List (Tick D N) → Lines D N
  unfolding print_lines clear
  print_load_lines start stat_start garbage ts =
      print_lines (add start (of_int (pos 1))) stat_start (clear garbage) ts

  -- The packets of a sample and of a counter are 64-bit words.
  abbrev pub IsWords : SystemStat D N → Counter D → Type 0
  IsWords stat counter =
      (counter.packets_send < word_mod)
      × (counter.packets_received < word_mod)
      × (stat.net_total.transmitted.packets < word_mod)
      × (stat.net_total.received.packets < word_mod)

  -- The lines lead from the first sample and counter to the last, modulo 2 ^ 64.
  abbrev pub Leads :
      List (Status D) → SystemStat D N → Counter D → SystemStat D N → Counter D → Type 0
  Leads lines stat counter stat' counter' =
      ((sum (map (λ l. l.app_tx) lines) + counter.packets_send) % word_mod
        ≡ counter'.packets_send % word_mod)
      × ((sum (map (λ l. l.app_rx) lines) + counter.packets_received) % word_mod
          ≡ counter'.packets_received % word_mod)
      × ((sum (map (λ l. l.if_tx) lines) + stat.net_total.transmitted.packets) % word_mod
          ≡ stat'.net_total.transmitted.packets % word_mod)
      × ((sum (map (λ l. l.if_rx) lines) + stat.net_total.received.packets) % word_mod
          ≡ stat'.net_total.received.packets % word_mod)

  print_lines-Leads :
      (end : D) (stat_start : SystemStat D N) (previous : Counter D) (ts : List (Tick D N))
      → IsWords stat_start previous
      → All (λ t. IsWords t.stat t.counter) ts
      → let all = print_lines end stat_start previous ts in
        Leads all.lines stat_start previous all.stat all.counter
  unfolding print_lines sub64
  print_lines-Leads end stat_start previous [] h hs =
      (omega arith, omega arith, omega arith, omega arith)
  print_lines-Leads end stat_start previous (t ∷ ts) (h1, h2, h3, h4) (w, ws) =
      elim (Bool-cases (le end t.now)) [
        | inl due ↦
            let (r1, r2, r3, r4) =
              print_lines-Leads (add end (of_int (pos 1))) t.stat t.counter ts w ws in
            rw due (
              step t.counter.packets_send previous.packets_send _ _ h1 r1,
              step t.counter.packets_received previous.packets_received _ _ h2 r2,
              step t.stat.net_total.transmitted.packets stat_start.net_total.transmitted.packets _ _
                  h3 r3,
              step t.stat.net_total.received.packets stat_start.net_total.received.packets _ _ h4
                  r4,
            )
        | inr early ↦ rw early (print_lines-Leads end stat_start previous ts (h1, h2, h3, h4) ws)
      ]

  -- Over a whole load the packets that the printed lines tell of add up, modulo 2 ^ 64: those of the
  -- program to its counters at the last line, which start from 0, and those of the network interfaces,
  -- with the sample from the start of the load, to the sample at the last line.
  pub print_load_lines-Leads :
      (start : D) (stat_start : SystemStat D N) (garbage : Counter D) (ts : List (Tick D N))
      → stat_start.net_total.transmitted.packets < word_mod
      → stat_start.net_total.received.packets < word_mod
      → All (λ t. IsWords t.stat t.counter) ts
      → let all = print_load_lines start stat_start garbage ts in
        Leads all.lines stat_start (clear garbage) all.stat all.counter
  unfolding print_load_lines
  print_load_lines-Leads start stat_start garbage ts h k hs =
      print_lines-Leads (add start (of_int (pos 1))) stat_start (clear garbage) ts
        (omega arith, omega arith, h, k) hs
