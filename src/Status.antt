-- ===== src/Status.antt =====
-- src/sender.cpp and src/bouncer.cpp: the line that both programs print once a second.
use udppingpong.Base.{ℕ, ◌/◌, ◌^◌}
use udppingpong.Base.Word.{add64, sub64}
use udppingpong.Double.{Double}
use udppingpong.Counter.{Counter}
use udppingpong.Sensor.{get_usage}
use udppingpong.Sensor.System.{SystemStat}

-- The figures of a line.
pub record Status (D : Type 0) : Type 0 where
  pub app_tx : ℕ
  pub app_rx : ℕ
  pub if_tx : ℕ
  pub if_rx : ℕ
  pub errors : ℕ
  pub drops : ℕ
  pub mbit_tx : ℕ
  pub mbit_rx : ℕ
  pub cpu : D

-- `(end-start)>>17`
abbrev pub mbits : ℕ → ℕ → ℕ
mbits end start = sub64 end start / 2 ^ 17

module _ {D N : Type 0} ⦃d : Double D⦄ where
  -- In the sender the counter goes on from one line to the next.
  unfoldable pub sender_status : SystemStat D N → SystemStat D N → Counter D → Counter D → Status D
  unfolding sub64 add64 get_usage
  sender_status stat_start stat_end previous counter =
      let rx = stat_start.net_total.received in
      let tx = stat_start.net_total.transmitted in
      let rx' = stat_end.net_total.received in
      let tx' = stat_end.net_total.transmitted in
      record {
        app_tx = sub64 counter.packets_send previous.packets_send;
        app_rx = sub64 counter.packets_received previous.packets_received;
        if_tx = sub64 tx'.packets tx.packets;
        if_rx = sub64 rx'.packets rx.packets;
        errors = sub64 (add64 (sub64 rx'.errs rx.errs) tx'.errs) tx.errs;
        drops = sub64 (add64 (sub64 rx'.drop rx.drop) tx'.drop) tx.drop;
        mbit_tx = mbits tx'.bytes tx.bytes;
        mbit_rx = mbits rx'.bytes rx.bytes;
        cpu = get_usage stat_end.cpu stat_start.cpu;
      }

  -- The bouncer's counter starts anew for each line. Its drops are those received, twice.
  unfoldable pub bouncer_status : SystemStat D N → SystemStat D N → Counter D → Status D
  unfolding sub64 add64 get_usage
  bouncer_status stat_start stat_end counter =
      let rx = stat_start.net_total.received in
      let tx = stat_start.net_total.transmitted in
      let rx' = stat_end.net_total.received in
      let tx' = stat_end.net_total.transmitted in
      record {
        app_tx = counter.packets_send;
        app_rx = counter.packets_received;
        if_tx = sub64 tx'.packets tx.packets;
        if_rx = sub64 rx'.packets rx.packets;
        errors = sub64 (add64 (sub64 rx'.errs rx.errs) tx'.errs) tx.errs;
        drops = sub64 (add64 (sub64 rx'.drop rx.drop) rx'.drop) rx.drop;
        mbit_tx = mbits tx'.bytes tx.bytes;
        mbit_rx = mbits rx'.bytes rx.bytes;
        cpu = get_usage stat_end.cpu stat_start.cpu;
      }
