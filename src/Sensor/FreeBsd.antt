-- ===== src/Sensor/FreeBsd.antt =====
-- src/SampleSensorData.cpp: `sampleSensorData` on FreeBSD.
pub mod Failures
pub mod Examples
use udppingpong.Base.{
  ℕ, ◌+◌, ◌-◌, ◌*◌, ◌%◌, ◌^◌, Bool, true, false, Option, none, some, List, [], ◌∷◌, ltb,
  if◌then◌else◌, ◌==◌, not, ◌||◌,
}
use udppingpong.Base.Int.{ℤ, pos, negsuc, ltb_ℤ, ◌*ℤ◌}
use udppingpong.Base.Word.{word_mod, word_of}
use udppingpong.Double.{Double}
use udppingpong.Exception.{
  Result, ok, throw, Thrown, done, system_call_failed, kernel_access_failed,
}
use udppingpong.Sensor.{Cpu, Sample, IfAddr, clear_traffic, sample_addrs}
use udppingpong.Sensor.System.{Sysinfo, SystemStat}
use udppingpong.Sensor.Exchange.{then_do}

-- The `int` of the low bits of a number.
abbrev pub int_of : ℤ → ℤ
int_of z =
    let low = word_of z % 2 ^ 32 in if ltb low (2 ^ 31) then pos low else negsuc (2 ^ 32 - low - 1)

-- What `sysctlbyname` gives: nothing, or a value and its size.
abbrev pub Sysctl : Type 0
Sysctl = Option (ℤ × ℕ)

unfoldable pub get_sysctl : Sysctl → ℕ → Result ℤ
get_sysctl none len = throw system_call_failed
get_sysctl (some (value, nlen)) len = if nlen == len then ok value else throw system_call_failed

-- `cp_times` is what its memory holds, also after a failure, when it has been freed.
unfoldable pub sample_cpu_usage : (ℕ → ℤ) → Cpu
sample_cpu_usage cp_times = record {
  user = int_of (cp_times 0);
  nice = int_of (cp_times 1);
  system = int_of (cp_times 2);
  idle = int_of (cp_times 4);
  iowait = int_of (cp_times 3);
}

-- The answer of `kvm_getswapinfo`, and the first entry of its array (`unsigned int`).
pub record SwapInfo : Type 0 where
  pub answer : ℤ
  pub total : ℕ
  pub used : ℕ

module _ (D : Type 0) ⦃d : Double D⦄ where
  open d use {of_int, mul, div, trunc}

  -- What it returns, then the memory that is there and that is free, in bytes.
  unfoldable pub swapmode : ℕ → SwapInfo → ℤ × ℕ × ℕ
  swapmode pagesize i = if ltb_ℤ i.answer (pos 0) || i.total == 0 then (pos 0, 0, 0) else (
    trunc (div (mul (of_int (pos i.used)) (of_int (pos 100))) (of_int (pos i.total))),
    i.total * pagesize % word_mod,
    (i.total + (2 ^ 32 - i.used)) % 2 ^ 32 * pagesize % word_mod,
  )

-- What the system answers: `uptime` and `ifaddrs` are `none` after a failure.
pub record SystemAnswers (D N : Type 0) : Type 0 where
  pub kvm_open : Bool
  pub now : D
  pub cp_times : ℕ → ℤ
  pub pagesize : ℕ
  pub uptime : Option ℕ
  pub swap : SwapInfo
  pub free_count : Sysctl
  pub physmem : Sysctl
  pub ifaddrs : Option (List (IfAddr N))

-- The static `kd`, and how often `exit_kvm` has been registered.
pub record Kernel : Type 0 where
  pub kd : Bool
  pub exits : ℕ

-- The part before the sample; the second component says whether it throws.
unfoldable pub open_kernel : Bool → Kernel → Kernel × Thrown
open_kernel kvm_open k =
    if k.kd
    then (k, done)
    else if kvm_open
    then (record { kd = true; exits = k.exits + 1 }, done)
    else (k, throw kernel_access_failed)

-- The numbers of handles that are closed.
unfoldable pub exit_kvm : Kernel → ℕ
exit_kvm k = if k.kd then 1 else 0

module _ {N : Type 0} where
  unfoldable pub sample_network :
      (N → N → Bool) → Option (List (IfAddr N)) → Sample N → Sample N × Thrown
  unfolding sample_addrs
  sample_network same none s =
      (record s { received = clear_traffic; transmitted = clear_traffic }, throw system_call_failed)
  sample_network same (some addrs) s = (
    sample_addrs same addrs (record s { received = clear_traffic; transmitted = clear_traffic }),
    done,
  )

module _ {D N : Type 0} ⦃d : Double D⦄ where
  -- `tmp*pagesize` is a product of `int`, which is taken to wrap round.
  unfoldable pub sample_sysinfo : SystemAnswers D N → Sysinfo → Sysinfo × Thrown
  unfolding swapmode get_sysctl
  sample_sysinfo a stat =
      let (percent, avail, free) = swapmode D a.pagesize a.swap in
      let stat1 = record stat {
        uptime = elim (a.uptime) [ none ↦ stat.uptime | some t ↦ t ];
        totalswap = avail;
        freeswap = free;
      } in
      elim (get_sysctl a.free_count 4) [
        | throw e ↦ (stat1, throw e)
        | ok tmp ↦
            let stat2 = record stat1 { freeram = word_of (int_of (tmp *ℤ pos a.pagesize)) } in
            elim (get_sysctl a.physmem 8) [
              | throw e ↦ (stat2, throw e)
              | ok tmp_l ↦ (record stat2 { totalram = word_of tmp_l }, done)
            ]
      ]

  -- The samples, one after the other, up to the one that throws.
  unfoldable pub sample_all :
      (N → N → Bool) → SystemAnswers D N → SystemStat D N → SystemStat D N × Thrown
  unfolding sample_cpu_usage sample_sysinfo sample_network
  sample_all same a stat =
      let stat1 = record stat { sample_time = a.now; cpu = sample_cpu_usage a.cp_times } in
      let (sys, thrown) = sample_sysinfo a stat.sysinfo in
      then_do (record stat1 { sysinfo = sys }, thrown)
        (λ stat2.
          let (net, thrown2) = sample_network same a.ifaddrs stat2.net_total in
          (record stat2 { net_total = net }, thrown2))

  unfoldable pub sample_sensor_data :
      (N → N → Bool)
      → SystemAnswers D N
      → Kernel × SystemStat D N
      → (Kernel × SystemStat D N) × Thrown
  unfolding open_kernel sample_all
  sample_sensor_data same a (k, stat) =
      let (k1, opened) = open_kernel a.kvm_open k in
      then_do ((k1, stat), opened)
        (λ s. let (stat1, thrown) = sample_all same a (s.1) in ((s.0, stat1), thrown))
