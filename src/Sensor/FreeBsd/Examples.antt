-- ===== src/Sensor/FreeBsd/Examples.antt =====
-- Samples on FreeBSD, and the theorems at them.
use udppingpong.Exception.{throw, kernel_access_failed}
use udppingpong.Sensor.FreeBsd.Failures.{sample_sysinfo_free}
use udppingpong.Base.Int.{ℤ, ◌*ℤ◌, tdiv}
use udppingpong.Sensor.System.{SystemStat}
use udppingpong.Sensor.FreeBsd.{
  SystemAnswers, Kernel, sample_sensor_data, sample_sysinfo, exit_kvm, swapmode, system_call_failed,
}
use udppingpong.Sensor.{Traffic, Sample, IfAddr, pos, clear_traffic, get_usage}
use udppingpong.Base.{
  ℕ, Bool, List, some, ◌==◌, [], Option, false, ◌≡◌, true, ◌*◌, ◌∷◌, none, ◌↔◌, refl, ◌<◌, ◌^◌,
  arith,
}
use udppingpong.Double.Micros.{micros_double}
use udppingpong.Sensor.FreeBsd

abbrev same : ℕ → ℕ → Bool
same a b = a == b

abbrev traffic : Traffic
traffic = record { bytes = 10; packets = 2; errs = 0; drop = 0 }

-- Entries of a loopback and of its address.
abbrev addrs : List (IfAddr ℕ)
addrs =
    record { is_link = true; name = 1; received = traffic; transmitted = traffic }
    ∷ record { is_link = false; name = 1; received = traffic; transmitted = traffic }
    ∷ []

abbrev empty_sample : Sample ℕ
empty_sample = record { interfaces = []; received = clear_traffic; transmitted = clear_traffic }

abbrev answers : SystemAnswers (Option ℤ) ℕ
answers = record {
  kvm_open = true;
  now = some (pos 7);
  cp_times = λ i. pos i;
  pagesize = 4096;
  uptime = some 100;
  swap = record { answer = pos 1; total = 1000; used = 250 };
  free_count = some (pos 1000, 4);
  physmem = some (pos 500_000_000, 8);
  ifaddrs = some addrs;
}

abbrev closed : Kernel
closed = record { kd = false; exits = 0 }

abbrev zero_stat : SystemStat (Option ℤ) ℕ
zero_stat = record {
  sample_time = some (pos 0);
  cpu = record { user = pos 0; nice = pos 0; system = pos 0; idle = pos 0; iowait = pos 0 };
  sysinfo = record {
    uptime = 0;
    freeswap = 0;
    totalswap = 0;
    freeram = 0;
    bufferram = 0;
    totalram = 0;
    sharedram = 0;
    procs = pos 0;
  };
  net_total = empty_sample;
}

-- No list of interfaces.
abbrev failing : SystemAnswers (Option ℤ) ℕ
failing = record answers { ifaddrs = none }

tests :
    (swapmode (Option ℤ) 4096 (answers.swap) ≡ (pos 25, 4_096_000, 3_072_000))
    × ((sample_sensor_data same answers (closed, zero_stat)).0.1.sysinfo.totalram ≡ 500_000_000)
    × ((sample_sensor_data same
          (record answers { free_count = some (pos 1, 8) })
          (closed, zero_stat)).1
        ≡ throw system_call_failed)
    × ((sample_sensor_data same (record answers { kvm_open = false }) (closed, zero_stat)).1
        ≡ throw kernel_access_failed)
    × (FreeBsd.sample_cpu_usage (λ i. pos i)
        ≡ record { user = pos 0; nice = pos 1; system = pos 2; idle = pos 4; iowait = pos 3 })
unfolding sample_sensor_data swapmode FreeBsd.sample_cpu_usage get_usage ◌*ℤ◌ tdiv sample_sysinfo
tests = (refl, refl, refl, refl, refl)

sample_sysinfo_free_example :
    ((sample_sysinfo answers zero_stat.sysinfo).0.freeram ≡ 1000 * 4096) ↔ (1000 * 4096 < 2 ^ 31)
sample_sysinfo_free_example = sample_sysinfo_free answers zero_stat.sysinfo 1000 refl (omega arith)
