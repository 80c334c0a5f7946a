-- ===== src/Sensor/System.antt =====
-- src/SampleSensorData.cpp: the samples of the processor and of the memory, and `sampleSensorData`
-- on Linux.
use udppingpong.Base.{ℕ, ◌*◌, ◌%◌, Bool, Option, none, some, List, [], ◌∷◌}
use udppingpong.Base.Int.{ℤ}
use udppingpong.Base.Word.{word_mod}
use udppingpong.Sensor.{Cpu, Line, Sample, sample_network}

-- `SystemStat::Sysinfo`: bytes as 64-bit words.
pub record Sysinfo : Type 0 where
  pub uptime : ℕ
  pub freeswap : ℕ
  pub totalswap : ℕ
  pub freeram : ℕ
  pub bufferram : ℕ
  pub totalram : ℕ
  pub sharedram : ℕ
  pub procs : ℤ

-- What `sysinfo` tells, in units of `mem_unit` bytes.
pub record Info : Type 0 where
  pub info : Sysinfo
  pub mem_unit : ℕ

-- A number of bytes.
abbrev pub in_bytes : ℕ → ℕ → ℕ
in_bytes unit n = n * unit % word_mod

-- `none` is a failure, after which the sample stays as it was.
unfoldable pub sample_sysinfo : Option Info → Sysinfo → Sysinfo
sample_sysinfo none stat = stat
sample_sysinfo (some i) stat = record {
  uptime = i.info.uptime;
  freeswap = in_bytes i.mem_unit i.info.freeswap;
  totalswap = in_bytes i.mem_unit i.info.totalswap;
  freeram = in_bytes i.mem_unit i.info.freeram;
  bufferram = in_bytes i.mem_unit i.info.bufferram;
  totalram = in_bytes i.mem_unit i.info.totalram;
  sharedram = in_bytes i.mem_unit i.info.sharedram;
  procs = i.info.procs;
}

-- The numbers that `fscanf` converts are stored in order, also when there are fewer than five.
-- (The code then closes the file twice, which is left out.)
unfoldable pub sample_cpu_usage : List ℤ → Cpu → Cpu
sample_cpu_usage [] stat = stat
sample_cpu_usage (user ∷ []) stat = record stat { user = user }
sample_cpu_usage (user ∷ nice ∷ []) stat = record stat { user = user; nice = nice }
sample_cpu_usage (user ∷ nice ∷ system ∷ []) stat = record stat {
  user = user;
  nice = nice;
  system = system;
}
sample_cpu_usage (user ∷ nice ∷ system ∷ idle ∷ []) stat = record stat {
  user = user;
  nice = nice;
  system = system;
  idle = idle;
}
sample_cpu_usage (user ∷ nice ∷ system ∷ idle ∷ iowait ∷ more) stat = record {
  user = user;
  nice = nice;
  system = system;
  idle = idle;
  iowait = iowait;
}

pub record SystemStat (D N : Type 0) : Type 0 where
  pub sample_time : D
  pub cpu : Cpu
  pub sysinfo : Sysinfo
  pub net_total : Sample N

module _ {D N : Type 0} (same : N → N → Bool) where
  -- `net_total` and the interfaces are kept together here, in a `Sample`.
  unfoldable pub sample_sensor_data :
      D → List ℤ → Option Info → List (Line N) → SystemStat D N → SystemStat D N
  unfolding sample_cpu_usage sample_sysinfo sample_network
  sample_sensor_data now numbers info lines stat = record {
    sample_time = now;
    cpu = sample_cpu_usage numbers stat.cpu;
    sysinfo = sample_sysinfo info stat.sysinfo;
    net_total = sample_network same lines stat.net_total.interfaces;
  }
