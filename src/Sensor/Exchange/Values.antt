-- ===== src/Sensor/Exchange/Values.antt =====
-- What each key of the array of a sample stands for, and the keys in the order of the code.
use udppingpong.Base.{ℕ, List, [], ◌∷◌}
use udppingpong.Arrays.{Formats}
use udppingpong.Sensor.{Traffic, Cpu, Interface}
use udppingpong.Sensor.System.{SystemStat, Sysinfo}
use udppingpong.Sensor.Exchange.Keys.{
  receive, transmit, Count, bytes, packets, errs, drop, CpuField, user, nice, system, idle, iowait,
  SysField, uptime, freeswap, totalswap, freeram, bufferram, totalram, sharedram, procs, Key,
  sample_time, net_total, cpu, sysinfo, InnerKey, name, traffic,
}

abbrev pub get_count : Count → Traffic → ℕ
get_count bytes t = t.bytes
get_count packets t = t.packets
get_count errs t = t.errs
get_count drop t = t.drop

abbrev pub set_count : Count → ℕ → Traffic → Traffic
set_count bytes n t = record t { bytes = n }
set_count packets n t = record t { packets = n }
set_count errs n t = record t { errs = n }
set_count drop n t = record t { drop = n }

-- The keys that are read and written before and after the interfaces.
abbrev pub first_keys : List Key
first_keys =
    sample_time
    ∷ net_total receive bytes
    ∷ net_total receive packets
    ∷ net_total receive errs
    ∷ net_total receive drop
    ∷ net_total transmit bytes
    ∷ net_total transmit packets
    ∷ net_total transmit errs
    ∷ net_total transmit drop
    ∷ []

abbrev pub last_keys : List Key
last_keys =
    cpu user
    ∷ cpu nice
    ∷ cpu system
    ∷ cpu idle
    ∷ cpu iowait
    ∷ sysinfo uptime
    ∷ sysinfo freeswap
    ∷ sysinfo totalswap
    ∷ sysinfo freeram
    ∷ sysinfo bufferram
    ∷ sysinfo totalram
    ∷ sysinfo sharedram
    ∷ sysinfo procs
    ∷ []

-- The keys of the traffic of an interface.
abbrev pub traffic_keys : List InnerKey
traffic_keys =
    traffic receive bytes
    ∷ traffic receive packets
    ∷ traffic receive errs
    ∷ traffic receive drop
    ∷ traffic transmit bytes
    ∷ traffic transmit packets
    ∷ traffic transmit errs
    ∷ traffic transmit drop
    ∷ []

module _ {D S : Type 0} (f : Formats D S) where
  open f use {show_long, show_int, to_long, to_int}

  abbrev cpu_value : CpuField → Cpu → S
  cpu_value user c = show_int c.user
  cpu_value nice c = show_int c.nice
  cpu_value system c = show_int c.system
  cpu_value idle c = show_int c.idle
  cpu_value iowait c = show_int c.iowait

  abbrev sys_value : SysField → Sysinfo → S
  sys_value uptime s = show_long s.uptime
  sys_value freeswap s = show_long s.freeswap
  sys_value totalswap s = show_long s.totalswap
  sys_value freeram s = show_long s.freeram
  sys_value bufferram s = show_long s.bufferram
  sys_value totalram s = show_long s.totalram
  sys_value sharedram s = show_long s.sharedram
  sys_value procs s = show_int s.procs

  abbrev cpu_store : CpuField → S → Cpu → Cpu
  cpu_store user x c = record c { user = to_int x }
  cpu_store nice x c = record c { nice = to_int x }
  cpu_store system x c = record c { system = to_int x }
  cpu_store idle x c = record c { idle = to_int x }
  cpu_store iowait x c = record c { iowait = to_int x }

  abbrev sys_store : SysField → S → Sysinfo → Sysinfo
  sys_store uptime x s = record s { uptime = to_long x }
  sys_store freeswap x s = record s { freeswap = to_long x }
  sys_store totalswap x s = record s { totalswap = to_long x }
  sys_store freeram x s = record s { freeram = to_long x }
  sys_store bufferram x s = record s { bufferram = to_long x }
  sys_store totalram x s = record s { totalram = to_long x }
  sys_store sharedram x s = record s { sharedram = to_long x }
  sys_store procs x s = record s { procs = to_int x }

module _ {D N S : Type 0} (f : Formats D S) where
  open f use {show_double, show_word, to_double, to_word}

  -- What `exportToArray` sets a key to.
  abbrev pub value : SystemStat D N → Key → S
  value s sample_time = show_double s.sample_time
  value s (net_total receive c) = show_word (get_count c s.net_total.received)
  value s (net_total transmit c) = show_word (get_count c s.net_total.transmitted)
  value s (cpu k) = cpu_value f k s.cpu
  value s (sysinfo k) = sys_value f k s.sysinfo

  -- What `importFromArray` does with the string of a key.
  abbrev pub store : Key → S → SystemStat D N → SystemStat D N
  store sample_time x s = record s { sample_time = to_double x }
  store (net_total receive c) x s = record s {
    net_total = record (s.net_total) { received = set_count c (to_word x) s.net_total.received };
  }
  store (net_total transmit c) x s = record s {
    net_total = record (s.net_total) {
      transmitted = set_count c (to_word x) s.net_total.transmitted;
    };
  }
  store (cpu k) x s = record s { cpu = cpu_store f k x s.cpu }
  store (sysinfo k) x s = record s { sysinfo = sys_store f k x s.sysinfo }

  -- The same for the array of an interface; its name is not read from there.
  abbrev pub inner_value : (N → S) → Interface N → InnerKey → S
  inner_value show_name i name = show_name i.name
  inner_value show_name i (traffic receive c) = show_word (get_count c i.receive)
  inner_value show_name i (traffic transmit c) = show_word (get_count c i.transmit)

  abbrev pub inner_store : InnerKey → S → Interface N → Interface N
  inner_store name x i = i
  inner_store (traffic receive c) x i = record i { receive = set_count c (to_word x) i.receive }
  inner_store (traffic transmit c) x i = record i { transmit = set_count c (to_word x) i.transmit }
