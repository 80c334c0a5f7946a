-- ===== src/Sensor/Exchange/Keys.antt =====
-- The keys of the array of a sample.
use udppingpong.Base.{
  ℕ, ◌+◌, ◌*◌, Bool, ◌==◌, if◌then◌else◌, ◌≡◌, ltb, ◌-◌, refl, true, ◌/◌, arith, sym, ◌%◌, ◌∙◌, ap,
}

pub data Direction : Type 0 where
  receive transmit : Direction

pub data Count : Type 0 where
  bytes packets errs drop : Count

pub data CpuField : Type 0 where
  user nice system idle iowait : CpuField

pub data SysField : Type 0 where
  uptime freeswap totalswap freeram bufferram totalram sharedram procs : SysField

-- As `net_total (receive) (bytes)` for "net_total/receive/bytes".
pub data Key : Type 0 where
  sample_time : Key
  net_total : Direction → Count → Key
  cpu : CpuField → Key
  sysinfo : SysField → Key

-- The keys of the array of an interface.
pub data InnerKey : Type 0 where
  name : InnerKey
  traffic : Direction → Count → InnerKey

abbrev number_direction : Direction → ℕ
number_direction receive = 0
number_direction transmit = 1

abbrev number_count : Count → ℕ
number_count bytes = 0
number_count packets = 1
number_count errs = 2
number_count drop = 3

abbrev number_cpu : CpuField → ℕ
number_cpu user = 0
number_cpu nice = 1
number_cpu system = 2
number_cpu idle = 3
number_cpu iowait = 4

abbrev number_sys : SysField → ℕ
number_sys uptime = 0
number_sys freeswap = 1
number_sys totalswap = 2
number_sys freeram = 3
number_sys bufferram = 4
number_sys totalram = 5
number_sys sharedram = 6
number_sys procs = 7

abbrev number : Key → ℕ
number sample_time = 0
number (net_total d c) = 10 + number_direction d * 4 + number_count c
number (cpu f) = 20 + number_cpu f
number (sysinfo f) = 30 + number_sys f

abbrev number_inner : InnerKey → ℕ
number_inner name = 0
number_inner (traffic d c) = 10 + number_direction d * 4 + number_count c

abbrev pub same : Key → Key → Bool
same k l = number k == number l

abbrev pub same_inner : InnerKey → InnerKey → Bool
same_inner k l = number_inner k == number_inner l

-- The keys by their numbers.
abbrev direction_of : ℕ → Direction
direction_of n = if n == 0 then receive else transmit

abbrev count_of : ℕ → Count
count_of n = if n == 0 then bytes else if n == 1 then packets else if n == 2 then errs else drop

abbrev cpu_of : ℕ → CpuField
cpu_of n =
    if n == 0
    then user
    else if n == 1
    then nice
    else if n == 2
    then system
    else if n == 3
    then idle
    else iowait

abbrev sys_of : ℕ → SysField
sys_of n =
    if n == 0
    then uptime
    else if n == 1
    then freeswap
    else if n == 2
    then totalswap
    else if n == 3
    then freeram
    else if n == 4
    then bufferram
    else if n == 5
    then totalram
    else if n == 6
    then sharedram
    else procs

abbrev key_of : ℕ → Key
key_of n =
    if n == 0
    then sample_time
    else if ltb n 20
    then net_total (direction_of ((n - 10) / 4)) (count_of ((n - 10) % 4))
    else if ltb n 30
    then cpu (cpu_of (n - 20))
    else sysinfo (sys_of (n - 30))

abbrev inner_of : ℕ → InnerKey
inner_of n =
    if n == 0 then name else traffic (direction_of ((n - 10) / 4)) (count_of ((n - 10) % 4))

key_of-number : (k : Key) → key_of (number k) ≡ k
key_of-number sample_time = refl
key_of-number (net_total receive bytes) = refl
key_of-number (net_total receive packets) = refl
key_of-number (net_total receive errs) = refl
key_of-number (net_total receive drop) = refl
key_of-number (net_total transmit bytes) = refl
key_of-number (net_total transmit packets) = refl
key_of-number (net_total transmit errs) = refl
key_of-number (net_total transmit drop) = refl
key_of-number (cpu user) = refl
key_of-number (cpu nice) = refl
key_of-number (cpu system) = refl
key_of-number (cpu idle) = refl
key_of-number (cpu iowait) = refl
key_of-number (sysinfo uptime) = refl
key_of-number (sysinfo freeswap) = refl
key_of-number (sysinfo totalswap) = refl
key_of-number (sysinfo freeram) = refl
key_of-number (sysinfo bufferram) = refl
key_of-number (sysinfo totalram) = refl
key_of-number (sysinfo sharedram) = refl
key_of-number (sysinfo procs) = refl

inner_of-number : (k : InnerKey) → inner_of (number_inner k) ≡ k
inner_of-number name = refl
inner_of-number (traffic receive bytes) = refl
inner_of-number (traffic receive packets) = refl
inner_of-number (traffic receive errs) = refl
inner_of-number (traffic receive drop) = refl
inner_of-number (traffic transmit bytes) = refl
inner_of-number (traffic transmit packets) = refl
inner_of-number (traffic transmit errs) = refl
inner_of-number (traffic transmit drop) = refl

eq_of : (m n : ℕ) → (m == n) ≡ true → m ≡ n
eq_of m n h = ground arith

pub same_eq : (k l : Key) → same k l ≡ true → k ≡ l
same_eq k l h = sym (key_of-number k) ∙ ap key_of (eq_of (number k) (number l) h) ∙ key_of-number l

pub same_inner_eq : (k l : InnerKey) → same_inner k l ≡ true → k ≡ l
same_inner_eq k l h =
    sym (inner_of-number k)
    ∙ ap inner_of (eq_of (number_inner k) (number_inner l) h)
    ∙ inner_of-number l
