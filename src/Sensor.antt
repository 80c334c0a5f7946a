-- ===== src/Sensor.antt =====
-- src/SampleSensorData.cpp and include/sensor.h: samples of the machine's load and of its network
-- interfaces.
pub mod Delta
pub mod Network
pub mod System
pub mod Exchange
pub mod FreeBsd
pub mod Examples
use udppingpong.Base.{
  ℕ, ◌+◌, ◌-◌, Bool, true, false, Option, none, some, List, [], ◌∷◌, leb, if◌then◌else◌,
}
use udppingpong.Base.Int.{ℤ, pos, ltb_ℤ, ◌+ℤ◌, ◌-ℤ◌}
use udppingpong.Base.Word.{word_mod, add64}
use udppingpong.Double.{Double}

-- `SystemStat::Network`, of 64-bit words.
pub record Traffic : Type 0 where
  pub bytes : ℕ
  pub packets : ℕ
  pub errs : ℕ
  pub drop : ℕ

pub record Cpu : Type 0 where
  pub user : ℤ
  pub nice : ℤ
  pub system : ℤ
  pub idle : ℤ
  pub iowait : ℤ

-- `N` is the type of interface names.
pub record Interface (N : Type 0) : Type 0 where
  pub name : N
  pub receive : Traffic
  pub transmit : Traffic

-- The constructor of `Network` and its `clear`.
abbrev pub clear_traffic : Traffic
clear_traffic = record { bytes = 0; packets = 0; errs = 0; drop = 0 }

-- The four `+=`.
unfoldable pub add_traffic : Traffic → Traffic → Traffic
add_traffic total t = record {
  bytes = add64 total.bytes t.bytes;
  packets = add64 total.packets t.packets;
  errs = add64 total.errs t.errs;
  drop = add64 total.drop t.drop;
}

-- `ULONG_MAX - sample1 + sample2`, where the sum is one of words.
unfoldable pub delta_with_overflow : ℕ → ℕ → ℕ
delta_with_overflow sample1 sample2 =
    if leb sample1 sample2 then sample2 - sample1 else add64 (word_mod - 1 - sample1) sample2

unfoldable pub get_delta : Traffic → Traffic → Traffic
unfolding delta_with_overflow
get_delta sample1 sample2 = record {
  bytes = delta_with_overflow sample1.bytes sample2.bytes;
  packets = delta_with_overflow sample1.packets sample2.packets;
  errs = delta_with_overflow sample1.errs sample2.errs;
  drop = delta_with_overflow sample1.drop sample2.drop;
}

module _ {D : Type 0} ⦃d : Double D⦄ where
  open d use {of_int, mul, div, fabs}

  unfoldable pub get_usage : Cpu → Cpu → D
  get_usage s1 s2 =
      let busy1 = s1.user +ℤ s1.nice +ℤ s1.system in
      let busy2 = s2.user +ℤ s2.nice +ℤ s2.system in
      fabs (
        div (mul (of_int (pos 100)) (of_int (busy2 -ℤ busy1)))
          (of_int (busy2 +ℤ s2.idle -ℤ (busy1 +ℤ s1.idle))))

-- A line of /proc/net/dev, as the string functions of ppl7 take it apart: where its first `:` is,
-- the name before it, and the number in each token.
pub record Line (N : Type 0) : Type 0 where
  pub colon : ℤ
  pub name : N
  pub token : ℕ → ℕ

-- An entry of `getifaddrs` on FreeBSD.
pub record IfAddr (N : Type 0) : Type 0 where
  pub is_link : Bool
  pub name : N
  pub received : Traffic
  pub transmitted : Traffic

-- The interfaces by name, and the total; the name of the total is not used.
pub record Sample (N : Type 0) : Type 0 where
  pub interfaces : List (Interface N)
  pub received : Traffic
  pub transmitted : Traffic

module _ {N : Type 0} where
  -- The interface of a line.
  unfoldable pub interface_of_line : Line N → Interface N
  interface_of_line line = record {
    name = line.name;
    receive = record {
      bytes = line.token 1;
      packets = line.token 2;
      errs = line.token 3;
      drop = line.token 4;
    };
    transmit = record {
      bytes = line.token 9;
      packets = line.token 10;
      errs = line.token 11;
      drop = line.token 12;
    };
  }

module _ {N : Type 0} (same : N → N → Bool) where
  -- The interface of a name.
  unfoldable pub find : N → List (Interface N) → Option (Interface N)
  find name [] = none
  find name (i ∷ rest) = if same i.name name then some i else find name rest

  -- `std::map::insert`: an entry of that name stays as it is. (The order of the entries is not that
  -- of the map.)
  unfoldable pub insert : Interface N → List (Interface N) → List (Interface N)
  unfolding find
  insert nif interfaces = elim (find nif.name interfaces) [
    | none ↦ nif ∷ interfaces
    | some old ↦ interfaces
  ]

  -- The end of the body of the loop of `sampleNetwork` on Linux.
  unfoldable pub add_interface : Interface N → Sample N → Sample N
  unfolding insert add_traffic
  add_interface nif s = record {
    interfaces = insert nif s.interfaces;
    received = add_traffic s.received nif.receive;
    transmitted = add_traffic s.transmitted nif.transmit;
  }

  -- The loop of `sampleNetwork` on Linux.
  unfoldable pub sample_lines : List (Line N) → Sample N → Sample N
  unfolding interface_of_line add_interface
  sample_lines [] s = s
  sample_lines (line ∷ rest) s =
      sample_lines rest
        (if ltb_ℤ (pos 1) line.colon then add_interface (interface_of_line line) s else s)

  unfoldable pub sample_network : List (Line N) → List (Interface N) → Sample N
  unfolding sample_lines
  sample_network lines interfaces =
      sample_lines lines
        (record { interfaces = interfaces; received = clear_traffic; transmitted = clear_traffic })

  -- The body of the loop of `sampleNetwork` on FreeBSD.
  unfoldable pub add_addr : IfAddr N → Sample N → Sample N
  unfolding insert add_traffic
  add_addr a s =
      if a.is_link
      then record {
        interfaces =
            insert (record { name = a.name; receive = a.received; transmit = a.transmitted })
              s.interfaces;
        received = add_traffic s.received a.received;
        transmitted = add_traffic s.transmitted a.transmitted;
      }
      else s

  unfoldable pub sample_addrs : List (IfAddr N) → Sample N → Sample N
  unfolding add_addr
  sample_addrs [] s = s
  sample_addrs (a ∷ rest) s = sample_addrs rest (add_addr a s)
