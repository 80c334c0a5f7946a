-- ===== src/Bouncer/Program/Examples.antt =====
-- The program of the bouncer at examples, and the theorem about its settings.
use udppingpong.Base.{
  ℕ, ◌≡◌, refl, true, false, some, none, [], ◌∷◌, List, map, ◌/◌, if◌then◌else◌, ◌==◌,
}
use udppingpong.Base.Int.{ℤ, pos, ◌+ℤ◌, ◌*ℤ◌}
use udppingpong.Counter.{Counter}
use udppingpong.Base.Word.{sub64}
use udppingpong.Sender.Load.Examples.{stat_of}
use udppingpong.Double.Micros.{Micros, micros_double}
use udppingpong.Exception.{ok, throw, resolver_exception}
use udppingpong.Bouncer.{Bouncer, create, set_interface}
use udppingpong.Bouncer.Program.{Arguments, exits, set_up, Round, run_bouncer}

abbrev pub arguments : Arguments ℕ
arguments = record {
  help = false;
  server_given = true;
  server = 1 ∷ 5001 ∷ [];
  noecho = true;
  thread_count = pos 0;
  packet_size = 64;
}

abbrev pub resolve : ℕ → List ℕ
resolve s = if s == 1 then 10 ∷ [] else 10 ∷ 11 ∷ []

abbrev pub sock_addr : ℕ → ℤ → ℕ
sock_addr ip port = ip

abbrev fresh : Bouncer Micros ℕ
fresh = create 0

abbrev ready : Bouncer Micros ℕ
ready = record fresh { sockaddr = 10; no_echo = true; packet_size = 64 }

abbrev garbage : Counter Micros
garbage = record {
  packets_received = 1;
  packets_send = 1;
  bytes_received = 1;
  bytes_send = 1;
  sample_time = none;
}

abbrev pub round : ℕ → Round Micros ℕ
round time = record {
  stop_flag = false;
  now = some (pos time);
  garbage = garbage;
  sample_time = some (pos time);
  stat = stat_of (time / 1_000);
  handled = λ i. 100 ∷ 90 ∷ [];
}

tests :
    (set_up pos resolve sock_addr (record arguments { packet_size = 31 }) fresh ≡ ok (exits 1))
    × (set_up pos resolve sock_addr (record arguments { help = true }) fresh ≡ ok (exits 0))
    × (set_up pos resolve sock_addr (record arguments { server = 2 ∷ 1 ∷ [] }) fresh
        ≡ throw resolver_exception)
    × (map
          (λ l. l.if_rx)
          (run_bouncer false
            (some (pos 0))
            (stat_of 200)
            (round 500_000 ∷ round 1_000_000 ∷ round 1_100_000 ∷ [])
            fresh).1
        ≡ 800 ∷ [])
unfolding set_up run_bouncer create ◌+ℤ◌ ◌*ℤ◌ set_interface sub64
tests = (refl, refl, refl, refl)
