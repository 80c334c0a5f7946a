-- ===== src/Resolve.antt =====
-- `getSockAddr` of src/UDPEchoBouncer.cpp, and its copy in src/UDPEchoSenderThread.cpp. The
-- resolver of ppl7 is an argument: the IP addresses that it finds for a host name.
use udppingpong.Base.{List, [], ◌∷◌}
use udppingpong.Base.Int.{ℤ}
use udppingpong.Exception.{Result, ok, throw, host_not_found, resolver_exception}

module _ {Ip A : Type 0} (sock_addr : Ip → ℤ → A) where
  -- A name must stand for one address.
  unfoldable pub get_sock_addr : List Ip → ℤ → Result A
  get_sock_addr [] port = throw host_not_found
  get_sock_addr (ip ∷ []) port = ok (sock_addr ip port)
  get_sock_addr (ip ∷ other ∷ ips) port = throw resolver_exception
