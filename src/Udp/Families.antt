-- ===== src/Udp/Families.antt =====
-- ext/asyncengine/ae_udp.c: the calls of libuv for the two families of addresses.
use async_engine.Base.{Bool, false, true, List, ℕ}
use async_engine.World.{Event}
use async_engine.Ruby.{IpType, ipv4, ipv6}

abbrev pub is_family : IpType → Bool
is_family ipv4 = true
is_family ipv6 = true
is_family _ = false

abbrev pub bind_event : IpType → ℕ → List ℕ → ℕ → Event
bind_event ipv6 p ip port = Event.udp_bind6 p ip port
bind_event _ p ip port = Event.udp_bind p ip port

abbrev pub send_event : IpType → ℕ → ℕ → List ℕ → List ℕ → ℕ → Event
send_event ipv6 r p bytes ip port = Event.udp_send6 r p bytes ip port
send_event _ r p bytes ip port = Event.udp_send r p bytes ip port
