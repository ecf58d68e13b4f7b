-- ===== src/System/Calls.antt =====
-- The calls from Ruby that change the state: methods of ext/asyncengine/ae_timer.c, ae_udp.c, ae_tcp.c,
-- ae_next_tick.c, ae_call_from_other_thread.c, ae_dns.c and asyncengine_ruby.c, with self and the
-- arguments. TCPSocket.new is a step of its own.
use async_engine.Base.{List, Option, ℕ}
use async_engine.Ruby.{StringEncoding, Value}

pub data Call : Type 0 where
  call_timer_new call_periodic_timer_new : List Value → Option Value → Call
  call_timer_pause call_timer_close : ℕ → Call
  call_timer_restart call_periodic_timer_restart : ℕ → List Value → Call
  call_udp_new : List Value → Call
  call_udp_send_datagram call_tcp_send_data : ℕ → List Value → Option Value → Call
  call_udp_local_address call_udp_pause call_udp_resume call_udp_close : ℕ → Call
  call_udp_set_encoding : StringEncoding → ℕ → Call
  call_tcp_local_address call_tcp_peer_address call_tcp_close : ℕ → Call
  call_tcp_set_connect_timeout : ℕ → Value → Call
  call_tcp_close_gracefully : ℕ → List Value → Call
  call_next_tick call_call_from_other_thread call_dns_resolve : List Value → Option Value → Call
  call_release_loop : Call
