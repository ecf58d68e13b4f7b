-- ===== src/System/Invariant.antt =====
-- The extension as a whole: no handle is closed twice, in any order of calls and events.
use async_engine.System.Calls.{Call}
use async_engine.World.Monad.{Callback, Env, Run}
use async_engine.World.Keeps.{Ends, Keeps-bind, Keeps-pure}
use async_engine.System.{IsExpected, Outcome, Reach, Step, call, raises, returns}
use async_engine.Handles.{IsSafe, without}
use async_engine.Tcp.SafeConnect.{ReportsClosing}
use async_engine.Handles.Actions.{Safe}
use async_engine.Engine.{UvEvent, dispatch}
use async_engine.World.{World}
use async_engine.Engine.SafeMethods.{
  ae_call_from_other_thread-Safe, ae_next_tick-Safe, close_callback-Safe, dns_resolve-Safe,
  finish_engine-Safe, start_engine-Safe,
}
use async_engine.Release.Safe.{ae_release_loop-Safe}
use async_engine.Engine.Status.{ae_release_loop_method}
use async_engine.Engine.SafeCallbacks.{
  ae_ubf_uv_async_callback-Safe, uv_async_callback-Safe, uv_getaddrinfo_callback-Safe,
  uv_idle_callback-Safe, uv_timer_callback-Safe,
}
use async_engine.Base.{subst}
use async_engine.Timer.Safe.{periodic_timer_new-Safe, timer_close-Safe, timer_new-Safe}
use async_engine.Timer.SafeMethods.{
  periodic_timer_restart-Safe, timer_pause-Safe, timer_restart-Safe,
}
use async_engine.Tcp.SafeClose.{tcp_close-Safe}
use async_engine.Tcp.SafeMethods.{
  tcp_close_gracefully-Safe, tcp_local_address-Safe, tcp_peer_address-Safe, tcp_send_data-Safe,
  tcp_set_connect_timeout-Safe,
}
use async_engine.Tcp.SafeNew.{tcp_new-IsSafe}
use async_engine.Udp.SafeMethods.{
  udp_close-Safe, udp_local_address-Safe, udp_pause-Safe, udp_resume-Safe, udp_send_datagram-Safe,
  udp_set_encoding-Safe,
}
use async_engine.Udp.Safe.{udp_new-Safe}
use async_engine.Tcp.SafeCallbacks.{uv_connect_callback-Safe, uv_write_callback-Safe}
use async_engine.Tcp.SafeRead.{
  uv_read_callback-Safe, uv_shutdown_callback-Safe, uv_timer_connect_timeout_callback-Safe,
}
use async_engine.Udp.SafeCallbacks.{uv_recv_callback-Safe, uv_send_callback-Safe}
use async_engine.Base.Int.{ℤ}

-- What the invariant takes for granted: Ruby code keeps the handles safe, and uv_is_closing tells of a
-- closed handle.
record Assumptions (env : Env) : Type 0 where
  pub ruby : (c : Callback) → Safe (env.ruby c)
  pub closing : ReportsClosing env

outcome-IsSafe :
    {A : Type 0} (r : Run A) (v : World) → Ends Unit IsSafe IsSafe r → Outcome r v → IsSafe v
outcome-IsSafe r v s (returns a _) = s
outcome-IsSafe r v s (raises e _) = s

module _ (env : Env) (uv_eof uv_etimedout : ℤ) (given : Assumptions env) where
  call-Safe : (c : Call) → Safe (call env uv_eof uv_etimedout c)
  unfolding call ae_release_loop_method
  call-Safe (Call.call_timer_new argv block) = timer_new-Safe env argv block
  call-Safe (Call.call_periodic_timer_new argv block) = periodic_timer_new-Safe env argv block
  call-Safe (Call.call_timer_pause self) = timer_pause-Safe env self
  call-Safe (Call.call_timer_close self) = timer_close-Safe env self
  call-Safe (Call.call_timer_restart self argv) = timer_restart-Safe env self argv
  call-Safe (Call.call_periodic_timer_restart self argv) = periodic_timer_restart-Safe env self argv
  call-Safe (Call.call_udp_new argv) = udp_new-Safe env argv
  call-Safe (Call.call_udp_send_datagram self argv block) =
      udp_send_datagram-Safe env self argv block
  call-Safe (Call.call_tcp_send_data self argv block) = tcp_send_data-Safe env self argv block
  call-Safe (Call.call_udp_local_address self) = udp_local_address-Safe env self
  call-Safe (Call.call_udp_pause self) = udp_pause-Safe self
  call-Safe (Call.call_udp_resume self) = udp_resume-Safe self
  call-Safe (Call.call_udp_close self) = udp_close-Safe env self
  call-Safe (Call.call_udp_set_encoding encoding self) = udp_set_encoding-Safe encoding self
  call-Safe (Call.call_tcp_local_address self) = tcp_local_address-Safe env self
  call-Safe (Call.call_tcp_peer_address self) = tcp_peer_address-Safe env self
  call-Safe (Call.call_tcp_close self) = tcp_close-Safe env given.ruby self
  call-Safe (Call.call_tcp_set_connect_timeout self v) = tcp_set_connect_timeout-Safe env self v
  call-Safe (Call.call_tcp_close_gracefully self argv) = tcp_close_gracefully-Safe env self argv
  call-Safe (Call.call_next_tick argv block) = ae_next_tick-Safe env argv block
  call-Safe (Call.call_call_from_other_thread argv block) =
      ae_call_from_other_thread-Safe env argv block
  call-Safe (Call.call_dns_resolve argv block) = dns_resolve-Safe env argv block
  call-Safe Call.call_release_loop =
      Keeps-bind _ _ (ae_release_loop-Safe env given.ruby) λ _. Keeps-pure _

  dispatch-IsSafe :
      (e : UvEvent) (w : World)
      → IsExpected w e
      → IsSafe w
      → Ends Unit IsSafe IsSafe (dispatch env uv_eof uv_etimedout e w)
  unfolding dispatch
  dispatch-IsSafe (UvEvent.idle_fires handle) w x s =
      (uv_idle_callback-Safe env given.ruby handle).at w s
  dispatch-IsSafe (UvEvent.timer_fires handle) w x s =
      (uv_timer_callback-Safe env given.ruby handle).at w s
  dispatch-IsSafe (UvEvent.connect_timeout_fires handle) w x s =
      (Keeps-bind _ _
          (uv_timer_connect_timeout_callback-Safe env uv_eof uv_etimedout given.ruby handle)
          λ _. Keeps-pure _).at
        w s
  dispatch-IsSafe (UvEvent.closed handle) w x s =
      (Keeps-bind _ _ (close_callback-Safe handle) λ _. Keeps-pure _).at w s
  dispatch-IsSafe UvEvent.async_fires w x s = (uv_async_callback-Safe env given.ruby).at w s
  dispatch-IsSafe UvEvent.ubf_fires w x s = (ae_ubf_uv_async_callback-Safe env given.ruby).at w s
  dispatch-IsSafe (UvEvent.received handle nread buffer addr) w x s =
      (uv_recv_callback-Safe env given.ruby handle nread buffer addr).at w s
  dispatch-IsSafe (UvEvent.sent req status) w x s =
      (uv_send_callback-Safe env given.ruby req status).at w s
  dispatch-IsSafe (UvEvent.tcp_connects handle req status) w x s =
      uv_connect_callback-Safe env uv_eof uv_etimedout given.ruby given.closing handle req status w
        s (λ self e. record { safe = s; link = x self e })
  dispatch-IsSafe (UvEvent.tcp_reads handle nread base bytes) w x s =
      uv_read_callback-Safe env uv_eof uv_etimedout given.ruby handle nread base bytes w s x
  dispatch-IsSafe (UvEvent.tcp_writes handle req status) w x s =
      (uv_write_callback-Safe env uv_eof uv_etimedout given.ruby handle req status).at w s
  dispatch-IsSafe (UvEvent.tcp_shuts_down handle req status) w x s =
      (uv_shutdown_callback-Safe env uv_eof uv_etimedout given.ruby handle req status).at w s
  dispatch-IsSafe (UvEvent.resolved handle status res infos) w x s =
      (uv_getaddrinfo_callback-Safe env given.ruby handle status res infos).at w s

  step-IsSafe : {w v : World} → Step env uv_eof uv_etimedout w v → IsSafe w → IsSafe v
  step-IsSafe {w} {v} (Step.tcp_made argv a e) s =
      subst (Ends Unit (λ v. IsSafe (without w.next_object v)) IsSafe) e
        (tcp_new-IsSafe env argv w s)
  step-IsSafe {w} (Step.tcp_refused argv x e) s =
      subst (Ends Unit (λ v. IsSafe (without w.next_object v)) IsSafe) e
        (tcp_new-IsSafe env argv w s)
  step-IsSafe {w} {v} (Step.calls c o) s = outcome-IsSafe _ v ((call-Safe c).at w s) o
  step-IsSafe {w} {v} (Step.delivers e x o) s = outcome-IsSafe _ v (dispatch-IsSafe e w x s) o
  step-IsSafe {w} {v} (Step.starts thread pid callee o) s =
      outcome-IsSafe _ v ((start_engine-Safe env uv_eof uv_etimedout thread pid callee).at w s) o
  step-IsSafe {w} {v} (Step.finishes o) s =
      outcome-IsSafe _ v ((finish_engine-Safe env uv_eof uv_etimedout given.ruby).at w s) o

  reach-IsSafe : (w v : World) → Reach env uv_eof uv_etimedout w v → IsSafe w → IsSafe v
  reach-IsSafe w v Reach.here s = s
  reach-IsSafe w v (Reach.after r step) s = step-IsSafe step (reach-IsSafe _ _ r s)

-- No handle of libuv is closed twice, and no pointer to a closed handle is kept: from a state in which
-- this holds and no two pointers hold the same handle, every sequence of the calls from Ruby, of the
-- events of libuv, and of starts and ends of AE.run, leads to such a state. The conditions are that Ruby
-- code keeps such states, that uv_is_closing is not zero for a closed handle, and, in each step, that the
-- end of a connection attempt is for the handle of the socket behind it or for a closed one, and that the
-- end of a stream (nread -1) is for the handle of the socket behind it. The object of a TCPSocket.new that
-- raises is collected, and TCPSocket.allocate is not called.
pub Reach-IsSafe :
    (env : Env) (uv_eof uv_etimedout : ℤ) (ruby : (c : Callback) → Safe (env.ruby c))
    (closing : ReportsClosing env) (w v : World)
    → Reach env uv_eof uv_etimedout w v
    → IsSafe w
    → IsSafe v
Reach-IsSafe env uv_eof uv_etimedout ruby closing w v r s =
    reach-IsSafe env uv_eof uv_etimedout (record { ruby = ruby; closing = closing }) w v r s
