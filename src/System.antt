-- ===== src/System.antt =====
-- The extension as a whole, from the functions of ext/asyncengine that Ruby and libuv call: what may
-- happen to it, in the order in which it happens.
pub mod Calls
pub mod Invariant
use async_engine.System.Calls.{Call}
use async_engine.World.Monad.{Env, M, Run, ok, raised}
use async_engine.Ruby.{Exn, Value}
use async_engine.Engine.{UvEvent, dispatch, finish_engine, start_engine}
use async_engine.World.{World}
use async_engine.CallFromOtherThread.{ae_call_from_other_thread}
use async_engine.NextTick.{ae_next_tick}
use async_engine.Engine.Status.{ae_release_loop_method}
use async_engine.Handles.{closes, main_pointer, without}
use async_engine.Base.{List, some, ℕ, ◌<◌, ◌≡◌, ◌⊎◌}
use async_engine.Base.Int.{ℤ, negsuc}
use async_engine.Dns.{dns_resolve}
use async_engine.Timer.{
  periodic_timer_new, periodic_timer_restart, timer_close, timer_new, timer_pause, timer_restart,
}
use async_engine.Tcp.{tcp_close, tcp_new}
use async_engine.Tcp.Methods.{
  tcp_close_gracefully, tcp_local_address, tcp_peer_address, tcp_send_data, tcp_set_connect_timeout,
}
use async_engine.Udp.{
  udp_close, udp_local_address, udp_new, udp_pause, udp_resume, udp_set_encoding,
}
use async_engine.Udp.Send.{udp_send_datagram}

-- A call that returns, or raises, in a state.
pub data Outcome {A : Type 0} : Run A → World → Type 0 where
  returns : (a : A) (v : World) → Outcome (ok a v) v
  raises : (e : Exn) (v : World) → Outcome (raised e v) v

-- What libuv promises of the handle of an event: the end of a connection attempt is for the handle of
-- the socket behind it, or for one that was closed; a stream that is at its end, with -1, is the handle
-- of the socket behind it.
abbrev pub IsExpected : World → UvEvent → Type 0
IsExpected w (UvEvent.tcp_connects handle req status) =
    (self : ℕ)
    → w.uv_data handle ≡ some self
    → (0 < closes handle w.trace) ⊎ (main_pointer (w.objects self) ≡ some handle)
IsExpected w (UvEvent.tcp_reads handle nread base bytes) =
    nread ≡ negsuc 0
    → (self : ℕ) → w.uv_data handle ≡ some self
    → main_pointer (w.objects self) ≡ some handle
IsExpected w _ = Unit {0}

module _ (env : Env) (uv_eof uv_etimedout : ℤ) where
  unfoldable pub call : Call → M Value
  call (Call.call_timer_new argv block) = timer_new env argv block
  call (Call.call_periodic_timer_new argv block) = periodic_timer_new env argv block
  call (Call.call_timer_pause self) = timer_pause env self
  call (Call.call_timer_close self) = timer_close env self
  call (Call.call_timer_restart self argv) = timer_restart env self argv
  call (Call.call_periodic_timer_restart self argv) = periodic_timer_restart env self argv
  call (Call.call_udp_new argv) = udp_new env argv
  call (Call.call_udp_send_datagram self argv block) = udp_send_datagram env self argv block
  call (Call.call_tcp_send_data self argv block) = tcp_send_data env self argv block
  call (Call.call_udp_local_address self) = udp_local_address env self
  call (Call.call_udp_pause self) = udp_pause self
  call (Call.call_udp_resume self) = udp_resume self
  call (Call.call_udp_close self) = udp_close env self
  call (Call.call_udp_set_encoding encoding self) = udp_set_encoding encoding self
  call (Call.call_tcp_local_address self) = tcp_local_address env self
  call (Call.call_tcp_peer_address self) = tcp_peer_address env self
  call (Call.call_tcp_close self) = tcp_close env self
  call (Call.call_tcp_set_connect_timeout self v) = tcp_set_connect_timeout env self v
  call (Call.call_tcp_close_gracefully self argv) = tcp_close_gracefully env self argv
  call (Call.call_next_tick argv block) = ae_next_tick env argv block
  call (Call.call_call_from_other_thread argv block) = ae_call_from_other_thread env argv block
  call (Call.call_dns_resolve argv block) = dns_resolve env argv block
  call Call.call_release_loop = ae_release_loop_method env

  -- A TCPSocket.new that raises has not given its object to anyone: it is collected, and its free
  -- function only frees the cdata.
  pub data Step : World → World → Type 0 where
    tcp_made :
        {w v : World} (argv : List Value) (a : Value) → tcp_new env argv w ≡ ok a v → Step w v
    tcp_refused :
        {w v : World} (argv : List Value) (e : Exn)
        → tcp_new env argv w ≡ raised e v
        → Step w (without w.next_object v)
    calls : {w v : World} (c : Call) → Outcome (call c w) v → Step w v
    delivers :
        {w v : World} (e : UvEvent)
        → IsExpected w e
        → Outcome (dispatch env uv_eof uv_etimedout e w) v
        → Step w v
    starts :
        {w v : World} (thread pid : ℕ) (callee : Value)
        → Outcome (start_engine env uv_eof uv_etimedout thread pid callee w) v
        → Step w v
    finishes : {w v : World} → Outcome (finish_engine env uv_eof uv_etimedout w) v → Step w v

  -- Any number of steps.
  pub data Reach : World → World → Type 0 where
    here : {w : World} → Reach w w
    after : {w u v : World} → Reach w u → Step u v → Reach w v
