-- ===== src/Tcp/Graceful.antt =====
-- ext/asyncengine/ae_tcp.c: TCPSocket#close_gracefully.
use async_engine.World.Monad.{Env, ok, ◌>>=◌}
use async_engine.World.{Event, Object, Tcp, World, connected, connecting}
use async_engine.Base.{[], arith, false, some, suc, true, ℕ, ◌∷◌, ◌≡◌}
use async_engine.Tcp.Callbacks.{connect_done}
use async_engine.Base.Int.{nonzero, pos, ℤ}
use async_engine.Ruby.{qfalse, qtrue}
use async_engine.Tcp.Methods.{tcp_close_gracefully}
use async_engine.Base.Assoc.{update}

-- The state after the socket is marked.
abbrev pub graceful_world : ℕ → Tcp → World → World
graceful_world self cdata w = record w {
  objects =
      update w.objects self
        (Object.tcp (record cdata { flags = record cdata.flags { shutdown_requested = true } }));
}

-- The state after a marked socket is connected and shut down.
abbrev pub shut_world : ℕ → ℕ → Tcp → World → World
shut_world handle self cdata w = record w {
  objects = update w.objects self (
      Object.tcp (record cdata {
        status = connected;
        flags = record cdata.flags { shutdown_requested = true };
      }));
  next_pointer = suc w.next_pointer;
  trace = Event.tcp_shutdown w.next_pointer handle ∷ Event.tcp_read_stop handle ∷ w.trace;
}

module _ (env : Env) (uv_eof uv_etimedout : ℤ) (self p : ℕ) (cdata : Tcp) (w : World) where
  -- A socket that still connects is not shut down by #close_gracefully but marked, and a second call
  -- returns false and changes nothing. When the connection is then established, reading is not
  -- started: the socket is shut down at once, if libuv accepts both calls, and is connected.
  pub tcp_close_gracefully_connecting :
      (handle : ℕ)
      → w.objects self ≡ Object.tcp cdata
      → cdata.uv_handle ≡ some p
      → cdata.status ≡ connecting
      → cdata.flags.shutdown_requested ≡ false
      → nonzero (env.uv w.trace (Event.tcp_read_stop p)) ≡ false
      → nonzero (env.uv (Event.tcp_read_stop p ∷ w.trace) (Event.tcp_shutdown w.next_pointer p))
        ≡ false
      → let v = graceful_world self cdata w in
        (tcp_close_gracefully env self [] w ≡ ok qtrue v)
        × (tcp_close_gracefully env self [] v ≡ ok qfalse v)
        × (connect_done env uv_eof uv_etimedout handle self (pos 0) v
            ≡ ok tt (shut_world p self cdata v))
  unfolding tcp_close_gracefully connect_done nonzero ◌>>=◌
  tcp_close_gracefully_connecting handle here held early once stops shuts =
      (ground arith, ground arith, ground arith)
