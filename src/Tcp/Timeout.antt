-- ===== src/Tcp/Timeout.antt =====
-- ext/asyncengine/ae_tcp.c: the timeout of a connection.
use async_engine.World.Monad.{Env, invoke, ok, ◌>>=◌}
use async_engine.World.{Event, Object, Tcp, World}
use async_engine.Ruby.{Method, object}
use async_engine.Base.{[], some, true, ℕ, ◌∷◌, ◌≡◌, arith, none, refl}
use async_engine.Tcp.Callbacks.{ae_connect_callback, uv_timer_connect_timeout_callback}
use async_engine.HandleCommon.{ae_get_uv_error}
use async_engine.Tcp.Close.{dead}
use async_engine.Base.Assoc.{erase, update}
use async_engine.Base.Int.{nonzero, ℤ}

-- The state after the timer `t` of the connection and the handle `p` of the socket are closed.
abbrev timed_out : ℕ → Tcp → ℕ → ℕ → World → World
timed_out self cdata p t w =
    let cancelled = record cdata { timer_connect_timeout = none } in
    let flagged = record cancelled { flags = record cdata.flags { connect_timeout = true } } in
    record w {
      objects =
          update (update (update w.objects self (Object.tcp cancelled)) self (Object.tcp flagged))
            self (Object.tcp (record flagged { uv_handle = none }));
      trace = Event.close p ∷ Event.close t ∷ w.trace;
    }

module _ (env : Env) (uv_eof uv_etimedout : ℤ) (handle self p t : ℕ) (cdata : Tcp) (w : World) where
  -- When the timer of a connection fires, the timer and the socket's handle are closed, each once, and
  -- the connect callback, which libuv then calls with an error, takes the socket out of AE_handles and
  -- reports UV_ETIMEDOUT to on_connection_error, whatever the last error of libuv is.
  pub uv_timer_connect_timeout_callback_lem :
      (status : ℤ)
      → w.uv_data handle ≡ some self
      → w.objects self ≡ Object.tcp cdata
      → cdata.uv_handle ≡ some p
      → cdata.timer_connect_timeout ≡ some t
      → nonzero status ≡ true
      → (v : World) × (uv_timer_connect_timeout_callback env uv_eof uv_etimedout handle w ≡ ok tt v)
        × (dead (v.objects self) ≡ true)
        × (v.trace ≡ Event.close p ∷ Event.close t ∷ w.trace)
        × (ae_connect_callback env uv_eof uv_etimedout self status v
            ≡ (ae_get_uv_error env uv_etimedout >>= λ e.
                  env.ruby (invoke (object cdata.ae_handle) Method.on_connection_error (e ∷ [])))
                (record v { handles = erase cdata.ae_handle_id w.handles }))
  unfolding uv_timer_connect_timeout_callback ae_connect_callback ◌>>=◌
  uv_timer_connect_timeout_callback_lem status data' here held timed failed =
      (timed_out self cdata p t w, ground arith, ground arith, refl, ground arith)
