-- ===== src/Tcp/Close.antt =====
-- ext/asyncengine/ae_tcp.c: TCPSocket#close, and the timer of a connection.
use async_engine.Base.{
  Bool, List, Option, Option-cases, [], arith, false, if◌then◌else◌, inl, inr, is_some, none, not,
  refl, some, true, ℕ, ◌&&◌, ◌∷◌, ◌≡◌,
}
use async_engine.World.Monad.{Env, invoke, ok, pure, ◌>>=◌}
use async_engine.World.{Event, Object, Tcp, World}
use async_engine.Ruby.{Method, object, qnil, qtrue}
use async_engine.Base.Assoc.{erase, update}
use async_engine.Tcp.{is_connected, tcp_close}

-- The state after the handle `p` of the socket `self`, and the timer of its connection if there is
-- one, are closed.
abbrev pub timer_closed : Option ℕ → List Event → List Event
timer_closed none t = t
timer_closed (some q) t = Event.close q ∷ t

abbrev pub without_handles : Tcp → Tcp
without_handles cdata = record cdata { uv_handle = none; timer_connect_timeout = none }

abbrev pub dead : Object → Bool
dead (Object.tcp cdata) = not (is_some cdata.uv_handle) && not (is_some cdata.timer_connect_timeout)
dead _ = false

module _ (env : Env) (self : ℕ) (cdata : Tcp) (p : ℕ) (w : World) where
  -- Closing an open socket closes its handle and the timer of its connection, each once, and leaves
  -- it with neither. A connected socket is then taken out of AE_handles, and on_disconnected is
  -- called with nil; a socket that still connects is left to its connect callback.
  pub tcp_close_lem :
      w.objects self ≡ Object.tcp cdata
      → cdata.uv_handle ≡ some p
      → (v : World) × (dead (v.objects self) ≡ true)
        × (v.trace ≡ timer_closed cdata.timer_connect_timeout (Event.close p ∷ w.trace))
        × (v.handles ≡ w.handles)
        × (tcp_close env self w ≡ (
            if is_connected cdata.status
            then (env.ruby (invoke (object cdata.ae_handle) Method.on_disconnected (qnil ∷ []))
                  >>= λ _. pure qtrue)
                (record v { handles = erase cdata.ae_handle_id w.handles })
            else ok qtrue v))
  unfolding tcp_close ◌>>=◌
  tcp_close_lem here held = elim (Option-cases cdata.timer_connect_timeout) [
    | inl n ↦ (
      (record w {
        objects = update w.objects self (Object.tcp (record cdata { uv_handle = none }));
        trace = Event.close p ∷ w.trace;
      }),
      ground arith,
      ground arith,
      refl,
      ground arith,
    )
    | inr (q, n) ↦ (
      (record w {
        objects =
            update (update w.objects self (Object.tcp (record cdata { uv_handle = none }))) self
              (Object.tcp (without_handles cdata));
        trace = Event.close q ∷ Event.close p ∷ w.trace;
      }),
      ground arith,
      ground arith,
      refl,
      ground arith,
    )
  ]
