-- ===== src/Udp/Close.antt =====
-- ext/asyncengine/ae_udp.c: UDPSocket#close, and a socket that is closed.
use async_engine.World.Monad.{Env, ok, ◌>>=◌}
use async_engine.World.{Event, Object, Udp, World}
use async_engine.Ruby.{Value, qfalse, qtrue}
use async_engine.Base.{[], arith, none, some, ℕ, ◌∷◌, ◌≡◌}
use async_engine.Base.Assoc.{erase, lookup, lookup-erase, update}
use async_engine.Udp.{udp_close, udp_destroy, udp_is_alive, udp_pause, udp_resume}
use async_engine.Udp.Send.{udp_send_datagram}

-- The state after the handle `p` of the socket `self` is closed.
abbrev pub closed_udp_world : ℕ → Udp → ℕ → World → World
closed_udp_world self cdata p w = record w {
  objects = update w.objects self (Object.udp (record cdata { uv_handle = none }));
  handles = erase cdata.ae_handle_id w.handles;
  trace = Event.close p ∷ w.trace;
}

module _ (env : Env) (self p : ℕ) (cdata : Udp) (w : World) where
  -- Closing an open socket returns true, gives its handle to libuv, forgets it and takes the socket
  -- out of AE_handles. From then on close, destroy, pause, resume, alive? and a datagram to send, with
  -- any three arguments, return false and change nothing.
  pub udp_close_once :
      w.objects self ≡ Object.udp cdata
      → cdata.uv_handle ≡ some p
      → (x y z : Value)
      → let v = closed_udp_world self cdata p w in
        (udp_close env self w ≡ ok qtrue v)
        × (lookup cdata.ae_handle_id v.handles ≡ none)
        × (udp_close env self v ≡ ok qfalse v)
        × (udp_destroy env self v ≡ ok qfalse v)
        × (udp_pause self v ≡ ok qfalse v)
        × (udp_resume self v ≡ ok qfalse v)
        × (udp_is_alive self v ≡ ok qfalse v)
        × (udp_send_datagram env self (x ∷ y ∷ z ∷ []) none v ≡ ok qfalse v)
  unfolding udp_close udp_destroy udp_pause udp_resume udp_is_alive udp_send_datagram ◌>>=◌
  udp_close_once here held x y z = (
    ground arith,
    ground (arith, lookup-erase cdata.ae_handle_id cdata.ae_handle_id w.handles),
    ground arith,
    ground arith,
    ground arith,
    ground arith,
    ground arith,
    ground arith,
  )
