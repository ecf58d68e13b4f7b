-- ===== src/Timer/Close.antt =====
-- ext/asyncengine/ae_timer.c: what closing a timer does, that it does it once, and when a timer that
-- fires is closed.
use async_engine.Timer.{timer_close, ae_timer_callback, timer_destroy, timer_is_alive, timer_pause}
use async_engine.World.Monad.{Env, ok, ◌>>=◌}
use async_engine.World.{Event, Object, Timer, World}
use async_engine.HandleCommon.{ae_proc_call_0}
use async_engine.Base.{arith, if◌then◌else◌, none, some, ℕ, ◌∷◌, ◌≡◌}
use async_engine.Base.Assoc.{erase, lookup, lookup-erase, update}
use async_engine.Ruby.{qfalse, qtrue}

-- The state after the handle `p` of the timer `self` is closed.
abbrev pub closed_world : ℕ → Timer → ℕ → World → World
closed_world self cdata p w = record w {
  objects = update w.objects self (Object.timer (record cdata { uv_handle = none }));
  handles = erase cdata.ae_handle_id w.handles;
  trace = Event.close p ∷ w.trace;
}

module _ (env : Env) (self : ℕ) (cdata : Timer) (p : ℕ) (w : World) where
  -- Closing an open timer returns true, gives its handle to libuv, forgets it and takes the timer
  -- out of AE_handles. From then on close, destroy, pause and alive? return false and change nothing.
  pub timer_close_once :
      w.objects self ≡ Object.timer cdata
      → cdata.uv_handle ≡ some p
      → let v = closed_world self cdata p w in
        (timer_close env self w ≡ ok qtrue v)
        × (lookup cdata.ae_handle_id v.handles ≡ none)
        × (timer_close env self v ≡ ok qfalse v)
        × (timer_destroy env self v ≡ ok qfalse v)
        × (timer_pause env self v ≡ ok qfalse v)
        × (timer_is_alive env self v ≡ ok qfalse v)
  unfolding timer_close timer_destroy timer_pause timer_is_alive ◌>>=◌
  timer_close_once here held = (
    ground arith,
    ground (arith, lookup-erase cdata.ae_handle_id cdata.ae_handle_id w.handles),
    ground arith,
    ground arith,
    ground arith,
    ground arith,
  )

  -- A timer that fires once is closed before its proc runs, so the proc finds it dead; a periodic
  -- timer is left as it is.
  pub ae_timer_callback_order :
      w.objects self ≡ Object.timer cdata
      → cdata.uv_handle ≡ some p
      → ae_timer_callback env self w
        ≡ ae_proc_call_0 env cdata.on_fire_proc
            (if cdata.periodic then w else closed_world self cdata p w)
  unfolding ae_timer_callback ◌>>=◌
  ae_timer_callback_order here held = ground arith
