-- ===== src/Loop.antt =====
-- The callbacks of the loop's own handles: _uv_idle_callback of ext/asyncengine/ae_next_tick.c,
-- _uv_async_callback of ext/asyncengine/ae_call_from_other_thread.c, and ae_ubf of
-- ext/asyncengine/asyncengine_ruby.c.
pub mod Turn
use async_engine.Base.{ℕ, not, List, [], ◌∷◌, Option, none, some, if◌then◌else◌}
use async_engine.Base.Int.{nonzero}
use async_engine.Ruby.{Value, qnil, Method}
use async_engine.World.{Event}
use async_engine.World.Monad.{M, crash, pure, assert, get, modify, ◌>>=◌, ◌>>◌, invoke, Env, uv}
use async_engine.HandleCommon.{ae_proc_call_0}
use async_engine.Release.{
  is_running, ae_run_with_error_handler, ae_take_gvl_and_run_with_error_handler,
}

module _ (env : Env) where
  -- The loop over `procs`: it stops where a proc has released the engine.
  unfoldable pub run_procs : List Value → M (Unit {0})
  run_procs [] = pure tt
  run_procs (callee ∷ rest) = do
    w ← get
    if not (is_running w.status)
        then pure tt
        else do ae_run_with_error_handler env (ae_proc_call_0 env callee); run_procs rest

  -- _ae_idle_callback.
  unfoldable pub ae_idle_callback : M Value
  unfolding run_procs
  ae_idle_callback = do
    w ← get
    assert (is_running w.status)
    modify (λ w. record w { next_tick_procs = [] })
    run_procs w.next_tick_procs
    pure qnil

  -- _uv_idle_callback.
  unfoldable pub uv_idle_callback : ℕ → M Value
  unfolding ae_idle_callback
  uv_idle_callback handle = do
    uv env (Event.idle_stop handle)
    ae_take_gvl_and_run_with_error_handler env ae_idle_callback

  -- _ae_async_callback.
  unfoldable pub ae_async_callback : M Value
  unfolding run_procs
  ae_async_callback = do
    w ← get
    assert (is_running w.status)
    modify (λ w. record w { call_from_other_thread_procs = [] })
    run_procs w.call_from_other_thread_procs
    pure qnil

  -- _uv_async_callback.
  unfoldable pub uv_async_callback : M Value
  unfolding ae_async_callback
  uv_async_callback = ae_take_gvl_and_run_with_error_handler env ae_async_callback

  send_ubf : Option ℕ → M (Unit {0})
  send_ubf none = λ w. crash
  send_ubf (some async) = do r ← uv env (Event.async_send async); assert (not (nonzero r))

  -- ae_ubf.
  unfoldable pub ae_ubf : M (Unit {0})
  unfolding send_ubf
  ae_ubf = do w ← get; if not (is_running w.status) then pure tt else send_ubf w.ubf_uv_async

  -- ae_ubf_uv_async_callback; rb_thread_check_ints runs what other threads and signals left.
  unfoldable pub ae_ubf_uv_async_callback : M Value
  ae_ubf_uv_async_callback = do
    w ← get
    if not (is_running w.status)
        then pure qnil
        else ae_take_gvl_and_run_with_error_handler env
            (env.ruby (invoke qnil Method.check_ints []))
