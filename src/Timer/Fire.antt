-- ===== src/Timer/Fire.antt =====
-- ext/asyncengine/ae_timer.c, _uv_timer_callback: libuv's timer has run out.
use async_engine.Base.{ℕ}
use async_engine.Ruby.{Value}
use async_engine.World.Monad.{M, ◌>>=◌, Env, handle_data}
use async_engine.Release.{ae_take_gvl_and_run_with_error_handler}
use async_engine.Timer.{ae_timer_callback}

module _ (env : Env) where
  unfoldable pub uv_timer_callback : ℕ → M Value
  uv_timer_callback handle = do
    self ← handle_data handle
    ae_take_gvl_and_run_with_error_handler env (ae_timer_callback env self)
