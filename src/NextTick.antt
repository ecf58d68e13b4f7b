-- ===== src/NextTick.antt =====
-- ext/asyncengine/ae_next_tick.c: the procs that wait for the next turn of the loop. Its callback is in
-- Loop.antt.
pub mod Queue
use async_engine.Base.{ℕ, not, List, [], ◌∷◌, ◌++◌, Option, none, some, is_some, if◌then◌else◌}
use async_engine.Base.Int.{nonzero}
use async_engine.Ruby.{Value, qtrue}
use async_engine.Arguments.{check_num_args, ensure_block_or_proc}
use async_engine.World.{Event}
use async_engine.World.Monad.{M, crash, pure, assert, get, modify, ◌>>=◌, ◌>>◌, Env, uv, alloc}
use async_engine.HandleCommon.{ae_check_status, ae_close_uv_handle}

module _ (env : Env) where
  unfoldable pub load_ae_next_tick_uv_idle : M (Unit {0})
  load_ae_next_tick_uv_idle = do
    w ← get
    assert (not (is_some w.next_tick_uv_idle))
    idle ← alloc
    modify (λ w. record w { next_tick_uv_idle = some idle })
    r ← uv env (Event.idle_init idle)
    assert (not (nonzero r))

  unfoldable pub unload_ae_next_tick_uv_idle : M (Unit {0})
  unfolding ae_close_uv_handle
  unload_ae_next_tick_uv_idle = do
    w ← get
    assert (is_some w.next_tick_uv_idle)
    ae_close_uv_handle env w.next_tick_uv_idle
    modify (λ w. record w { next_tick_uv_idle = none })

  -- uv_is_active and uv_idle_start read the handle.
  unfoldable pub start_idle : Option ℕ → M (Unit {0})
  start_idle none = λ w. crash
  start_idle (some idle) = do
    active ← uv env (Event.is_active idle)
    if not (nonzero active)
        then (do r ← uv env (Event.idle_start idle); assert (not (nonzero r)))
        else pure tt

  -- AE.next_tick, once its argument is read.
  unfoldable pub push_next_tick : Value → M Value
  unfolding start_idle
  push_next_tick callee = do
    w ← get
    assert (is_some w.next_tick_uv_idle)
    modify (λ w. record w { next_tick_procs = w.next_tick_procs ++ callee ∷ [] })
    start_idle w.next_tick_uv_idle
    pure qtrue

  unfoldable pub ae_next_tick : List Value → Option Value → M Value
  unfolding ae_check_status check_num_args ensure_block_or_proc push_next_tick
  ae_next_tick argv block =
      ae_check_status do
        check_num_args 0 1 argv
        callee ← ensure_block_or_proc 1 argv block
        push_next_tick callee
