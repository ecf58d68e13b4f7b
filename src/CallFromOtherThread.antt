-- ===== src/CallFromOtherThread.antt =====
-- ext/asyncengine/ae_call_from_other_thread.c: the procs that other threads hand to the loop. Its
-- callback is in Loop.antt.
pub mod Queue
use async_engine.Base.{ℕ, not, List, [], ◌∷◌, ◌++◌, Option, none, some, is_some}
use async_engine.Base.Int.{nonzero}
use async_engine.Ruby.{Value, qtrue}
use async_engine.Arguments.{check_num_args, ensure_block_or_proc}
use async_engine.World.{Event}
use async_engine.World.Monad.{M, crash, pure, assert, get, modify, ◌>>=◌, ◌>>◌, Env, uv, alloc}
use async_engine.HandleCommon.{ae_check_status, ae_close_uv_handle}

module _ (env : Env) where
  unfoldable pub load_ae_call_from_other_thread : M (Unit {0})
  load_ae_call_from_other_thread = do
    w ← get
    assert (not (is_some w.call_from_other_thread_uv_async))
    async ← alloc
    modify (λ w. record w { call_from_other_thread_uv_async = some async })
    r ← uv env (Event.async_init async)
    assert (not (nonzero r))

  unfoldable pub unload_ae_call_from_other_thread : M (Unit {0})
  unfolding ae_close_uv_handle
  unload_ae_call_from_other_thread = do
    w ← get
    assert (is_some w.call_from_other_thread_uv_async)
    ae_close_uv_handle env w.call_from_other_thread_uv_async
    modify (λ w. record w { call_from_other_thread_uv_async = none })

  -- uv_async_send reads the handle.
  unfoldable pub send_async : Option ℕ → M (Unit {0})
  send_async none = λ w. crash
  send_async (some async) = do r ← uv env (Event.async_send async); assert (not (nonzero r))

  unfoldable pub push_call_from_other_thread : Value → M Value
  unfolding send_async
  push_call_from_other_thread callee = do
    modify (λ w. record w {
      call_from_other_thread_procs = w.call_from_other_thread_procs ++ callee ∷ [];
    })
    w ← get
    send_async w.call_from_other_thread_uv_async
    pure qtrue

  unfoldable pub ae_call_from_other_thread : List Value → Option Value → M Value
  unfolding ae_check_status check_num_args ensure_block_or_proc push_call_from_other_thread
  ae_call_from_other_thread argv block = ae_check_status do
    check_num_args 0 1 argv
    callee ← ensure_block_or_proc 1 argv block
    push_call_from_other_thread callee
