-- ===== src/Engine/Status.antt =====
-- The short methods of ext/asyncengine/asyncengine_ruby.c, and AE.stop, AE.on_error and AE.on_exit of
-- lib/asyncengine.rb.
use async_engine.Base.{Bool, [], if◌then◌else◌, not, some, ℕ, ◌++◌, ◌∷◌}
use async_engine.World.Monad.{Env, M, get, modify, pure, raise, uv, ◌>>=◌, ◌>>◌}
use async_engine.World.{Event}
use async_engine.Ruby.{Value, arg_error, fixnum, qfalse, qnil, qtrue}
use async_engine.CallFromOtherThread.{ae_call_from_other_thread}
use async_engine.HandleCommon.{ae_check_status}
use async_engine.NextTick.{ae_next_tick}
use async_engine.Release.{ae_release_loop, is_running, is_stopped}
use async_engine.Arguments.{is_proc}
use async_engine.IpUtils.{is_true, to_rb}
use async_engine.Base.Int.{pos, ℤ}
use async_engine.Engine.{same_thread}

-- AE.running?.
unfoldable pub ae_running : M Value
ae_running = do w ← get; pure (to_rb (is_running w.status))

-- ae_is_running_thread.
unfoldable pub ae_is_running_thread : ℕ → M Bool
unfolding same_thread
ae_is_running_thread current = do w ← get; pure (same_thread current w.thread)

-- AE.running_thread?.
unfoldable pub ae_running_thread : ℕ → M Value
unfolding ae_is_running_thread
ae_running_thread current = do r ← ae_is_running_thread current; pure (to_rb r)

-- AE.check_status.
unfoldable pub ae_check_status_method : M Value
unfolding ae_check_status
ae_check_status_method = ae_check_status (pure qtrue)

-- AE.on_error and AE.unset_on_error.
unfoldable pub ae_on_error : Value → M Value
ae_on_error block =
    if not (is_proc block)
    then raise (arg_error "no block given")
    else (do modify (λ w. record w { user_error_handler = block }); pure block)

unfoldable pub ae_unset_on_error : M Value
ae_unset_on_error = do modify (λ w. record w { user_error_handler = qnil }); pure qnil

-- AE.on_exit and AE.unset_on_exit.
unfoldable pub ae_on_exit : Value → M (Unit {0})
ae_on_exit block =
    if not (is_proc block)
    then raise (arg_error "no block given")
    else modify (λ w. record w { on_exit_procs = w.on_exit_procs ++ block ∷ [] })

unfoldable pub ae_unset_on_exit : M (Unit {0})
ae_unset_on_exit = modify (λ w. record w { on_exit_procs = [] })

module _ (env : Env) where
  -- ae_uv_num_active_handlers.
  unfoldable pub ae_uv_num_active_handlers : M ℤ
  ae_uv_num_active_handlers = do
    w ← get
    if is_stopped w.status then pure (pos 0) else uv env Event.active_handles

  -- AE.num_uv_active_handles.
  unfoldable pub ae_num_uv_active_handles : M Value
  unfolding ae_uv_num_active_handlers
  ae_num_uv_active_handles = do n ← ae_uv_num_active_handlers; pure (fixnum n)

  -- ae_uv_num_active_reqs.
  unfoldable pub ae_uv_num_active_reqs : M ℤ
  ae_uv_num_active_reqs = do
    w ← get
    if is_stopped w.status then pure (pos 0) else uv env Event.active_reqs

  -- AE.num_uv_active_reqs.
  unfoldable pub ae_num_uv_active_reqs : M Value
  unfolding ae_uv_num_active_reqs
  ae_num_uv_active_reqs = do n ← ae_uv_num_active_reqs; pure (fixnum n)

  -- AE.release_loop.
  unfoldable pub ae_release_loop_method : M Value
  unfolding ae_release_loop
  ae_release_loop_method = do ae_release_loop env; pure qnil

  -- AE.stop; `block` is its block, which calls AE.release_loop.
  unfoldable pub ae_stop : ℕ → Value → M Value
  unfolding ae_check_status_method ae_running_thread
  ae_stop current block = do
    alive ← ae_check_status_method
    if not (is_true alive) then pure qfalse else do
      here ← ae_running_thread current
      if is_true here
          then ae_next_tick env [] (some block)
          else ae_call_from_other_thread env [] (some block)
      pure qtrue
