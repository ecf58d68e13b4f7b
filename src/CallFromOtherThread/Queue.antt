-- ===== src/CallFromOtherThread/Queue.antt =====
-- ext/asyncengine/ae_call_from_other_thread.c: AE.call_from_other_thread by the status of the engine.
use async_engine.World.Monad.{Env, crash, ok, raised, ◌>>=◌}
use async_engine.World.{Event, World, releasing, running, stopped}
use async_engine.Ruby.{Value, not_running_error, qfalse, qtrue}
use async_engine.Base.{[], arith, false, if◌then◌else◌, some, ℕ, ◌++◌, ◌∷◌, ◌≡◌}
use async_engine.CallFromOtherThread.{ae_call_from_other_thread}
use async_engine.Arguments.{is_nil}
use async_engine.Base.Int.{nonzero}

module _ (env : Env) (callee : Value) (w : World) where
  -- A callee that is not nil is queued at the end and the loop is woken by uv_async_send, while the
  -- engine runs; if libuv refuses the wake, the process ends. While the engine releases, false is
  -- returned and nothing changes; in a stopped engine NotRunningError is raised.
  pub ae_call_from_other_thread_lem :
      (async : ℕ)
      → is_nil callee ≡ false
      → w.call_from_other_thread_uv_async ≡ some async
      → ae_call_from_other_thread env [] (some callee) w ≡ (elim w.status [
        | running ↦
            if nonzero (env.uv w.trace (Event.async_send async))
            then crash
            else ok qtrue (record w {
              call_from_other_thread_procs = w.call_from_other_thread_procs ++ callee ∷ [];
              trace = Event.async_send async ∷ w.trace;
            })
        | releasing ↦ ok qfalse w
        | stopped ↦ raised (not_running_error "AsyncEngine is not running") w
      ])
  unfolding ae_call_from_other_thread ◌>>=◌
  ae_call_from_other_thread_lem async given loaded = ground arith
