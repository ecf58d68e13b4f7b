-- ===== src/NextTick/Queue.antt =====
-- ext/asyncengine/ae_next_tick.c: AE.next_tick by the status of the engine.
use async_engine.World.Monad.{Env, ok, raised, ◌>>=◌}
use async_engine.World.{Event, World, releasing, running, stopped}
use async_engine.Base.{[], arith, if◌then◌else◌, some, ℕ, ◌++◌, ◌∷◌, ◌≡◌, false}
use async_engine.Ruby.{Value, not_running_error, qfalse, qtrue}
use async_engine.NextTick.{ae_next_tick}
use async_engine.Base.Int.{nonzero}
use async_engine.Arguments.{is_nil}

module _ (env : Env) (callee : Value) (w : World) where
  -- A callee that is not nil is queued at the end, behind those that wait already, while the engine runs, and the idle
  -- handle is started if libuv says that it is not active. While the engine releases, false is
  -- returned and nothing changes; in a stopped engine NotRunningError is raised. uv_idle_start is
  -- taken to succeed.
  pub ae_next_tick_lem :
      (idle : ℕ)
      → is_nil callee ≡ false
      → w.next_tick_uv_idle ≡ some idle
      → nonzero (env.uv (Event.is_active idle ∷ w.trace) (Event.idle_start idle)) ≡ false
      → ae_next_tick env [] (some callee) w ≡ (elim w.status [
        | running ↦ ok qtrue (record w {
          next_tick_procs = w.next_tick_procs ++ callee ∷ [];
          trace =
              if nonzero (env.uv w.trace (Event.is_active idle))
              then Event.is_active idle ∷ w.trace
              else (Event.idle_start idle ∷ Event.is_active idle ∷ w.trace);
        })
        | releasing ↦ ok qfalse w
        | stopped ↦ raised (not_running_error "AsyncEngine is not running") w
      ])
  unfolding ae_next_tick ◌>>=◌
  ae_next_tick_lem idle given loaded starts = ground arith
