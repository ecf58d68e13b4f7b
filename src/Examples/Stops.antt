-- ===== src/Examples/Stops.antt =====
-- AE.stop at a concrete input: every proc is a block that calls AE.release_loop.
use async_engine.World.Monad.{Callback, Env, invoke, ok, pure, ◌>>=◌}
use async_engine.World.Keeps.{Keeps-pure}
use async_engine.Ruby.{Method, object, qnil, qtrue}
use async_engine.Release.Destroy.{Patient}
use async_engine.Release.Quits.{Releases}
use async_engine.World.{World, releasing}
use async_engine.Base.{[], arith, refl, ◌≡◌}
use async_engine.Release.{
  ae_release_loop, destroy_handles, release_running, release_with, unload_ubf,
}
use async_engine.Engine.Status.{ae_release_loop_method, ae_stop}
use async_engine.Engine.Stop.{ae_stop-Quits, stopping_world}
use async_engine.Examples.{calm_env, example_world}
use async_engine.Base.Int.{nonzero}
use async_engine.Loop.{uv_idle_callback}
use async_engine.CallFromOtherThread.{unload_ae_call_from_other_thread}
use async_engine.NextTick.{unload_ae_next_tick_uv_idle}

abbrev stop_env : Env
stop_env = record calm_env {
  ruby = λ c. elim c [
    | invoke f m args ↦ elim m [ Method.call ↦ ae_release_loop_method calm_env | _ ↦ pure qnil ]
  ];
}

released_before : (w : World) → w.status ≡ releasing → ae_release_loop_method calm_env w ≡ ok qnil w
unfolding ae_release_loop_method ae_release_loop release_with pure ◌>>=◌
released_before w e = ground (arith, e)

stop_ruby : (c : Callback) → Patient (stop_env.ruby c)
stop_ruby (invoke f Method.call args) = record { at = λ w q. rw (released_before w q.status) q }
stop_ruby (invoke f _ args) = Keeps-pure qnil

abbrev quiet_world : World
quiet_world = record example_world { handles = []; next_tick_procs = [] }

ae_stop-Quits_example :
    (ae_stop stop_env 1 (object 20) quiet_world
      ≡ ok qtrue (stopping_world stop_env (object 20) 2 quiet_world))
    × Releases (stopping_world stop_env (object 20) 2 quiet_world) (uv_idle_callback stop_env 2)
unfolding nonzero ae_release_loop_method ae_release_loop release_with release_running
    destroy_handles unload_ae_next_tick_uv_idle unload_ae_call_from_other_thread unload_ubf ◌>>=◌
ae_stop-Quits_example =
    ae_stop-Quits stop_env stop_ruby (object 20) 1 2 quiet_world
      (record { status = refl; idle = refl; async = refl; ubf = refl }) refl refl refl refl refl
      refl
