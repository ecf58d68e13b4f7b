-- ===== src/Examples/Engines.antt =====
-- The theorems on the engine at concrete inputs.
use async_engine.Base.{[], refl, some, ◌∷◌, ◌≡◌, none, ◌≤◌}
use async_engine.World.Monad.{ok, Callback, raise, ◌>>=◌, pure, ◌>>◌}
use async_engine.World.{Event, World, stopped}
use async_engine.Ruby.{object, qnil, qtrue, standard, fixnum, proc}
use async_engine.World.Keeps.{Keeps-pure}
use async_engine.Release.Destroy.{Patient}
use async_engine.Release.Quits.{Releases, ae_release_loop-Quits, Loaded}
use async_engine.NextTick.{ae_next_tick}
use async_engine.NextTick.Queue.{ae_next_tick_lem}
use async_engine.Release.{ae_release_loop, ae_run_with_error_handler}
use async_engine.Examples.{calm_env, example_world}
use async_engine.Base.Int.{nonzero, negsuc, pos}
use async_engine.CallFromOtherThread.{ae_call_from_other_thread}
use async_engine.CallFromOtherThread.Queue.{ae_call_from_other_thread_lem}
use async_engine.Release.Errors.{failed_world, ae_run_with_error_handler-Quits}
use async_engine.Arguments.{delay_arg}
use async_engine.Arguments.Delays.{delay_arg_positive}
use async_engine.Engine.{start_engine}
use async_engine.Engine.Start.{start_engine-Loaded, started_world}

calm_ruby : (c : Callback) → Patient (calm_env.ruby c)
calm_ruby c = Keeps-pure qnil

ae_release_loop-Quits_example : Releases example_world (ae_release_loop calm_env)
ae_release_loop-Quits_example =
    ae_release_loop-Quits calm_env calm_ruby example_world
      (record { status = refl; idle = refl; async = refl; ubf = refl })

ae_next_tick_lem_example :
    ae_next_tick calm_env [] (some (object 21)) example_world
    ≡ ok qtrue (record example_world {
      next_tick_procs = object 20 ∷ object 21 ∷ [];
      trace = Event.idle_start 2 ∷ Event.is_active 2 ∷ [];
    })
unfolding nonzero
ae_next_tick_lem_example = ae_next_tick_lem calm_env (object 21) example_world 2 refl refl refl

ae_call_from_other_thread_lem_example :
    ae_call_from_other_thread calm_env [] (some (object 21)) example_world
    ≡ ok qtrue (record example_world {
      call_from_other_thread_procs = object 21 ∷ [];
      trace = Event.async_send 3 ∷ [];
    })
unfolding nonzero
ae_call_from_other_thread_lem_example =
    ae_call_from_other_thread_lem calm_env (object 21) example_world 3 refl refl

abbrev stopped_world : World
stopped_world = record example_world {
  status = stopped;
  next_tick_uv_idle = none;
  call_from_other_thread_uv_async = none;
  ubf_uv_async = none;
}

start_engine-Loaded_example :
    let v = started_world 1 1 (proc 21) stopped_world in
    (start_engine calm_env (negsuc 1) (negsuc 2) 1 1 (proc 21) stopped_world ≡ ok tt v)
    × (v.next_tick_procs ≡ object 20 ∷ proc 21 ∷ [])
    × Loaded v
unfolding nonzero
start_engine-Loaded_example =
    start_engine-Loaded calm_env (negsuc 1) (negsuc 2) 1 1 (proc 21) stopped_world refl refl refl
      refl refl (refl, (refl, (refl, (refl, (refl, (refl, tt))))))

ae_run_with_error_handler-Quits_example :
    let failing = ae_run_with_error_handler calm_env (raise (standard 1)) in
    (failing example_world
      ≡ (ae_release_loop calm_env >> pure qnil) (failed_world (standard 1) example_world))
    × Releases example_world failing
unfolding raise
ae_run_with_error_handler-Quits_example =
    ae_run_with_error_handler-Quits calm_env calm_ruby (raise (standard 1)) example_world
      example_world (standard 1) refl refl
      (record { status = refl; idle = refl; async = refl; ubf = refl }) refl

delay_arg_positive_example : (1 ≤ 1) × (example_world ≡ example_world)
unfolding delay_arg ◌>>=◌
delay_arg_positive_example = delay_arg_positive (fixnum (pos 0)) example_world example_world 1 refl
