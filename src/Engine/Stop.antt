-- ===== src/Engine/Stop.antt =====
-- lib/asyncengine.rb, AE.stop: the engine is released in the turn after it.
use async_engine.World.Monad.{
  Callback, Env, get, invoke, modify, pure, uv, ◌>>=◌, ok, Run, and_then, raised,
}
use async_engine.World.Keeps.{Ends}
use async_engine.World.{Event, World, running, releasing, stopped}
use async_engine.Release.Quits.{Loaded, Quit, ae_release_loop-Quits, Releases}
use async_engine.Ruby.{Method, Value, qnil, qtrue, not_running_error, qfalse}
use async_engine.Loop.Turn.{Nowhere, assert_passes, handled, then_rest, goes_on, guarded_run}
use async_engine.Release.Destroy.{Patient}
use async_engine.Base.{
  [], false, not, refl, ℕ, ◌∷◌, ◌≡◌, if◌then◌else◌, some, subst, sym, arith, ap, ◌++◌, ◌∙◌,
}
use async_engine.Loop.{ae_idle_callback, run_procs, uv_idle_callback}
use async_engine.HandleCommon.{ae_proc_call_0, ae_check_status}
use async_engine.Release.{ae_release_loop, ae_run_with_error_handler, is_running}
use async_engine.Engine.Status.{
  ae_release_loop_method, ae_check_status_method, ae_is_running_thread, ae_running_thread, ae_stop,
}
use async_engine.Arguments.{is_nil}
use async_engine.Base.Int.{nonzero}
use async_engine.NextTick.{ae_next_tick}
use async_engine.NextTick.Queue.{ae_next_tick_lem}

module _ (env : Env) (ruby : (c : Callback) → Patient (env.ruby c)) (block : Value) where
  -- The block of AE.stop under the error handler.
  released :
      (w : World)
      → Loaded w
      → is_nil block ≡ false
      → env.ruby (invoke block Method.call []) w ≡ ae_release_loop_method env w
      → Ends ⊥ Nowhere Quit (ae_run_with_error_handler env (ae_proc_call_0 env block) w)
  unfolding ae_proc_call_0 ae_release_loop_method ◌>>=◌
  released w l n e = handled env _ Quit w l.status (
      assert_passes Quit (not (is_nil block)) _ w (rw n refl) (
        rw e (
          then_rest Quit Quit (ae_release_loop env w) (λ _. pure qnil)
            (ae_release_loop-Quits env ruby w l) (λ a v q. q))))

  one_proc :
      (w : World)
      → Loaded w
      → is_nil block ≡ false
      → env.ruby (invoke block Method.call []) w ≡ ae_release_loop_method env w
      → Ends ⊥ Nowhere Quit (run_procs env (block ∷ []) w)
  unfolding run_procs get pure ◌>>=◌
  one_proc w l n e =
      goes_on Quit (not (is_running w.status)) _ _ w (rw (l.status) refl)
        (then_rest Quit Quit _ (λ _. run_procs env []) (released w l n e) (λ a v q. q))

  -- The turn whose only proc is that block.
  turn_released :
      (w : World) (handle : ℕ)
      → Loaded w
      → is_nil block ≡ false
      → w.next_tick_procs ≡ block ∷ []
      → let u = record w { next_tick_procs = []; trace = Event.idle_stop handle ∷ w.trace } in
        env.ruby (invoke block Method.call []) u ≡ ae_release_loop_method env u
        → Ends ⊥ Nowhere Quit (uv_idle_callback env handle w)
  unfolding uv_idle_callback uv ae_idle_callback get modify pure ◌>>=◌
  turn_released w handle l n queue e =
      let u = record w { next_tick_procs = []; trace = Event.idle_stop handle ∷ w.trace } in
      guarded_run env (ae_idle_callback env) Quit
        (record w { trace = Event.idle_stop handle ∷ w.trace }) l.status
        (assert_passes Quit (is_running w.status) _
          (record w { trace = Event.idle_stop handle ∷ w.trace }) (rw (l.status) refl)
          (then_rest Quit Quit (run_procs env w.next_tick_procs u) (λ _. pure qnil)
            (subst (λ q. Ends ⊥ Nowhere Quit (run_procs env q u)) (sym queue)
              (one_proc u
                (record { status = l.status; idle = l.idle; async = l.async; ubf = l.ubf }) n e))
            (λ a v q. q)))

on_thread :
    (env : Env) (block : Value) (current : ℕ) (w : World)
    → w.status ≡ running
    → w.thread ≡ some current
    → ae_stop env current block w ≡ (ae_next_tick env [] (some block) >>= λ _. pure qtrue) w
unfolding ae_stop ae_check_status_method ae_check_status ae_running_thread ae_is_running_thread pure
    ◌>>=◌
on_thread env block current w e t = ground (arith, e, t)

-- The state after AE.stop, and the one in which the next turn calls its block.
abbrev pub stopping_world : Env → Value → ℕ → World → World
stopping_world env block idle w = record w {
  next_tick_procs = block ∷ [];
  trace =
      if nonzero (env.uv w.trace (Event.is_active idle))
      then Event.is_active idle ∷ w.trace
      else (Event.idle_start idle ∷ Event.is_active idle ∷ w.trace);
}

abbrev pub turning_world : Env → Value → ℕ → World → World
turning_world env block idle w =
    let v = stopping_world env block idle w in
    record v { next_tick_procs = []; trace = Event.idle_stop idle ∷ v.trace }

queued_tick :
    (env : Env) (block : Value) (idle : ℕ) (w : World)
    → w.status ≡ running
    → is_nil block ≡ false
    → w.next_tick_uv_idle ≡ some idle
    → w.next_tick_procs ≡ []
    → nonzero (env.uv (Event.is_active idle ∷ w.trace) (Event.idle_start idle)) ≡ false
    → ae_next_tick env [] (some block) w ≡ ok qtrue (stopping_world env block idle w)
queued_tick env block idle w e n loaded queue starts =
    ae_next_tick_lem env block w idle n loaded starts ∙ by_status
  where
    by_status :
        (elim w.status as (λ _. Run Value) [
          | running ↦ ok qtrue (record w {
            next_tick_procs = w.next_tick_procs ++ block ∷ [];
            trace =
                if nonzero (env.uv w.trace (Event.is_active idle))
                then Event.is_active idle ∷ w.trace
                else (Event.idle_start idle ∷ Event.is_active idle ∷ w.trace);
          })
          | releasing ↦ ok qfalse w
          | stopped ↦ raised (not_running_error "AsyncEngine is not running") w
        ])
        ≡ ok qtrue (stopping_world env block idle w)
    by_status = ground (arith, e, queue)

-- AE.stop, called in the thread of the engine while no proc waits, queues its block, and the next turn
-- of the loop releases the engine: no assertion of it fails and no error leaves it, and the engine is
-- left without its loop handles and without a proc in the queues or AE_procs. The conditions are that
-- the engine runs with its loop handles open, that libuv starts the idle handle, that the block calls
-- AE.release_loop, and that other Ruby code does not end the process and leaves the status, the loop
-- handles and the empty queues of a released engine as they are.
pub ae_stop-Quits :
    (env : Env) (ruby : (c : Callback) → Patient (env.ruby c)) (block : Value) (current idle : ℕ)
    (w : World)
    → Loaded w
    → is_nil block ≡ false
    → w.thread ≡ some current
    → w.next_tick_uv_idle ≡ some idle
    → w.next_tick_procs ≡ []
    → nonzero (env.uv (Event.is_active idle ∷ w.trace) (Event.idle_start idle)) ≡ false
    → env.ruby (invoke block Method.call []) (turning_world env block idle w)
      ≡ ae_release_loop_method env (turning_world env block idle w)
    → (ae_stop env current block w ≡ ok qtrue (stopping_world env block idle w))
      × Releases (stopping_world env block idle w) (uv_idle_callback env idle)
unfolding pure ◌>>=◌
ae_stop-Quits env ruby block current idle w l n thread loaded queue starts e = (
  queued,
  turn_released env ruby block _ idle
      (record { status = l.status; idle = l.idle; async = l.async; ubf = l.ubf }) n refl e,
)
  where
    queued : ae_stop env current block w ≡ ok qtrue (stopping_world env block idle w)
    queued =
        on_thread env block current w l.status thread
        ∙ ap (λ r. and_then r (λ _. pure qtrue))
            (queued_tick env block idle w l.status n loaded queue starts)
