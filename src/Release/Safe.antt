-- ===== src/Release/Safe.antt =====
-- ext/asyncengine/asyncengine_ruby.c, ae_release_loop and ae_handle_error, and ae_handle_common.c,
-- ae_run_with_error_handler: the handles are safe where Ruby code keeps them so.
use async_engine.World.Monad.{Callback, Env, M, Protected, Run, modify, raise, rescued, returned}
use async_engine.World.Keeps.{
  Ends, Keeps-bind, Keeps-get, Keeps-protect, Keeps-pure, Keeps-raise, Leads-if,
}
use async_engine.Ruby.{Exn, Value, object, standard}
use async_engine.Handles.{IsSafe}
use async_engine.Base.{List, [], is_some, not, refl, suc, zero, ℕ, ◌&&◌, ◌∷◌}
use async_engine.World.{Object, World, releasing}
use async_engine.Handles.Actions.{Safe, assert-Safe, modify-Safe}
use async_engine.Release.{
  ae_release_loop, ae_run_with_error_handler, ae_take_gvl_and_run_with_error_handler, after_protect,
  after_user_handler, call_handle_destroy, destroy_handles, handle_error_with, is_releasing,
  is_running, is_standard_error, release_running, release_with, run_at_depth, run_protected,
}
use async_engine.Arguments.{is_nil}
use async_engine.Base.Assoc.{lookup}
use async_engine.Tcp.{tcp_destroy}
use async_engine.Tcp.SafeClose.{tcp_destroy-Safe}
use async_engine.Timer.{timer_destroy}
use async_engine.Timer.SafeMethods.{timer_destroy-Safe}
use async_engine.Udp.{udp_destroy}
use async_engine.Udp.SafeMethods.{udp_destroy-Safe}
use async_engine.Release.Unload.{
  unload_ae_call_from_other_thread-Safe, unload_ae_next_tick_uv_idle-Safe, unload_ubf-Safe,
}

module _ (env : Env) (ruby-Safe : (c : Callback) → Safe (env.ruby c)) where
  call_handle_destroy-Safe : (v : Value) → Safe (call_handle_destroy env v)
  unfolding call_handle_destroy raise
  call_handle_destroy-Safe (object self) = record { at = λ w s. by_class w s (w.objects self) }
    where
      by_class :
          (w : World)
          → IsSafe w
          → (x : Object)
          → Ends Unit IsSafe IsSafe (elim x as (λ _. Run Value) [
            | Object.timer cdata ↦ timer_destroy env self w
            | Object.udp cdata ↦ udp_destroy env self w
            | Object.tcp cdata ↦ tcp_destroy env self w
            | Object.absent ↦ raise (standard 0) w
          ])
      by_class w s (Object.timer c) = (timer_destroy-Safe env self).at w s
      by_class w s (Object.udp c) = (udp_destroy-Safe env self).at w s
      by_class w s (Object.tcp c) = (tcp_destroy-Safe env ruby-Safe self).at w s
      by_class w s Object.absent = s
  call_handle_destroy-Safe _ = Keeps-raise _

  module _ (run : M Value → M Value) (run-Safe : (m : M Value) → Safe m → Safe (run m)) where
    destroy_handles-Safe : (entries : List (ℕ × Value)) → Safe (destroy_handles env run entries)
    unfolding destroy_handles
    destroy_handles-Safe [] = Keeps-pure tt
    destroy_handles-Safe ((key, handle) ∷ rest) = Keeps-bind _ _ Keeps-get λ w.
        Keeps-bind _ _
          (Leads-if (is_some (lookup key w.handles)) _ _
            (λ _. run-Safe _ (call_handle_destroy-Safe handle)) (λ _. Keeps-pure _))
          λ _. destroy_handles-Safe rest

    start-Safe : Safe (
        modify (λ w. record w {
          status = releasing;
          next_tick_procs = [];
          call_from_other_thread_procs = [];
        }))
    start-Safe =
        modify-Safe _ (λ w j. refl) (λ w. refl) (λ w. refl) (λ w. refl) (λ w. refl) (λ w. refl)

    forget_procs-Safe : Safe (modify (λ w. record w { procs = [] }))
    forget_procs-Safe =
        modify-Safe _ (λ w j. refl) (λ w. refl) (λ w. refl) (λ w. refl) (λ w. refl) (λ w. refl)

    release_with-Safe : Safe (release_with env run)
    unfolding release_with release_running
    release_with-Safe = Keeps-bind _ _ Keeps-get λ w.
        Leads-if (is_running w.status) _ _
          (λ _. Keeps-bind _ _ start-Safe λ _. Keeps-bind _ _ Keeps-get λ v.
            Keeps-bind _ _ (destroy_handles-Safe v.handles) λ _.
              Keeps-bind _ _ (unload_ae_next_tick_uv_idle-Safe env) λ _.
                Keeps-bind _ _ (unload_ae_call_from_other_thread-Safe env)
                  λ _. Keeps-bind _ _ (unload_ubf-Safe env) λ _. forget_procs-Safe)
          (λ _. Keeps-pure tt)

  module _ (release : M (Unit {0})) (release-Safe : Safe release) where
    set_exit_error-Safe : (v : Value) → Safe (modify (λ w. record w { exit_error = v }))
    set_exit_error-Safe v =
        modify-Safe _ (λ w j. refl) (λ w. refl) (λ w. refl) (λ w. refl) (λ w. refl) (λ w. refl)

    handle_error_with-Safe : (e : Exn) → Safe (handle_error_with env release e)
    unfolding handle_error_with
    handle_error_with-Safe e = Keeps-bind _ _ Keeps-get λ w.
        Leads-if (not (is_nil w.user_error_handler) && is_standard_error e) _ _
          (λ _. Keeps-bind _ _ (Keeps-protect _ (ruby-Safe _)) after)
          (λ _. Keeps-bind _ _ (set_exit_error-Safe _) λ _. release-Safe)
      where
        after : (r : Protected Value) → Safe (after_user_handler env release r)
        after (returned v) = Keeps-pure tt
        after (rescued f) = Keeps-bind _ _ (set_exit_error-Safe _) λ _. release-Safe

    run_protected-Safe : (m : M Value) → Safe m → Safe (run_protected env release m)
    unfolding run_protected
    run_protected-Safe m km =
        Keeps-bind _ _ Keeps-get
          λ w. Keeps-bind _ _ (assert-Safe _) λ _. Keeps-bind _ _ (Keeps-protect m km) after
      where
        after : (r : Protected Value) → Safe (after_protect env release r)
        after (returned v) = Keeps-pure v
        after (rescued f) = Keeps-bind _ _ Keeps-get λ w.
            Leads-if (is_releasing w.status) _ _ (λ _. Keeps-pure _)
              (λ _. Keeps-bind _ _ (handle_error_with-Safe f) λ _. Keeps-pure _)

  run_at_depth-Safe : (depth : ℕ) (m : M Value) → Safe m → Safe (run_at_depth env depth m)
  unfolding run_at_depth
  run_at_depth-Safe zero m km = record { at = λ w s. tt }
  run_at_depth-Safe (suc depth) m km =
      run_protected-Safe _ (release_with-Safe _ (run_at_depth-Safe depth)) m km

  pub ae_run_with_error_handler-Safe :
      (m : M Value) → Safe m → Safe (ae_run_with_error_handler env m)
  unfolding ae_run_with_error_handler
  ae_run_with_error_handler-Safe = run_at_depth-Safe 2

  pub ae_release_loop-Safe : Safe (ae_release_loop env)
  unfolding ae_release_loop
  ae_release_loop-Safe = release_with-Safe _ (run_at_depth-Safe 1)

  pub ae_take_gvl_and_run_with_error_handler-Safe :
      (m : M Value) → Safe m → Safe (ae_take_gvl_and_run_with_error_handler env m)
  unfolding ae_take_gvl_and_run_with_error_handler
  ae_take_gvl_and_run_with_error_handler-Safe m km =
      Keeps-bind _ _ Keeps-get
        λ w. Keeps-bind _ _ (assert-Safe _) λ _. ae_run_with_error_handler-Safe m km
