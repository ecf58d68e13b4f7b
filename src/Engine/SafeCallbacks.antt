-- ===== src/Engine/SafeCallbacks.antt =====
-- The callbacks of the loop's own handles, of timers and of lookups keep the handles safe.
use async_engine.Dns.{AddrInfo, ae_getaddrinfo_callback, free_request, uv_getaddrinfo_callback}
use async_engine.World.Monad.{Callback, Env, invoke, modify}
use async_engine.World.{Event, Request, getaddrinfo_data, send_data, write_data}
use async_engine.Timer.Safe.{close_handle-Safe, get_cdata-Holds, Holds-forget}
use async_engine.World.Keeps.{Keeps-bind, Keeps-get, Keeps-pure, Leads-if}
use async_engine.Base.{List, [], not, refl, ℕ, ◌∷◌}
use async_engine.Ruby.{Method, Value, qnil}
use async_engine.Handles.Actions.{
  Safe, ae_remove_proc-Safe, assert-Safe, handle_data-Safe, request_data-Safe, uv-Safe, xfree-Safe,
  modify-Safe,
}
use async_engine.Loop.{
  ae_async_callback, ae_idle_callback, ae_ubf_uv_async_callback, run_procs, uv_async_callback,
  uv_idle_callback,
}
use async_engine.Release.SafeCalls.{
  ae_get_last_uv_error-Safe, ae_proc_call_0-Safe, ae_proc_call_2-Safe, guarded,
}
use async_engine.Release.Safe.{ae_run_with_error_handler-Safe}
use async_engine.Timer.{ae_timer_callback}
use async_engine.Release.{is_releasing, is_running}
use async_engine.Base.Int.{nonzero, ℤ}
use async_engine.Timer.Fire.{uv_timer_callback}

module _ (env : Env) (ruby-Safe : (c : Callback) → Safe (env.ruby c)) where
  run_procs-Safe : (procs : List Value) → Safe (run_procs env procs)
  unfolding run_procs
  run_procs-Safe [] = Keeps-pure tt
  run_procs-Safe (callee ∷ rest) = Keeps-bind _ _ Keeps-get λ w.
      Leads-if (not (is_running w.status)) _ _ (λ _. Keeps-pure tt)
        λ _.
          Keeps-bind _ _
            (ae_run_with_error_handler-Safe env ruby-Safe _
              (ae_proc_call_0-Safe env ruby-Safe callee))
            λ _. run_procs-Safe rest

  emptied_ticks : Safe (modify (λ w. record w { next_tick_procs = [] }))
  emptied_ticks =
      modify-Safe _ (λ w j. refl) (λ w. refl) (λ w. refl) (λ w. refl) (λ w. refl) (λ w. refl)

  ae_idle_callback-Safe : Safe (ae_idle_callback env)
  unfolding ae_idle_callback
  ae_idle_callback-Safe = Keeps-bind _ _ Keeps-get λ w. Keeps-bind _ _ (assert-Safe _) λ _.
      Keeps-bind _ _ emptied_ticks
        λ _. Keeps-bind _ _ (run_procs-Safe w.next_tick_procs) λ _. Keeps-pure _

  pub uv_idle_callback-Safe : (handle : ℕ) → Safe (uv_idle_callback env handle)
  unfolding uv_idle_callback
  uv_idle_callback-Safe handle =
      Keeps-bind _ _ (uv-Safe env (Event.idle_stop handle) refl)
        λ _. guarded env ruby-Safe _ ae_idle_callback-Safe

  emptied_calls : Safe (modify (λ w. record w { call_from_other_thread_procs = [] }))
  emptied_calls =
      modify-Safe _ (λ w j. refl) (λ w. refl) (λ w. refl) (λ w. refl) (λ w. refl) (λ w. refl)

  ae_async_callback-Safe : Safe (ae_async_callback env)
  unfolding ae_async_callback
  ae_async_callback-Safe = Keeps-bind _ _ Keeps-get λ w. Keeps-bind _ _ (assert-Safe _) λ _.
      Keeps-bind _ _ emptied_calls
        λ _. Keeps-bind _ _ (run_procs-Safe w.call_from_other_thread_procs) λ _. Keeps-pure _

  pub uv_async_callback-Safe : Safe (uv_async_callback env)
  unfolding uv_async_callback
  uv_async_callback-Safe = guarded env ruby-Safe _ ae_async_callback-Safe

  pub ae_ubf_uv_async_callback-Safe : Safe (ae_ubf_uv_async_callback env)
  unfolding ae_ubf_uv_async_callback
  ae_ubf_uv_async_callback-Safe = Keeps-bind _ _ Keeps-get λ w.
      Leads-if (not (is_running w.status)) _ _ (λ _. Keeps-pure _)
        (λ _. guarded env ruby-Safe _ (ruby-Safe (invoke qnil Method.check_ints [])))

  ae_timer_callback-Safe : (self : ℕ) → Safe (ae_timer_callback env self)
  unfolding ae_timer_callback
  ae_timer_callback-Safe self = get_cdata-Holds self _ λ c. Holds-forget self c _ (
      Keeps-bind _ _
        (Leads-if c.periodic _ _ (λ _. Keeps-pure tt) (λ _. close_handle-Safe env self))
        λ _. ae_proc_call_0-Safe env ruby-Safe c.on_fire_proc)

  pub uv_timer_callback-Safe : (handle : ℕ) → Safe (uv_timer_callback env handle)
  unfolding uv_timer_callback
  uv_timer_callback-Safe handle =
      Keeps-bind _ _ (handle_data-Safe handle)
        λ self. guarded env ruby-Safe _ (ae_timer_callback-Safe self)

  ae_getaddrinfo_callback-Safe :
      (status : ℤ) (res : ℕ) (infos : List AddrInfo) (id : ℕ)
      → Safe (ae_getaddrinfo_callback env status res infos id)
  unfolding ae_getaddrinfo_callback
  ae_getaddrinfo_callback-Safe status res infos id =
      Keeps-bind _ _ (uv-Safe env (Event.freeaddrinfo res) refl) λ _.
        Keeps-bind _ _ (ae_remove_proc-Safe id) λ callee. Keeps-bind _ _ Keeps-get λ w.
          Leads-if (is_releasing w.status) _ _ (λ _. Keeps-pure _)
            λ _.
              Leads-if (not (nonzero status)) _ _
                (λ _. ae_proc_call_2-Safe env ruby-Safe callee qnil _)
                λ _.
                  Keeps-bind _ _ (ae_get_last_uv_error-Safe env)
                    λ e. ae_proc_call_2-Safe env ruby-Safe callee e qnil

  pub uv_getaddrinfo_callback-Safe :
      (handle : ℕ) (status : ℤ) (res : ℕ) (infos : List AddrInfo)
      → Safe (uv_getaddrinfo_callback env handle status res infos)
  unfolding uv_getaddrinfo_callback free_request
  uv_getaddrinfo_callback-Safe handle status res infos =
      Keeps-bind _ _ (request_data-Safe handle) freed
    where
      freed : (d : Request) → Safe (free_request env handle d status res infos)
      freed (getaddrinfo_data a id) = Keeps-bind _ _ (xfree-Safe a) λ _.
          Keeps-bind _ _ (xfree-Safe handle)
            λ _. guarded env ruby-Safe _ (ae_getaddrinfo_callback-Safe status res infos id)
      freed (send_data a b c) = record { at = λ w s. tt }
      freed (write_data a b c) = record { at = λ w s. tt }
