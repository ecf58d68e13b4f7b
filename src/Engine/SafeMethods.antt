-- ===== src/Engine/SafeMethods.antt =====
-- AE.next_tick, AE.call_from_other_thread, AE::DNS.resolve, AE.release_loop, and AE.run before and after
-- uv_run, keep the handles safe.
use async_engine.World.Monad.{Env, modify, Callback}
use async_engine.World.{Event}
use async_engine.World.Keeps.{Keeps-bind, Keeps-get, Keeps-pure, Leads-if, Keeps-raise}
use async_engine.Base.{List, Option, [], leb, length, none, not, refl, some, ℕ, ◌&&◌, ◌++◌, ◌∷◌}
use async_engine.Handles.Actions.{
  Safe, ae_check_status-Safe, ae_raise_last_uv_error-Safe, ae_store_proc-Safe, alloc-Safe,
  assert-Safe, set_request_data-Safe, uv-Safe, xfree-Safe, modify-Safe,
}
use async_engine.Ruby.{Value, type_error, error, killed}
use async_engine.CallFromOtherThread.{
  ae_call_from_other_thread, push_call_from_other_thread, send_async,
}
use async_engine.NextTick.{ae_next_tick, push_next_tick, start_idle}
use async_engine.Arguments.{argument, is_nil}
use async_engine.Arguments.Keeps.{
  check_num_args-Keeps, ensure_block_or_proc-Keeps, string_arg-Keeps, string_value_cstr-Keeps,
  int_arg-Keeps,
}
use async_engine.Dns.{dns_resolve, family_arg, start_request}
use async_engine.Engine.SafeLoads.{
  load_ae_call_from_other_thread-Safe, load_ae_next_tick_uv_idle-Safe, load_ubf-Safe,
}
use async_engine.Base.Int.{nonzero, ℤ}
use async_engine.Engine.{start_engine, finish_engine, raise_captured, run_on_exit}
use async_engine.Release.SafeCalls.{ae_proc_call_1-Safe}
use async_engine.HandleCommon.{ae_uv_handle_close_callback}

module _ (env : Env) where
  push_procs :
      (f : List Value → List Value)
      → Safe (modify (λ w. record w { next_tick_procs = f w.next_tick_procs }))
  push_procs f =
      modify-Safe _ (λ w j. refl) (λ w. refl) (λ w. refl) (λ w. refl) (λ w. refl) (λ w. refl)

  start_idle-Safe : (u : Option ℕ) → Safe (start_idle env u)
  unfolding start_idle
  start_idle-Safe none = record { at = λ w s. tt }
  start_idle-Safe (some p) = Keeps-bind _ _ (uv-Safe env _ refl) λ r.
      Leads-if (not (nonzero r)) _ _ (λ _. Keeps-bind _ _ (uv-Safe env _ refl) λ q. assert-Safe _)
        (λ _. Keeps-pure tt)

  push_next_tick-Safe : (callee : Value) → Safe (push_next_tick env callee)
  unfolding push_next_tick
  push_next_tick-Safe callee = Keeps-bind _ _ Keeps-get λ w. Keeps-bind _ _ (assert-Safe _) λ _.
      Keeps-bind _ _ (push_procs (λ procs. procs ++ callee ∷ []))
        λ _. Keeps-bind _ _ (start_idle-Safe w.next_tick_uv_idle) λ _. Keeps-pure _

  pub ae_next_tick-Safe :
      (argv : List Value) (block : Option Value) → Safe (ae_next_tick env argv block)
  unfolding ae_next_tick
  ae_next_tick-Safe argv block = ae_check_status-Safe _ (
      Keeps-bind _ _ (check_num_args-Keeps 0 1 argv)
        λ _. Keeps-bind _ _ (ensure_block_or_proc-Keeps 1 argv block) push_next_tick-Safe)

  push_calls :
      (f : List Value → List Value)
      → Safe (
          modify
            (λ w. record w { call_from_other_thread_procs = f w.call_from_other_thread_procs }))
  push_calls f =
      modify-Safe _ (λ w j. refl) (λ w. refl) (λ w. refl) (λ w. refl) (λ w. refl) (λ w. refl)

  send_async-Safe : (u : Option ℕ) → Safe (send_async env u)
  unfolding send_async
  send_async-Safe none = record { at = λ w s. tt }
  send_async-Safe (some p) = Keeps-bind _ _ (uv-Safe env _ refl) λ r. assert-Safe _

  push_call_from_other_thread-Safe :
      (callee : Value) → Safe (push_call_from_other_thread env callee)
  unfolding push_call_from_other_thread
  push_call_from_other_thread-Safe callee =
      Keeps-bind _ _ (push_calls (λ procs. procs ++ callee ∷ [])) λ _.
        Keeps-bind _ _ Keeps-get
          λ w. Keeps-bind _ _ (send_async-Safe w.call_from_other_thread_uv_async) λ _. Keeps-pure _

  pub ae_call_from_other_thread-Safe :
      (argv : List Value) (block : Option Value) → Safe (ae_call_from_other_thread env argv block)
  unfolding ae_call_from_other_thread
  ae_call_from_other_thread-Safe argv block = ae_check_status-Safe _ (
      Keeps-bind _ _ (check_num_args-Keeps 0 1 argv) λ _.
        Keeps-bind _ _ (ensure_block_or_proc-Keeps 1 argv block) push_call_from_other_thread-Safe)

  start_request-Safe :
      (hostname : List ℕ) (family : ℤ) (callee : Value)
      → Safe (start_request env hostname family callee)
  unfolding start_request
  start_request-Safe hostname family callee = Keeps-bind _ _ alloc-Safe λ handle.
      Keeps-bind _ _ alloc-Safe λ data'. Keeps-bind _ _ (set_request_data-Safe handle _) λ _.
        Keeps-bind _ _ (uv-Safe env (Event.getaddrinfo handle hostname family) refl) λ r.
          Leads-if (nonzero r) _ _
            (λ _.
              Keeps-bind _ _ (Keeps-bind _ _ (xfree-Safe data') λ _. xfree-Safe handle)
                λ _. ae_raise_last_uv_error-Safe env)
            λ _.
              Keeps-bind _ _ (ae_store_proc-Safe callee)
                λ id. Keeps-bind _ _ (set_request_data-Safe handle _) λ _. Keeps-pure _

  family_arg-Safe : (argv : List Value) → Safe (family_arg argv)
  unfolding family_arg
  family_arg-Safe argv =
      Leads-if (leb 2 (length argv) && not (is_nil (argument argv 1))) _ _
        (λ _. int_arg-Keeps (argument argv 1) _) (λ _. Keeps-pure _)

  pub dns_resolve-Safe :
      (argv : List Value) (block : Option Value) → Safe (dns_resolve env argv block)
  unfolding dns_resolve
  dns_resolve-Safe argv block = ae_check_status-Safe _ (
      Keeps-bind _ _ (check_num_args-Keeps 1 3 argv) λ _.
        Keeps-bind _ _ (ensure_block_or_proc-Keeps 3 argv block) λ callee.
          Keeps-bind _ _
            (string_arg-Keeps (argument argv 0) (type_error "hostname must be a String"))
            λ str. Keeps-bind _ _ (string_value_cstr-Keeps str) λ hostname.
              Keeps-bind _ _ (family_arg-Safe argv)
                λ family. start_request-Safe hostname family callee)

  pub start_engine-Safe :
      (uv_eof uv_etimedout : ℤ) (thread pid : ℕ) (callee : Value)
      → Safe (start_engine env uv_eof uv_etimedout thread pid callee)
  unfolding start_engine
  start_engine-Safe uv_eof uv_etimedout thread pid callee =
      Keeps-bind _ _
        (modify-Safe _ (λ w j. refl) (λ w. refl) (λ w. refl) (λ w. refl) (λ w. refl) (λ w. refl))
        λ _. Keeps-bind _ _ Keeps-get λ w. Keeps-bind _ _ (assert-Safe _) λ _.
          Keeps-bind _ _ (load_ae_next_tick_uv_idle-Safe env) λ _.
            Keeps-bind _ _ (load_ae_call_from_other_thread-Safe env) λ _.
              Keeps-bind _ _ (load_ubf-Safe env uv_eof uv_etimedout) λ _.
                Keeps-bind _ _
                  (modify-Safe _ (λ w j. refl) (λ w. refl) (λ w. refl) (λ w. refl) (λ w. refl)
                    (λ w. refl))
                  λ _.
                    Keeps-bind _ _ (ae_next_tick-Safe (callee ∷ []) none)
                      λ _. Keeps-bind _ _ (uv-Safe env Event.active_reqs refl) λ r. assert-Safe _

pub close_callback-Safe : (handle : ℕ) → Safe (ae_uv_handle_close_callback handle)
unfolding ae_uv_handle_close_callback
close_callback-Safe handle = xfree-Safe handle

module _ (env : Env) (uv_eof uv_etimedout : ℤ)
    (ruby-Safe : (c : Callback) → Safe (env.ruby c)) where
  run_on_exit-Safe :
      (v : Value) (procs : List Value) → Safe (run_on_exit env uv_eof uv_etimedout v procs)
  unfolding run_on_exit
  run_on_exit-Safe v [] = Keeps-pure tt
  run_on_exit-Safe v (callee ∷ rest) =
      Keeps-bind _ _ (ae_proc_call_1-Safe env ruby-Safe callee v) λ _. run_on_exit-Safe v rest

  raise_captured-Safe : (v : Value) → Safe (raise_captured env uv_eof uv_etimedout v)
  unfolding raise_captured
  raise_captured-Safe (error killed) = Keeps-pure _
  raise_captured-Safe (error _) = Keeps-raise _
  raise_captured-Safe _ = Keeps-pure _

  pub finish_engine-Safe : Safe (finish_engine env uv_eof uv_etimedout)
  unfolding finish_engine
  finish_engine-Safe = Keeps-bind _ _ (uv-Safe env Event.active_handles refl) λ h.
      Keeps-bind _ _ (assert-Safe _) λ _. Keeps-bind _ _ (uv-Safe env Event.active_reqs refl) λ r.
        Keeps-bind _ _ (assert-Safe _) λ _. Keeps-bind _ _ Keeps-get λ w.
          Keeps-bind _ _
            (modify-Safe _ (λ w j. refl) (λ w. refl) (λ w. refl) (λ w. refl) (λ w. refl)
              (λ w. refl))
            λ _.
              Keeps-bind _ _ (run_on_exit-Safe w.exit_error w.on_exit_procs)
                λ _. raise_captured-Safe w.exit_error
