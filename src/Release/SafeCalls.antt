-- ===== src/Release/SafeCalls.antt =====
-- The calls of Ruby procs under the error handler, and the errors given to them, keep the handles safe.
use async_engine.World.Monad.{Callback, Env, M}
use async_engine.World.Keeps.{Keeps-bind, Keeps-get, Keeps-pure}
use async_engine.Handles.Actions.{Safe, assert-Safe}
use async_engine.Ruby.{Value}
use async_engine.HandleCommon.{
  ae_get_last_uv_error, ae_get_last_uv_error_int, ae_get_uv_error, ae_proc_call_0, ae_proc_call_1,
  ae_proc_call_2,
}
use async_engine.Release.{ae_take_gvl_and_run_with_error_handler}
use async_engine.Release.Safe.{ae_take_gvl_and_run_with_error_handler-Safe}
use async_engine.Base.Int.{ℤ}

module _ (env : Env) where
  pub ae_get_last_uv_error-Safe : Safe (ae_get_last_uv_error env)
  unfolding ae_get_last_uv_error ae_get_last_uv_error_int ae_get_uv_error
  ae_get_last_uv_error-Safe =
      Keeps-bind _ _ (Keeps-bind _ _ Keeps-get λ _. Keeps-pure _) λ _. Keeps-pure _

  pub ae_get_uv_error-Safe : (code : ℤ) → Safe (ae_get_uv_error env code)
  unfolding ae_get_uv_error
  ae_get_uv_error-Safe code = Keeps-pure _

module _ (env : Env) (ruby-Safe : (c : Callback) → Safe (env.ruby c)) where
  pub guarded : (m : M Value) → Safe m → Safe (ae_take_gvl_and_run_with_error_handler env m)
  guarded = ae_take_gvl_and_run_with_error_handler-Safe env ruby-Safe

  pub ae_proc_call_0-Safe : (f : Value) → Safe (ae_proc_call_0 env f)
  unfolding ae_proc_call_0
  ae_proc_call_0-Safe f = Keeps-bind _ _ (assert-Safe _) λ _. ruby-Safe _

  pub ae_proc_call_1-Safe : (f a : Value) → Safe (ae_proc_call_1 env f a)
  unfolding ae_proc_call_1
  ae_proc_call_1-Safe f a = Keeps-bind _ _ (assert-Safe _) λ _. ruby-Safe _

  pub ae_proc_call_2-Safe : (f a b : Value) → Safe (ae_proc_call_2 env f a b)
  unfolding ae_proc_call_2
  ae_proc_call_2-Safe f a b = Keeps-bind _ _ (assert-Safe _) λ _. ruby-Safe _
