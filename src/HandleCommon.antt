-- ===== src/HandleCommon.antt =====
-- ext/asyncengine/ae_handle_common.c and ae_handle_common.h: the hashes AE_handles and AE_procs,
-- the errors of libuv, calls of procs, and the checks with which methods begin.
pub mod RoundTrip
use async_engine.Base.{ℕ, suc, not, [], ◌∷◌, Option, none, some}
use async_engine.Base.Assoc.{lookup, insert, erase}
use async_engine.Base.Int.{ℤ, negsuc}
use async_engine.Ruby.{
  Exn, type_error, not_running_error, Value, qnil, qfalse, object, error, Method,
}
use async_engine.Arguments.{is_nil}
use async_engine.World.{running, releasing, stopped, Event}
use async_engine.World.Monad.{
  M, ok, raised, crash, pure, raise, assert, get, modify, ◌>>=◌, ◌>>◌, invoke, Env, uv, xfree,
}

or_nil : Option Value → Value
or_nil none = qnil
or_nil (some v) = v

unfoldable pub ae_store_handle : ℕ → M ℕ
ae_store_handle self = do
  modify (λ w. record w { handles = insert self (object self) w.handles })
  pure self

unfoldable pub ae_get_handle : ℕ → M Value
unfolding or_nil
ae_get_handle ae_handle_id = do w ← get; pure (or_nil (lookup ae_handle_id w.handles))

unfoldable pub ae_remove_handle : ℕ → M Value
unfolding or_nil
ae_remove_handle ae_handle_id = do
  w ← get
  modify (λ w. record w { handles = erase ae_handle_id w.handles })
  pure (or_nil (lookup ae_handle_id w.handles))

unfoldable pub ae_store_proc : Value → M ℕ
ae_store_proc callee = do
  modify (λ w. record w {
    proc_long_id = suc w.proc_long_id;
    procs = insert (suc w.proc_long_id) callee w.procs;
  })
  w ← get
  pure w.proc_long_id

unfoldable pub ae_get_proc : ℕ → M Value
unfolding or_nil
ae_get_proc proc_id = do w ← get; pure (or_nil (lookup proc_id w.procs))

unfoldable pub ae_remove_proc : ℕ → M Value
unfolding or_nil
ae_remove_proc proc_id = do
  w ← get
  modify (λ w. record w { procs = erase proc_id w.procs })
  pure (or_nil (lookup proc_id w.procs))

unfoldable pub ae_uv_handle_close_callback : ℕ → M (Unit {0})
ae_uv_handle_close_callback handle = xfree handle

-- AE_CHECK_STATUS, before the rest of the method.
unfoldable pub ae_check_status : M Value → M Value
ae_check_status body w = elim w.status [
  | running ↦ body w
  | releasing ↦ ok qfalse w
  | stopped ↦ raised (not_running_error "AsyncEngine is not running") w
]

-- CHECK_UV_HANDLE_IS_OPEN, before the rest of the method.
unfoldable pub check_uv_handle_is_open : Option ℕ → (ℕ → M Value) → M Value
check_uv_handle_is_open none body = pure qfalse
check_uv_handle_is_open (some handle) body = body handle

module _ (env : Env) where
  -- AE_CLOSE_UV_HANDLE; libuv reads through the pointer.
  unfoldable pub ae_close_uv_handle : Option ℕ → M (Unit {0})
  ae_close_uv_handle none = λ w. crash
  ae_close_uv_handle (some handle) = do uv env (Event.close handle); pure tt

  unfoldable pub ae_get_last_uv_error_int : M ℤ
  ae_get_last_uv_error_int = do w ← get; pure (env.last_error w.trace)

  error_or : Option Exn → Value → Value
  error_or none v = v
  error_or (some e) v = error e

  unfoldable pub ae_get_uv_error : ℤ → M Value
  unfolding error_or
  ae_get_uv_error uv_errno =
      pure (error_or (env.uv_errors uv_errno) (error_or (env.uv_errors (negsuc 0)) qnil))

  unfoldable pub ae_get_last_uv_error : M Value
  unfolding ae_get_last_uv_error_int ae_get_uv_error
  ae_get_last_uv_error = do code ← ae_get_last_uv_error_int; ae_get_uv_error code

  -- Kernel.raise(error).
  unfoldable pub raise_value : {A : Type 0} → Value → M A
  raise_value (error e) = raise e
  raise_value _ = raise (type_error "exception class/object expected")

  unfoldable pub ae_raise_uv_error : {A : Type 0} → ℤ → M A
  unfolding ae_get_uv_error raise_value
  ae_raise_uv_error uv_errno = do e ← ae_get_uv_error uv_errno; raise_value e

  unfoldable pub ae_raise_last_uv_error : {A : Type 0} → M A
  unfolding ae_get_last_uv_error raise_value
  ae_raise_last_uv_error = do e ← ae_get_last_uv_error; raise_value e

  unfoldable pub ae_proc_call_0 : Value → M Value
  ae_proc_call_0 callee = do assert (not (is_nil callee)); env.ruby (invoke callee Method.call [])

  unfoldable pub ae_proc_call_1 : Value → Value → M Value
  ae_proc_call_1 callee param = do
    assert (not (is_nil callee))
    env.ruby (invoke callee Method.call (param ∷ []))

  unfoldable pub ae_proc_call_2 : Value → Value → Value → M Value
  ae_proc_call_2 callee param1 param2 = do
    assert (not (is_nil callee))
    env.ruby (invoke callee Method.call (param1 ∷ param2 ∷ []))

  unfoldable pub ae_proc_call_3 : Value → Value → Value → Value → M Value
  ae_proc_call_3 callee param1 param2 param3 = do
    assert (not (is_nil callee))
    env.ruby (invoke callee Method.call (param1 ∷ param2 ∷ param3 ∷ []))
