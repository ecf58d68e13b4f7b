-- ===== src/Release.antt =====
-- ext/asyncengine/asyncengine_ruby.c, ae_release_loop and ae_handle_error, with
-- ae_run_with_error_handler of ext/asyncengine/ae_handle_common.c. The three call one another: a Ruby
-- callback that raises releases the loop, which runs #destroy of each handle under the same error
-- handler. `depth` bounds that recursion.
pub mod Errors
pub mod Destroy
pub mod Quits
pub mod Unload
pub mod Safe
pub mod SafeCalls
use async_engine.Base.{
  ℕ, zero, suc, Bool, true, false, not, ◌&&◌, List, [], ◌∷◌, none, is_some, if◌then◌else◌,
}
use async_engine.Base.Assoc.{lookup}
use async_engine.Ruby.{
  Exn, standard, exception, interrupt, killed, Value, qnil, object, error, Method,
}
use async_engine.Arguments.{is_nil}
use async_engine.World.{AeStatus, running, releasing, stopped, Object}
use async_engine.World.Monad.{
  M, crash, pure, raise, assert, get, modify, ◌>>=◌, ◌>>◌, Protected, returned, rescued, protect,
  invoke, Env,
}
use async_engine.HandleCommon.{ae_close_uv_handle}
use async_engine.Timer.{timer_destroy}
use async_engine.Udp.{udp_destroy}
use async_engine.Tcp.{tcp_destroy}
use async_engine.NextTick.{unload_ae_next_tick_uv_idle}
use async_engine.CallFromOtherThread.{unload_ae_call_from_other_thread}

abbrev pub is_running : AeStatus → Bool
is_running running = true
is_running _ = false

abbrev pub is_stopped : AeStatus → Bool
is_stopped stopped = true
is_stopped _ = false

abbrev pub is_releasing : AeStatus → Bool
is_releasing releasing = true
is_releasing _ = false

-- rb_obj_is_kind_of(error, rb_eStandardError).
abbrev pub is_standard_error : Exn → Bool
is_standard_error (exception n) = false
is_standard_error interrupt = false
is_standard_error killed = false
is_standard_error _ = true

abbrev set_exit_error : Value → M (Unit {0})
set_exit_error v = modify (λ w. record w { exit_error = v })

-- The conversion of Thread#kill's Fixnum.
abbrev pub exit_error_of : Exn → Exn
exit_error_of killed = interrupt
exit_error_of e = e

module _ (env : Env) where
  -- call_handle_destroy: the method of the handle's class; another object has no such method.
  unfoldable pub call_handle_destroy : Value → M Value
  call_handle_destroy (object self) w = elim (w.objects self) [
    | Object.timer cdata ↦ timer_destroy env self w
    | Object.udp cdata ↦ udp_destroy env self w
    | Object.tcp cdata ↦ tcp_destroy env self w
    | Object.absent ↦ raise (standard 0) w
  ]
  call_handle_destroy _ w = raise (standard 0) w

  -- rb_hash_foreach(AE_handles, destroy_handle): an entry that is deleted meanwhile is passed over.
  unfoldable pub destroy_handles : (M Value → M Value) → List (ℕ × Value) → M (Unit {0})
  unfolding call_handle_destroy
  destroy_handles run [] = pure tt
  destroy_handles run ((key, handle) ∷ rest) = do
    w ← get
    if is_some (lookup key w.handles) then run (call_handle_destroy handle) else pure qnil
    destroy_handles run rest

  unfoldable pub unload_ubf : M (Unit {0})
  unfolding ae_close_uv_handle
  unload_ubf = do
    w ← get
    assert (is_some w.ubf_uv_async)
    ae_close_uv_handle env w.ubf_uv_async
    modify (λ w. record w { ubf_uv_async = none })

  -- ae_release_loop of a running engine.
  unfoldable pub release_running : (M Value → M Value) → M (Unit {0})
  release_running run = do
    modify (λ w. record w {
      status = releasing;
      next_tick_procs = [];
      call_from_other_thread_procs = [];
    })
    w ← get
    destroy_handles run w.handles
    unload_ae_next_tick_uv_idle env
    unload_ae_call_from_other_thread env
    unload_ubf
    modify (λ w. record w { procs = [] })

  unfoldable pub release_with : (M Value → M Value) → M (Unit {0})
  release_with run = do w ← get; if is_running w.status then release_running run else pure tt

  unfoldable pub after_user_handler : M (Unit {0}) → Protected Value → M (Unit {0})
  after_user_handler release (returned v) = pure tt
  after_user_handler release (rescued e) = do set_exit_error (error e); release

  -- ae_handle_error.
  unfoldable pub handle_error_with : M (Unit {0}) → Exn → M (Unit {0})
  unfolding after_user_handler
  handle_error_with release e = do
    w ← get
    if not (is_nil w.user_error_handler) && is_standard_error e
        then (do
          r ← protect (env.ruby (invoke w.user_error_handler Method.call (error e ∷ [])))
          after_user_handler release r)
        else (do set_exit_error (error (exit_error_of e)); release)

  unfoldable pub after_protect : M (Unit {0}) → Protected Value → M Value
  after_protect release (returned v) = pure v
  after_protect release (rescued e) = do
    w ← get
    if is_releasing w.status then pure qnil else (handle_error_with release e >> pure qnil)

  -- One turn of ae_run_with_error_handler, given the release that an error causes.
  unfoldable pub run_protected : M (Unit {0}) → M Value → M Value
  unfolding after_protect
  run_protected release function = do
    w ← get
    assert (not (is_stopped w.status))
    r ← protect function
    after_protect release r

  unfoldable pub run_at_depth : ℕ → M Value → M Value
  run_at_depth zero function = λ w. crash
  run_at_depth (suc depth) function = run_protected (release_with (run_at_depth depth)) function

  -- ae_run_with_error_handler. Two levels are enough: the release runs in status RELEASING, where
  -- errors are ignored.
  unfoldable pub ae_run_with_error_handler : M Value → M Value
  unfolding run_at_depth
  ae_run_with_error_handler = run_at_depth 2

  -- ae_release_loop.
  unfoldable pub ae_release_loop : M (Unit {0})
  unfolding run_at_depth
  ae_release_loop = release_with (run_at_depth 1)

  -- ae_take_gvl_and_run_with_error_handler.
  unfoldable pub ae_take_gvl_and_run_with_error_handler : M Value → M Value
  unfolding ae_run_with_error_handler
  ae_take_gvl_and_run_with_error_handler function = do
    w ← get
    assert (not (is_stopped w.status))
    ae_run_with_error_handler function
