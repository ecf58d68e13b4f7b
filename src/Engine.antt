-- ===== src/Engine.antt =====
-- ext/asyncengine/asyncengine_ruby.c, AE.run, with AE.stop of lib/asyncengine.rb and the dispatch of
-- libuv's events to the callbacks.
pub mod Start
pub mod Status
pub mod Stop
pub mod SafeCallbacks
pub mod SafeMethods
pub mod SafeLoads
use async_engine.Base.{
  ℕ, Bool, true, false, not, ◌&&◌, List, [], ◌∷◌, Option, none, some, is_some, ◌==◌, if◌then◌else◌,
}
use async_engine.Base.Int.{ℤ, nonzero}
use async_engine.Ruby.{engine_error, thread_error, killed, Value, qnil, qtrue, error}
use async_engine.Arguments.{check_num_args, ensure_block_or_proc}
use async_engine.World.{running, stopped, Event, Sockaddr}
use async_engine.World.Monad.{M, pure, raise, assert, get, modify, ◌>>=◌, ◌>>◌, Env, uv, alloc}
use async_engine.HandleCommon.{ae_uv_handle_close_callback, ae_proc_call_1}
use async_engine.NextTick.{load_ae_next_tick_uv_idle, ae_next_tick}
use async_engine.CallFromOtherThread.{load_ae_call_from_other_thread, ae_call_from_other_thread}
use async_engine.Release.{is_running, is_stopped}
use async_engine.Loop.{uv_idle_callback, uv_async_callback, ae_ubf_uv_async_callback}
use async_engine.Timer.Fire.{uv_timer_callback}
use async_engine.Udp.Callbacks.{uv_recv_callback, uv_send_callback}
use async_engine.Tcp.Callbacks.{
  uv_connect_callback, uv_read_callback, uv_write_callback, uv_shutdown_callback,
  uv_timer_connect_timeout_callback,
}
use async_engine.Dns.{AddrInfo, uv_getaddrinfo_callback}

-- What libuv calls, with the arguments.
pub data UvEvent : Type 0 where
  idle_fires timer_fires connect_timeout_fires closed : ℕ → UvEvent
  async_fires ubf_fires : UvEvent
  received : ℕ → ℤ → List ℕ → Sockaddr → UvEvent
  sent : ℕ → ℤ → UvEvent
  tcp_connects : ℕ → ℕ → ℤ → UvEvent
  tcp_reads : ℕ → ℤ → Option ℕ → List ℕ → UvEvent
  tcp_writes tcp_shuts_down : ℕ → ℕ → ℤ → UvEvent
  resolved : ℕ → ℤ → ℕ → List AddrInfo → UvEvent

unfoldable pub same_thread : ℕ → Option ℕ → Bool
same_thread thread none = false
same_thread thread (some t) = thread == t

module _ (env : Env) (uv_eof uv_etimedout : ℤ) where
  unfoldable pub dispatch : UvEvent → M Value
  dispatch (UvEvent.idle_fires handle) = uv_idle_callback env handle
  dispatch (UvEvent.timer_fires handle) = uv_timer_callback env handle
  dispatch (UvEvent.connect_timeout_fires handle) =
      uv_timer_connect_timeout_callback env uv_eof uv_etimedout handle >> pure qnil
  dispatch (UvEvent.closed handle) = ae_uv_handle_close_callback handle >> pure qnil
  dispatch UvEvent.async_fires = uv_async_callback env
  dispatch UvEvent.ubf_fires = ae_ubf_uv_async_callback env
  dispatch (UvEvent.received handle nread buffer addr) =
      uv_recv_callback env handle nread buffer addr
  dispatch (UvEvent.sent req status) = uv_send_callback env req status
  dispatch (UvEvent.tcp_connects handle req status) =
      uv_connect_callback env uv_eof uv_etimedout handle req status
  dispatch (UvEvent.tcp_reads handle nread base bytes) =
      uv_read_callback env uv_eof uv_etimedout handle nread base bytes
  dispatch (UvEvent.tcp_writes handle req status) =
      uv_write_callback env uv_eof uv_etimedout handle req status
  dispatch (UvEvent.tcp_shuts_down handle req status) =
      uv_shutdown_callback env uv_eof uv_etimedout handle req status
  dispatch (UvEvent.resolved handle status res infos) =
      uv_getaddrinfo_callback env handle status res infos

  -- uv_run, by the events that libuv finds until no handle is left.
  unfoldable pub uv_run : List UvEvent → M (Unit {0})
  unfolding dispatch
  uv_run [] = pure tt
  uv_run (e ∷ es) = do dispatch e; uv_run es

  -- rb_mutex_lock(AE_mutex). While another thread holds it, the others run.
  unfoldable pub lock_mutex : ℕ → M (Unit {0})
  unfolding same_thread
  lock_mutex thread = do
    w ← get
    if same_thread thread w.mutex then raise (thread_error "deadlock; recursive locking") else (do
      modify (λ w. if is_some w.mutex then env.others w else w)
      modify (λ w. record w { mutex = some thread }))

  abbrev unlock_mutex : M (Unit {0})
  unlock_mutex = modify (λ w. record w { mutex = none })

  -- The loop over the procs of AE.on_exit.
  unfoldable pub run_on_exit : Value → List Value → M (Unit {0})
  unfolding ae_proc_call_1
  run_on_exit captured_error [] = pure tt
  run_on_exit captured_error (callee ∷ rest) = do
    ae_proc_call_1 env callee captured_error
    run_on_exit captured_error rest

  -- The captured error is raised if it is an Exception.
  unfoldable pub raise_captured : Value → M Value
  raise_captured (error killed) = pure qtrue
  raise_captured (error e) = raise e
  raise_captured _ = pure qtrue

  unfoldable pub load_ubf : M (Unit {0})
  load_ubf = do
    w ← get
    assert (not (is_some w.ubf_uv_async))
    async ← alloc
    modify (λ w. record w { ubf_uv_async = some async })
    r ← uv env (Event.async_init async)
    assert (not (nonzero r))

  -- AE.run with the mutex locked and AE_status STOPPED, up to uv_run.
  unfoldable pub start_engine : ℕ → ℕ → Value → M (Unit {0})
  unfolding load_ubf
  start_engine thread pid callee = do
    modify (λ w. record w { uv_loop = true; thread = some thread; pid = some pid })
    w ← get
    assert (is_stopped w.status)
    load_ae_next_tick_uv_idle env
    load_ae_call_from_other_thread env
    load_ubf
    modify (λ w. record w { status = running })
    ae_next_tick env (callee ∷ []) none
    reqs ← uv env Event.active_reqs
    assert (not (nonzero reqs))

  -- AE.run from the end of uv_run on.
  unfoldable pub finish_engine : M Value
  unfolding run_on_exit raise_captured
  finish_engine = do
    handles ← uv env Event.active_handles
    assert (not (nonzero handles))
    reqs ← uv env Event.active_reqs
    assert (not (nonzero reqs))
    w ← get
    modify (λ w. record w {
      uv_loop = false;
      thread = none;
      pid = none;
      exit_error = qnil;
      status = stopped;
      mutex = none;
      on_exit_procs = [];
    })
    run_on_exit w.exit_error w.on_exit_procs
    raise_captured w.exit_error

  run_locked : ℕ → ℕ → List UvEvent → Value → M Value
  unfolding start_engine uv_run finish_engine
  run_locked thread pid events callee = do
    w ← get
    if not (is_stopped w.status)
        then (unlock_mutex >> pure qnil)
        else do start_engine thread pid callee; uv_run events; finish_engine

  -- AE.run, called by the thread `thread` of the process `pid`.
  unfoldable pub ae_run : ℕ → ℕ → List UvEvent → List Value → Option Value → M Value
  unfolding check_num_args ensure_block_or_proc lock_mutex run_locked same_thread
  ae_run thread pid events argv block = do
    check_num_args 0 1 argv
    callee ← ensure_block_or_proc 1 argv block
    w ← get
    if is_running w.status && not (same_thread pid w.pid)
        then raise
            (engine_error "cannot run AsyncEngine from a forked process while already running")
        else if is_running w.status
        then (do
          if same_thread thread w.thread
              then ae_next_tick env (callee ∷ []) none
              else ae_call_from_other_thread env (callee ∷ []) none
          pure qtrue)
        else do lock_mutex thread; run_locked thread pid events callee
