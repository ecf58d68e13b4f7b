-- ===== src/Timer.antt =====
-- ext/asyncengine/ae_timer.c: Timer and PeriodicTimer, but for the callback of libuv, which
-- Timer/Fire.antt has.
pub mod Fire
pub mod Safe
pub mod SafeMethods
pub mod Close
use async_engine.Base.{
  ℕ, suc, ◌+◌, ◌*◌, not, ◌&&◌, List, Option, none, some, leb, ◌==◌, if◌then◌else◌, length,
}
use async_engine.Base.Assoc.{update}
use async_engine.Base.Int.{ℤ, pos, negsuc, nonzero}
use async_engine.Ruby.{Value, qtrue, float, object}
use async_engine.Arguments.{check_num_args, ensure_block_or_proc, delay_arg, argument, is_nil}
use async_engine.World.{Timer, Object, Event}
use async_engine.World.Monad.{M, ok, crash, pure, modify, ◌>>=◌, ◌>>◌, Env, uv, alloc, xfree}
use async_engine.HandleCommon.{
  ae_store_handle, ae_remove_handle, ae_check_status, check_uv_handle_is_open, ae_close_uv_handle,
  ae_raise_last_uv_error, ae_proc_call_0,
}

-- Data_Get_Struct of a Timer.
unfoldable pub get_cdata : ℕ → M Timer
get_cdata self w = elim (w.objects self) [ Object.timer cdata ↦ ok cdata w | _ ↦ crash ]

unfoldable pub set_cdata : ℕ → Timer → M (Unit {0})
set_cdata self cdata =
    modify (λ w. record w { objects = update w.objects self (Object.timer cdata) })

-- A number of milliseconds, divided by 1000.0.
abbrev pub float_of_millis : ℤ → Value
float_of_millis (pos n) = float (pos (n * 1000))
float_of_millis (negsuc n) = float (negsuc (n * 1000 + 999))

module _ (env : Env) where
  -- AsyncEngineTimer_alloc.
  unfoldable pub timer_alloc : M ℕ
  timer_alloc w = ok w.next_object (record w {
    next_object = suc w.next_object;
    objects =
        update w.objects w.next_object
          (Object.timer (record env.memory_timer { uv_handle = none }));
  })

  unfoldable pub close_handle : ℕ → M (Unit {0})
  unfolding get_cdata set_cdata ae_close_uv_handle ae_remove_handle
  close_handle self = do
    cdata ← get_cdata self
    ae_close_uv_handle env cdata.uv_handle
    set_cdata self (record cdata { uv_handle = none })
    ae_remove_handle cdata.ae_handle_id
    pure tt

  -- The last part of init_instance: run the timer.
  unfoldable pub start_instance : ℕ → ℕ → ℕ → ℕ → M (Unit {0})
  unfolding close_handle ae_raise_last_uv_error
  start_instance self uv_handle delay interval = do
    r ← uv env (Event.timer_start uv_handle delay interval)
    if nonzero r then (close_handle self >> ae_raise_last_uv_error env) else pure tt

  unfoldable pub init_instance : ℕ → ℕ → ℕ → Value → M (Unit {0})
  unfolding get_cdata set_cdata ae_store_handle start_instance ae_raise_last_uv_error
  init_instance self delay interval on_fire = do
    uv_handle ← alloc
    r ← uv env (Event.timer_init uv_handle)
    if nonzero r then (xfree uv_handle >> ae_raise_last_uv_error env) else do
      cdata ← get_cdata self
      ae_handle_id ← ae_store_handle self
      set_cdata self (record {
        uv_handle = some uv_handle;
        periodic = not (interval == 0);
        delay = delay;
        interval = interval;
        ae_handle_id = ae_handle_id;
        on_fire_proc = on_fire;
      })
      modify (λ w. record w { uv_data = update w.uv_data uv_handle (some self) })
      start_instance self uv_handle delay interval

  -- Timer.new.
  unfoldable pub timer_new : List Value → Option Value → M Value
  unfolding ae_check_status check_num_args ensure_block_or_proc delay_arg timer_alloc init_instance
  timer_new argv block = ae_check_status do
    check_num_args 1 2 argv
    on_fire ← ensure_block_or_proc 2 argv block
    delay ← delay_arg (argument argv 0)
    instance' ← timer_alloc
    init_instance instance' delay 0 on_fire
    pure (object instance')

  -- PeriodicTimer.new.
  unfoldable pub periodic_timer_new : List Value → Option Value → M Value
  unfolding ae_check_status check_num_args ensure_block_or_proc delay_arg timer_alloc init_instance
  periodic_timer_new argv block = ae_check_status do
    check_num_args 1 3 argv
    on_fire ← ensure_block_or_proc 3 argv block
    interval ← delay_arg (argument argv 0)
    delay ←
        if leb 2 (length argv) && not (is_nil (argument argv 1))
        then delay_arg (argument argv 1)
        else pure interval
    instance' ← timer_alloc
    init_instance instance' delay interval on_fire
    pure (object instance')

  -- _ae_timer_callback: a timer that is not periodic is closed before its proc runs.
  unfoldable pub ae_timer_callback : ℕ → M Value
  unfolding get_cdata close_handle ae_proc_call_0
  ae_timer_callback self = do
    cdata ← get_cdata self
    if cdata.periodic then pure tt else close_handle self
    ae_proc_call_0 env cdata.on_fire_proc

  -- Timer#pause.
  unfoldable pub timer_pause : ℕ → M Value
  unfolding get_cdata check_uv_handle_is_open ae_raise_last_uv_error
  timer_pause self = do
    cdata ← get_cdata self
    check_uv_handle_is_open cdata.uv_handle λ uv_handle. do
      r ← uv env (Event.timer_stop uv_handle)
      if nonzero r then ae_raise_last_uv_error env else pure qtrue

  -- Timer#restart.
  unfoldable pub timer_restart : ℕ → List Value → M Value
  unfolding get_cdata set_cdata check_uv_handle_is_open check_num_args delay_arg
      ae_raise_last_uv_error
  timer_restart self argv = do
    cdata ← get_cdata self
    check_uv_handle_is_open cdata.uv_handle λ uv_handle. do
      check_num_args 0 1 argv
      delay ←
          if (length argv == 1) && not (is_nil (argument argv 0))
          then delay_arg (argument argv 0)
          else pure cdata.delay
      set_cdata self (record cdata { delay = delay })
      r ← uv env (Event.timer_start uv_handle delay 0)
      if nonzero r then ae_raise_last_uv_error env else pure qtrue

  -- The arguments of PeriodicTimer#restart. The interval is stored before the delay is read.
  unfoldable pub restart_args : ℕ → Timer → List Value → M (Unit {0})
  unfolding delay_arg set_cdata
  restart_args self cdata argv =
      if leb 1 (length argv) && not (is_nil (argument argv 0))
      then (do
        interval ← delay_arg (argument argv 0)
        set_cdata self (record cdata { interval = interval })
        delay ←
            if (length argv == 2) && not (is_nil (argument argv 1))
            then delay_arg (argument argv 1)
            else pure interval
        set_cdata self (record cdata { interval = interval; delay = delay }))
      else pure tt

  -- PeriodicTimer#restart.
  unfoldable pub periodic_timer_restart : ℕ → List Value → M Value
  unfolding get_cdata check_uv_handle_is_open check_num_args restart_args ae_raise_last_uv_error
  periodic_timer_restart self argv = do
    cdata ← get_cdata self
    check_uv_handle_is_open cdata.uv_handle λ uv_handle. do
      check_num_args 0 2 argv
      restart_args self cdata argv
      changed ← get_cdata self
      r ← uv env (Event.timer_start uv_handle changed.delay changed.interval)
      if nonzero r then ae_raise_last_uv_error env else pure qtrue

  -- PeriodicTimer#interval; libuv keeps the interval and answers with it.
  unfoldable pub periodic_timer_interval : ℕ → M Value
  unfolding get_cdata check_uv_handle_is_open
  periodic_timer_interval self = do
    cdata ← get_cdata self
    check_uv_handle_is_open cdata.uv_handle λ uv_handle. do
      repeat ← uv env (Event.timer_get_repeat uv_handle)
      pure (float_of_millis repeat)

  -- Timer#delay.
  unfoldable pub timer_delay : ℕ → M Value
  unfolding get_cdata check_uv_handle_is_open
  timer_delay self = do
    cdata ← get_cdata self
    check_uv_handle_is_open cdata.uv_handle λ uv_handle. pure (float_of_millis (pos cdata.delay))

  -- Timer#alive?.
  unfoldable pub timer_is_alive : ℕ → M Value
  unfolding get_cdata check_uv_handle_is_open
  timer_is_alive self = do
    cdata ← get_cdata self
    check_uv_handle_is_open cdata.uv_handle λ uv_handle. pure qtrue

  -- Timer#close, and stop.
  unfoldable pub timer_close : ℕ → M Value
  unfolding get_cdata check_uv_handle_is_open close_handle
  timer_close self = do
    cdata ← get_cdata self
    check_uv_handle_is_open cdata.uv_handle λ uv_handle. close_handle self >> pure qtrue

  -- Timer#destroy.
  unfoldable pub timer_destroy : ℕ → M Value
  unfolding get_cdata check_uv_handle_is_open close_handle
  timer_destroy self = do
    cdata ← get_cdata self
    check_uv_handle_is_open cdata.uv_handle λ uv_handle. close_handle self >> pure qtrue
