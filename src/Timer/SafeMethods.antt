-- ===== src/Timer/SafeMethods.antt =====
-- ext/asyncengine/ae_timer.c: the handles are safe under the methods of a timer.
use async_engine.World.Monad.{Env, M, pure, uv, ◌>>=◌, modify}
use async_engine.World.{Event, Timer, World, Object}
use async_engine.Timer.Safe.{
  Holds-forget, close_handle-Safe, get_cdata-Holds, set_cdata-Holds, periodic_timer_new-Safe,
  timer_close-Safe, timer_new-Safe,
}
use async_engine.Handles.{IsSafe}
use async_engine.World.Keeps.{
  Keeps-bind, Keeps-pure, Leads, Leads-bind, Leads-if, Leads-pure, Leads-raised, Ends,
}
use async_engine.Base.{
  List, if◌then◌else◌, refl, ℕ, ◌≡◌, Option, leb, length, none, not, some, ◌&&◌, ◌==◌,
}
use async_engine.Handles.Actions.{
  Safe, ae_raise_last_uv_error-Safe, check_uv_handle_is_open-Safe, uv-Safe,
}
use async_engine.Ruby.{Value, qtrue, qfalse}
use async_engine.HandleCommon.{ae_raise_last_uv_error, check_uv_handle_is_open}
use async_engine.Base.Int.{nonzero}
use async_engine.Timer.{
  set_cdata, timer_destroy, timer_pause, timer_restart, periodic_timer_restart, restart_args,
  periodic_timer_new, timer_close, timer_new,
}
use async_engine.Arguments.{argument, is_nil}
use async_engine.Arguments.Keeps.{check_num_args-Keeps, delay_arg-Keeps}
use async_engine.Handles.Cells.{Holds}

module _ (env : Env) where
  pub timer_pause-Safe : (self : ℕ) → Safe (timer_pause env self)
  unfolding timer_pause
  timer_pause-Safe self = get_cdata-Holds self _ λ c. Holds-forget self c _ (
      check_uv_handle_is_open-Safe _ _ λ p.
        Keeps-bind _ _ (uv-Safe env (Event.timer_stop p) refl)
          λ r. Leads-if (nonzero r) _ _ (λ _. ae_raise_last_uv_error-Safe env) (λ _. Keeps-pure _))

  pub timer_destroy-Safe : (self : ℕ) → Safe (timer_destroy env self)
  unfolding timer_destroy
  timer_destroy-Safe self = get_cdata-Holds self _ λ c. Holds-forget self c _ (
      check_uv_handle_is_open-Safe _ _
        λ p. Keeps-bind _ _ (close_handle-Safe env self) λ _. Keeps-pure _)

  start_again :
      (p delay interval : ℕ)
      → Safe (
          uv env (Event.timer_start p delay interval) >>= λ r.
          if nonzero r then ae_raise_last_uv_error env else pure qtrue)
  start_again p delay interval =
      Keeps-bind _ _ (uv-Safe env (Event.timer_start p delay interval) refl)
        λ r. Leads-if (nonzero r) _ _ (λ _. ae_raise_last_uv_error-Safe env) (λ _. Keeps-pure _)

  reads :
      (self : ℕ) (c : Timer) {A : Type 0} (m : M A)
      → Leads Unit
          (Holds self (Object.timer c) IsSafe)
          (Holds self (Object.timer c) IsSafe)
          (Holds self (Object.timer c) IsSafe)
          m
      → Leads Unit IsSafe
          (Holds self (Object.timer c) IsSafe)
          (Holds self (Object.timer c) IsSafe)
          m
  reads self c m km = Leads-raised m (λ w h. h.state) km

  check_open :
      (self : ℕ) (c : Timer) (k : ℕ → M Value)
      → ((p : ℕ) → Leads Unit IsSafe (Holds self (Object.timer c) IsSafe) IsSafe (k p))
      → Leads Unit IsSafe
          (Holds self (Object.timer c) IsSafe)
          IsSafe
          (check_uv_handle_is_open c.uv_handle k)
  unfolding check_uv_handle_is_open
  check_open self c k kk = opened c.uv_handle
    where
      opened :
          (h : Option ℕ)
          → Leads Unit IsSafe
              (Holds self (Object.timer c) IsSafe)
              IsSafe
              (check_uv_handle_is_open h k)
      opened none = Leads-pure qfalse (λ w h. h.state)
      opened (some p) = kk p

  store_delay :
      (self : ℕ) (c d : Timer) {A : Type 0} (m : M A)
      → d.uv_handle ≡ c.uv_handle
      → Safe m
      → Leads Unit IsSafe (Holds self (Object.timer c) IsSafe) IsSafe (set_cdata self d >>= λ _. m)
  store_delay self c d m e km =
      Leads-bind _ _ (set_cdata-Holds self c d e) λ _. Holds-forget self d m km

  pub timer_restart-Safe : (self : ℕ) (argv : List Value) → Safe (timer_restart env self argv)
  unfolding timer_restart
  timer_restart-Safe self argv = get_cdata-Holds self _ λ c. check_open self c _ λ p.
      Leads-bind _ _ (reads self c _ (check_num_args-Keeps 0 1 argv)) λ _.
        Leads-bind _ _
          (Leads-if ((length argv == 1) && not (is_nil (argument argv 0))) _ _
            (λ _. reads self c _ (delay_arg-Keeps (argument argv 0)))
            (λ _. reads self c _ (Keeps-pure c.delay)))
          λ delay. store_delay self c (record c { delay = delay }) _ refl (start_again p delay 0)

  restart_args-Safe :
      (self : ℕ) (c : Timer) (argv : List Value)
      → Leads Unit IsSafe (Holds self (Object.timer c) IsSafe) IsSafe (restart_args env self c argv)
  unfolding restart_args modify ◌>>=◌
  restart_args-Safe self c argv =
      Leads-if (leb 1 (length argv) && not (is_nil (argument argv 0))) _ _
        (λ _. Leads-bind _ _ (reads self c _ (delay_arg-Keeps (argument argv 0))) λ i.
          Leads-bind _ _ (set_cdata-Holds self c (record c { interval = i }) refl) λ _.
            Leads-bind _ _
              (Leads-if ((length argv == 2) && not (is_nil (argument argv 1))) _ _
                (λ _. reads self _ _ (delay_arg-Keeps (argument argv 1)))
                (λ _. reads self _ _ (Keeps-pure i)))
              λ d.
                store_delay self _ (record c { interval = i; delay = d }) (pure tt) refl
                  (Keeps-pure tt))
        (λ _. Holds-forget self c _ (Keeps-pure tt))

  pub periodic_timer_restart-Safe :
      (self : ℕ) (argv : List Value) → Safe (periodic_timer_restart env self argv)
  unfolding periodic_timer_restart
  periodic_timer_restart-Safe self argv = get_cdata-Holds self _ λ c. check_open self c _ λ p.
      Leads-bind _ _ (reads self c _ (check_num_args-Keeps 0 2 argv)) λ _.
        Leads-bind _ _ (restart_args-Safe self c argv)
          λ _. get_cdata-Holds self _ λ d. Holds-forget self d _ (start_again p d.delay d.interval)

  -- No handle is closed twice: in a state where no handle was closed twice and each pointer that the
  -- extension holds is an unclosed handle that no other pointer holds, Timer.new, PeriodicTimer.new,
  -- pause, both restarts, close and destroy, with any arguments and any answers of libuv, end in such a
  -- state, also where they raise, unless they end the process.
  pub timer-IsSafe :
      (self : ℕ) (argv : List Value) (block : Option Value) (w : World)
      → IsSafe w
      → Ends Unit IsSafe IsSafe (timer_new env argv block w)
        × Ends Unit IsSafe IsSafe (periodic_timer_new env argv block w)
        × Ends Unit IsSafe IsSafe (timer_pause env self w)
        × Ends Unit IsSafe IsSafe (timer_restart env self argv w)
        × Ends Unit IsSafe IsSafe (periodic_timer_restart env self argv w)
        × Ends Unit IsSafe IsSafe (timer_close env self w)
        × Ends Unit IsSafe IsSafe (timer_destroy env self w)
  timer-IsSafe self argv block w s = (
    (timer_new-Safe env argv block).at w s,
    (periodic_timer_new-Safe env argv block).at w s,
    (timer_pause-Safe self).at w s,
    (timer_restart-Safe self argv).at w s,
    (periodic_timer_restart-Safe self argv).at w s,
    (timer_close-Safe env self).at w s,
    (timer_destroy-Safe self).at w s,
  )
