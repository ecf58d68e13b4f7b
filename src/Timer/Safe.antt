-- ===== src/Timer/Safe.antt =====
-- ext/asyncengine/ae_timer.c: no method of a timer closes a handle twice or keeps a closed one.
use async_engine.Timer.{
  get_cdata, close_handle, set_cdata, init_instance, start_instance, timer_alloc, timer_close,
  timer_new, periodic_timer_new,
}
use async_engine.World.Keeps.{Ends, Leads, Keeps-bind, Keeps-pure, Leads-bind, Leads-if}
use async_engine.Handles.{IsSafe, main_pointer, timeout_pointer}
use async_engine.World.Monad.{M, ◌>>=◌, Env, modify, pure}
use async_engine.World.{Object, Timer, World}
use async_engine.Base.{
  refl, ℕ, ◌≡◌, Option, ap, arith, none, some, sym, ◌∙◌, List, leb, length, not, ◌&&◌,
}
use async_engine.Handles.Actions.{
  Safe, ae_raise_last_uv_error-Safe, uv-Safe, xfree-Safe, ae_check_status-Safe,
  check_uv_handle_is_open-Safe, modify-Safe,
}
use async_engine.HandleCommon.{ae_close_uv_handle, ae_remove_handle, ae_store_handle}
use async_engine.Handles.Objects.{replace_quiet}
use async_engine.Handles.Fresh.{
  Unowned, Unowned-quiet, alloc-Fresh, close_main, forget, take_main, uv-Unowned, place_empty,
}
use async_engine.Ruby.{Value}
use async_engine.Base.Assoc.{update}
use async_engine.Arguments.Keeps.{check_num_args-Keeps, delay_arg-Keeps, ensure_block_or_proc-Keeps}
use async_engine.Base.Int.{nonzero}
use async_engine.Arguments.{argument, is_nil}
use async_engine.Handles.Cells.{Holds}

module _ {A : Type 0} {E P Q : World → Type 0} (self : ℕ) (k : Timer → M A)
    (kk : (c : Timer) → Leads Unit E (Holds self (Object.timer c) P) Q (k c)) where
  read_object :
      (w : World) (x : Object) → w.objects self ≡ x → P w → Ends Unit E Q ((get_cdata self >>= k) w)
  unfolding get_cdata ◌>>=◌
  read_object w (Object.timer c) e s =
      rw (e, get_cdata) ((kk c).at w (record { state = s; object = e }))
  read_object w (Object.udp c) e s = rw (e, get_cdata) tt
  read_object w (Object.tcp c) e s = rw (e, get_cdata) tt
  read_object w Object.absent e s = rw (e, get_cdata) tt

  pub get_cdata-Holds : Leads Unit E P Q (get_cdata self >>= k)
  get_cdata-Holds = record { at = λ w s. read_object w (w.objects self) refl s }

-- The cdata is written with the same handle.
pub set_cdata-Holds :
    (self : ℕ) (c d : Timer)
    → d.uv_handle ≡ c.uv_handle
    → Leads Unit IsSafe
        (Holds self (Object.timer c) IsSafe)
        (Holds self (Object.timer d) IsSafe)
        (set_cdata self d)
unfolding set_cdata modify
set_cdata-Holds self c d e = record {
  at = λ w h. record {
    state =
        replace_quiet w _ self (Object.timer d) h.state
          (record { objects = λ j. refl; next_tick = refl; other_thread = refl; ubf = refl })
          (e ∙ ap main_pointer (sym h.object)) (ap timeout_pointer (sym h.object)) (λ p. refl)
          (omega arith);
    object = ground arith;
  };
}

pub Holds-forget :
    (self : ℕ) (c : Timer) {A : Type 0} (m : M A)
    → Safe m
    → Leads Unit IsSafe (Holds self (Object.timer c) IsSafe) IsSafe m
Holds-forget self c m km = record { at = λ w h. km.at w h.state }

module _ (env : Env) where
  -- The handle is closed and forgotten.
  close_rest :
      (self : ℕ) (c : Timer) (u : Option ℕ)
      → c.uv_handle ≡ u
      → Leads Unit IsSafe (Holds self (Object.timer c) IsSafe) IsSafe (
          ae_close_uv_handle env u >>= λ _. set_cdata self (record c { uv_handle = none }) >>= λ _.
          ae_remove_handle c.ae_handle_id >>= λ _. pure tt)
  unfolding ae_close_uv_handle set_cdata ae_remove_handle ◌>>=◌
  close_rest self c none e = record { at = λ w h. tt }
  close_rest self c (some p) e = record {
    at = λ w h.
        close_main p w _ self (Object.timer (record c { uv_handle = none })) h.state
          (record { objects = λ j. refl; next_tick = refl; other_thread = refl; ubf = refl })
          (omega arith) (λ q. refl) (ap main_pointer h.object ∙ e) refl
          (ap timeout_pointer (sym h.object));
  }

  pub close_handle-Safe : (self : ℕ) → Safe (close_handle env self)
  unfolding close_handle
  close_handle-Safe self = get_cdata-Holds self _ (λ c. close_rest self c c.uv_handle refl)

  -- The cdata of a new timer takes the handle.
  fill_cdata :
      (self p : ℕ) (c d : Timer)
      → d.uv_handle ≡ some p
      → Leads Unit IsSafe (Holds self (Object.timer c) (Unowned p)) IsSafe (set_cdata self d)
  unfolding set_cdata modify
  fill_cdata self p c d e = record {
    at = λ w h.
        take_main p w _ self (Object.timer d) h.state
          (record { objects = λ j. refl; next_tick = refl; other_thread = refl; ubf = refl }) e
          (ap timeout_pointer (sym h.object)) (λ q. refl) (omega arith);
  }

  store_Holds :
      (self p : ℕ) (c : Timer)
      → Leads Unit IsSafe
          (Holds self (Object.timer c) (Unowned p))
          (Holds self (Object.timer c) (Unowned p))
          (ae_store_handle self)
  unfolding ae_store_handle ◌>>=◌
  store_Holds self p c = record {
    at = λ w h. record {
      state = Unowned-quiet p w _ h.state (λ j. refl) refl refl refl (λ q. refl) (omega arith);
      object = h.object;
    };
  }

  set_data-Safe :
      (p self : ℕ) → Safe (modify (λ w. record w { uv_data = update w.uv_data p (some self) }))
  set_data-Safe p self =
      modify-Safe _ (λ w j. refl) (λ w. refl) (λ w. refl) (λ w. refl) (λ w. refl) (λ w. refl)

  start_instance-Safe :
      (self p delay interval : ℕ) → Safe (start_instance env self p delay interval)
  unfolding start_instance
  start_instance-Safe self p delay interval = Keeps-bind _ _ (uv-Safe env _ refl) λ r.
      Leads-if _ _ _
        (λ _. Keeps-bind _ _ (close_handle-Safe self) (λ _. ae_raise_last_uv_error-Safe env))
        (λ _. Keeps-pure tt)

  pub init_instance-Safe :
      (self delay interval : ℕ) (f : Value) → Safe (init_instance env self delay interval f)
  unfolding init_instance
  init_instance-Safe self delay interval f = alloc-Fresh _ λ p.
      Leads-bind _ _ (uv-Unowned p env _ refl) λ r.
        Leads-if (nonzero r) _ _
          (λ _. forget p _ (Keeps-bind _ _ (xfree-Safe p) (λ _. ae_raise_last_uv_error-Safe env)))
          λ _. get_cdata-Holds self _ λ c. Leads-bind _ _ (store_Holds self p c) λ id.
            Leads-bind _ _ (fill_cdata self p c _ refl) λ _.
              Keeps-bind _ _ (set_data-Safe p self) λ _. start_instance-Safe self p delay interval

  pub timer_alloc-Safe : Safe (timer_alloc env)
  unfolding timer_alloc
  timer_alloc-Safe = record {
    at = λ w s.
        place_empty w _ s w.next_object
          (Object.timer (record env.memory_timer { uv_handle = none }))
          (record { objects = λ j. refl; next_tick = refl; other_thread = refl; ubf = refl }) refl
          refl (omega arith) (λ q. refl);
  }

  pub timer_new-Safe : (argv : List Value) (block : Option Value) → Safe (timer_new env argv block)
  unfolding timer_new
  timer_new-Safe argv block = ae_check_status-Safe _ (
      Keeps-bind _ _ (check_num_args-Keeps 1 2 argv) λ _.
        Keeps-bind _ _ (ensure_block_or_proc-Keeps 2 argv block) λ f.
          Keeps-bind _ _ (delay_arg-Keeps _) λ d.
            Keeps-bind _ _ timer_alloc-Safe
              λ self. Keeps-bind _ _ (init_instance-Safe self d 0 f) λ _. Keeps-pure _)

  pub periodic_timer_new-Safe :
      (argv : List Value) (block : Option Value) → Safe (periodic_timer_new env argv block)
  unfolding periodic_timer_new
  periodic_timer_new-Safe argv block = ae_check_status-Safe _ (
      Keeps-bind _ _ (check_num_args-Keeps 1 3 argv) λ _.
        Keeps-bind _ _ (ensure_block_or_proc-Keeps 3 argv block) λ f.
          Keeps-bind _ _ (delay_arg-Keeps _) λ i.
            Keeps-bind _ _
              (Leads-if (leb 2 (length argv) && not (is_nil (argument argv 1))) _ _
                (λ _. delay_arg-Keeps _) (λ _. Keeps-pure i))
              λ d.
                Keeps-bind _ _ timer_alloc-Safe
                  λ self. Keeps-bind _ _ (init_instance-Safe self d i f) λ _. Keeps-pure _)

  pub timer_close-Safe : (self : ℕ) → Safe (timer_close env self)
  unfolding timer_close
  timer_close-Safe self = get_cdata-Holds self _ λ c. Holds-forget self c _ (
      check_uv_handle_is_open-Safe _ _
        λ p. Keeps-bind _ _ (close_handle-Safe self) λ _. Keeps-pure _)
