-- ===== src/Handles/Actions.antt =====
-- The actions that the components share keep the handles safe.
use async_engine.Base.{ℕ, ◌≡◌, refl, ◌∷◌, Bool, true, false, arith, Option, none, some, ap}
use async_engine.World.{World, Event, AeStatus, Request, releasing, running, stopped}
use async_engine.World.Monad.{
  M, Run, ok, crash, Env, uv, alloc, assert, handle_data, raised, request_data, set_request_data,
  xfree, ◌>>=◌, modify,
}
use async_engine.World.Keeps.{Keeps, Ends, Keeps-pure, keeps_rules, Leads, Leads-bind, Leads-raise}
use async_engine.Handles.{IsSafe, closes}
use async_engine.Handles.Objects.{quiet}
use async_engine.Ruby.{Value, error, not_running_error, qfalse}
use async_engine.HandleCommon.{
  ae_check_status, ae_raise_last_uv_error, ae_remove_handle, ae_remove_proc, ae_store_handle,
  ae_store_proc, check_uv_handle_is_open, raise_value, ae_get_last_uv_error,
}

-- From safe states to safe states, where the process lives.
abbrev pub Safe : {A : Type 0} → M A → Type 0
Safe = Keeps Unit IsSafe

abbrev pub is_close : Event → Bool
is_close (Event.close p) = true
is_close _ = false

pub closes_other :
    (q : ℕ) (c : Event) (w : World) → is_close c ≡ false → closes q (c ∷ w.trace) ≡ closes q w.trace
closes_other q (Event.close p) w h = cc
closes_other q _ w h = refl

module _ (env : Env) where
  pub uv-Safe : (c : Event) → is_close c ≡ false → Safe (uv env c)
  unfolding uv
  uv-Safe c h = record {
    at = λ w s. quiet w _ s (λ j. refl) refl refl refl (λ p. closes_other p c w h) (omega arith);
  }

pub alloc-Safe : Safe alloc
unfolding alloc
alloc-Safe = record { at = λ w s. quiet w _ s (λ j. refl) refl refl refl (λ p. refl) (omega arith) }

pub xfree-Safe : (p : ℕ) → Safe (xfree p)
unfolding xfree
xfree-Safe p = record {
  at = λ w s. quiet w _ s (λ j. refl) refl refl refl (λ p. refl) (omega arith);
}

-- A change of what no handle stands in.
pub modify-Safe :
    (f : World → World)
    → ((w : World) (j : ℕ) → (f w).objects j ≡ w.objects j)
    → ((w : World) → (f w).next_tick_uv_idle ≡ w.next_tick_uv_idle)
    → ((w : World) → (f w).call_from_other_thread_uv_async ≡ w.call_from_other_thread_uv_async)
    → ((w : World) → (f w).ubf_uv_async ≡ w.ubf_uv_async)
    → ((w : World) → (f w).trace ≡ w.trace)
    → ((w : World) → (f w).next_pointer ≡ w.next_pointer)
    → Safe (modify f)
unfolding modify
modify-Safe f o i c u t n = record {
  at = λ w s. quiet w _ s (o w) (i w) (c w) (u w) (λ q. ap (closes q) (t w)) (omega (arith, n w));
}

pub assert-Safe : (b : Bool) → Safe (assert b)
unfolding assert
assert-Safe true = record { at = λ w s. s }
assert-Safe false = record { at = λ w s. tt }

pub handle_data-Safe : (p : ℕ) → Safe (handle_data p)
unfolding handle_data
handle_data-Safe p = record { at = λ w s. go w s (w.uv_data p) }
  where
    go :
        (w : World)
        → IsSafe w
        → (d : Option ℕ)
        → Ends Unit IsSafe IsSafe (elim d as (λ _. Run ℕ) [ none ↦ crash | some self ↦ ok self w ])
    go w s none = tt
    go w s (some self) = s

pub request_data-Safe : (r : ℕ) → Safe (request_data r)
unfolding request_data
request_data-Safe r = record { at = λ w s. go w s (w.requests r) }
  where
    go :
        (w : World)
        → IsSafe w
        → (d : Option Request)
        → Ends Unit IsSafe IsSafe (elim d as (λ _. Run Request) [ none ↦ crash | some x ↦ ok x w ])
    go w s none = tt
    go w s (some x) = s

pub set_request_data-Safe : (r : ℕ) (d : Request) → Safe (set_request_data r d)
unfolding set_request_data
set_request_data-Safe r d = record {
  at = λ w s. quiet w _ s (λ j. refl) refl refl refl (λ p. refl) (omega arith);
}

pub ae_store_handle-Safe : (self : ℕ) → Safe (ae_store_handle self)
unfolding ae_store_handle ◌>>=◌
ae_store_handle-Safe self = record {
  at = λ w s. quiet w _ s (λ j. refl) refl refl refl (λ p. refl) (omega arith);
}

pub ae_remove_handle-Safe : (id : ℕ) → Safe (ae_remove_handle id)
unfolding ae_remove_handle ◌>>=◌
ae_remove_handle-Safe id = record {
  at = λ w s. quiet w _ s (λ j. refl) refl refl refl (λ p. refl) (omega arith);
}

pub ae_store_proc-Safe : (v : Value) → Safe (ae_store_proc v)
unfolding ae_store_proc ◌>>=◌
ae_store_proc-Safe v = record {
  at = λ w s. quiet w _ s (λ j. refl) refl refl refl (λ p. refl) (omega arith);
}

pub ae_remove_proc-Safe : (id : ℕ) → Safe (ae_remove_proc id)
unfolding ae_remove_proc ◌>>=◌
ae_remove_proc-Safe id = record {
  at = λ w s. quiet w _ s (λ j. refl) refl refl refl (λ p. refl) (omega arith);
}

-- The checks before a method's body.
pub ae_check_status-Safe : (m : M Value) → Safe m → Safe (ae_check_status m)
unfolding ae_check_status
ae_check_status-Safe m km = record { at = λ w s. go w s w.status }
  where
    go :
        (w : World)
        → IsSafe w
        → (a : AeStatus)
        → Ends Unit IsSafe IsSafe (elim a as (λ _. Run Value) [
          | running ↦ m w
          | releasing ↦ ok qfalse w
          | stopped ↦ raised (not_running_error "AsyncEngine is not running") w
        ])
    go w s running = km.at w s
    go w s releasing = s
    go w s stopped = s

pub check_uv_handle_is_open-Safe :
    (h : Option ℕ) (k : ℕ → M Value) → ((p : ℕ) → Safe (k p)) → Safe (check_uv_handle_is_open h k)
unfolding check_uv_handle_is_open
check_uv_handle_is_open-Safe none k kk = Keeps-pure qfalse
check_uv_handle_is_open-Safe (some p) k kk = kk p

module _ (env : Env) {C A : Type 0} {P Q : World → Type 0} where
  raise_value-Raises : (v : Value) → Leads C P P Q (raise_value env {A = A} v)
  unfolding raise_value
  raise_value-Raises (error e) = Leads-raise e (λ w h. h)
  raise_value-Raises _ = Leads-raise _ (λ w h. h)

  -- What never returns, returns in any state.
  pub ae_raise_last_uv_error-Raises : Leads C P P Q (ae_raise_last_uv_error env {A = A})
  unfolding ae_raise_last_uv_error
  ae_raise_last_uv_error-Raises = Leads-bind _ _ last_error λ e. raise_value-Raises e
    where
      last_error : Leads C P P P (ae_get_last_uv_error env)
      last_error = search keeps_rules

pub ae_raise_last_uv_error-Safe :
    (env : Env) {A : Type 0} → Safe (ae_raise_last_uv_error env {A = A})
ae_raise_last_uv_error-Safe env = ae_raise_last_uv_error-Raises env
