-- ===== src/Tcp/SafeConnect.antt =====
-- ext/asyncengine/ae_tcp.c: the end of a connection attempt keeps the handles safe, where the socket
-- behind the handle of the event has that handle as its own unless it was closed.
use async_engine.World.Keeps.{Ends, Leads, Leads-bind, Leads-if, Leads-pure, Keeps-pure}
use async_engine.World.Monad.{Env, M, assert, modify, xfree, ◌>>=◌, pure, uv}
use async_engine.Handles.Cells.{
  Holds, assert_known, From, alloc_known, close_put, release, uv_known,
}
use async_engine.Handles.{IsSafe, closes, main_pointer, timeout_pointer}
use async_engine.World.{Object, Tcp, World, Event}
use async_engine.Base.{
  Option, ap, arith, is_some, none, refl, some, sym, ℕ, ◌<◌, ◌∙◌, ◌≡◌, ◌⊎◌, Bool, List, false,
  if◌then◌else◌, inl, inr, not, true, ◌∷◌,
}
use async_engine.Tcp.{ae_cancel_timer_connect_timeout, cancel_if_set, set_cdata}
use async_engine.HandleCommon.{ae_close_uv_handle}
use async_engine.Handles.Fresh.{close_timeout}
use async_engine.Tcp.Safe.{get_cdata-Holds, set_cdata_done}
use async_engine.Handles.Actions.{xfree-Safe, uv-Safe}
use async_engine.Base.Int.{nonzero, ℤ}
use async_engine.Tcp.Callbacks.{connect_done, shut_down, shutdown_asserted, shutdown_own}

-- The socket `self` has `handle` as its own, or `handle` was closed.
pub record Linked (self handle : ℕ) (w : World) : Type 0 where
  pub safe : IsSafe w
  pub link : (0 < closes handle w.trace) ⊎ (main_pointer (w.objects self) ≡ some handle)

module _ (self handle : ℕ) where
  abbrev Linking : {A : Type 0} → M A → Type 0
  Linking = Leads Unit IsSafe (Linked self handle) (Linked self handle)

  pub xfree-Linked : (p : ℕ) → Linking (xfree p)
  unfolding xfree
  xfree-Linked p = record {
    at = λ w h. record { safe = (xfree-Safe p).at w h.safe; link = h.link };
  }

module _ (env : Env) (self handle : ℕ) where
  -- The timer of the connection is cancelled, and the socket keeps its handle.
  cancelled :
      (w : World) (c : Tcp) (u : Option ℕ)
      → Holds self (Object.tcp c) (Linked self handle) w
      → c.timer_connect_timeout ≡ u
      → Ends Unit IsSafe (Linked self handle) (
          (ae_close_uv_handle env u >>= λ _.
          set_cdata self (record c { timer_connect_timeout = none }))
            w)
  unfolding ae_close_uv_handle set_cdata modify ◌>>=◌
  cancelled w c none h e = tt
  cancelled w c (some t) h e = record {
    safe =
        close_timeout t w _ self (Object.tcp (record c { timer_connect_timeout = none }))
          h.state.safe
          (record { objects = λ j. refl; next_tick = refl; other_thread = refl; ubf = refl })
          (omega arith) (λ q. refl) (ap timeout_pointer h.object ∙ e) refl
          (ap main_pointer (sym h.object));
    link = elim h.state.link [
      | inl a ↦ inl (ground arith)
      | inr b ↦ inr (ground (arith, ap main_pointer (sym h.object) ∙ b))
    ];
  }

  pub cancel_if_set-Linked :
      Leads Unit IsSafe (Linked self handle) (Linked self handle) (cancel_if_set env self)
  unfolding cancel_if_set ae_cancel_timer_connect_timeout
  cancel_if_set-Linked = get_cdata-Holds self _ λ c.
      Leads-if (is_some c.timer_connect_timeout) _ _
        (λ _. record { at = λ w h. cancel_run.at w h.state }) (λ _. Leads-pure tt (λ w h. h.state))
    where
      cancel_run :
          Leads Unit IsSafe
            (Linked self handle)
            (Linked self handle)
            (ae_cancel_timer_connect_timeout env self)
      cancel_run = get_cdata-Holds self _ λ c.
          Leads-bind (assert (is_some c.timer_connect_timeout)) _ (assert_known _)
            λ _. record { at = λ w h. cancelled w c c.timer_connect_timeout h refl }

-- What libuv documents of uv_is_closing: it is not zero for a handle given to uv_close.
abbrev pub ReportsClosing : Env → Type 0
ReportsClosing env =
    (t : List Event) (p : ℕ) → 0 < closes p t → nonzero (env.uv t (Event.is_closing p)) ≡ true

contradiction : {b : Bool} → b ≡ true → b ≡ false → ⊥
contradiction h k = cc

module _ (env : Env) (uv_eof uv_etimedout : ℤ) (reports : ReportsClosing env)
    (self handle : ℕ) where
  module _ (c : Tcp) where
    abbrev failed : M (Unit {0})
    failed =
        ae_close_uv_handle env (some handle) >>= λ _. set_cdata self (record c { uv_handle = none })

    -- The handle of a failed connection is closed if nobody closed it.
    close_failed :
        (w : World) (b : Bool)
        → Holds self (Object.tcp c) (Linked self handle) w
        → nonzero (env.uv w.trace (Event.is_closing handle)) ≡ b
        → Ends Unit IsSafe IsSafe (
            (if not b then failed else pure tt)
              (record w { trace = Event.is_closing handle ∷ w.trace }))
    unfolding set_cdata modify pure ◌>>=◌
    close_failed w true h e = (uv-Safe env (Event.is_closing handle) refl).at w h.state.safe
    close_failed w false h e = elim h.state.link [
      | inl a ↦ absurd (contradiction (reports w.trace handle a) e)
      | inr b ↦
          (close_put env self (Object.tcp c) (Object.tcp (record c { uv_handle = none })) (pure tt)
              (release self _ _ (Keeps-pure tt)) (some handle) (ap main_pointer (sym h.object) ∙ b)
              refl refl).at
            _
            (record {
              state = (uv-Safe env (Event.is_closing handle) refl).at w h.state.safe;
              object = h.object;
            })
    ]

    failed_connection : Leads Unit IsSafe (Holds self (Object.tcp c) (Linked self handle)) IsSafe (
        uv env (Event.is_closing handle) >>= λ closing.
        if not (nonzero closing) then failed else pure tt)
    unfolding uv ◌>>=◌
    failed_connection = record { at = λ w h. close_failed w _ h refl }

  -- The same predicate from where the socket's link to the handle does not matter any more.
  unlinked :
      (c : Tcp) {A : Type 0} {Q : World → Type 0} (m : M A)
      → From self (Object.tcp c) Q m
      → Leads Unit IsSafe (Holds self (Object.tcp c) (Linked self handle)) Q m
  unlinked c m km = record {
    at = λ w h. km.at w (record { state = h.state.safe; object = h.object });
  }

  shutdown_own_known :
      (x : Object) (u : Option ℕ)
      → From self x (Holds self x IsSafe) (shutdown_own env uv_eof uv_etimedout u)
  unfolding shutdown_own shutdown_asserted shut_down
  shutdown_own_known x none = record { at = λ w h. tt }
  shutdown_own_known x (some p) = Leads-bind _ _ (uv_known self x env _ refl) λ stopped.
      Leads-bind _ _ (assert_known _) λ _.
        Leads-bind _ _ (alloc_known self x)
          λ req. Leads-bind _ _ (uv_known self x env _ refl) λ r. assert_known _

  pub connect_done-Safe :
      (status : ℤ)
      → Leads Unit IsSafe
          (Linked self handle)
          IsSafe
          (connect_done env uv_eof uv_etimedout handle self status)
  unfolding connect_done set_cdata
  connect_done-Safe status = get_cdata-Holds self _ λ c.
      Leads-if (not (nonzero status)) _ _
        (λ _. unlinked c _ (
          Leads-bind _ _
            (Leads-if c.flags.shutdown_requested _ _
              (λ _. shutdown_own_known (Object.tcp c) c.uv_handle)
              (λ _. Leads-bind _ _ (uv_known self (Object.tcp c) env _ refl) λ r. assert_known _))
            λ _. set_cdata_done self c _ refl refl))
        (λ _. failed_connection c)
