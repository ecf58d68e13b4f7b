-- ===== src/Tcp/SafeCallbacks.antt =====
-- ext/asyncengine/ae_tcp.c: the callbacks keep the handles safe.
use async_engine.World.Monad.{Callback, Env, M, handle_data, ◌>>=◌}
use async_engine.World.Keeps.{Ends, Keeps-bind, Keeps-pure, Leads, Leads-bind, Leads-if}
use async_engine.Handles.{IsSafe, main_pointer}
use async_engine.Tcp.SafeConnect.{
  Linked, ReportsClosing, cancel_if_set-Linked, connect_done-Safe, xfree-Linked,
}
use async_engine.Base.{List, Option, none, not, refl, some, ℕ, ◌≡◌}
use async_engine.World.{Request, World, getaddrinfo_data, send_data, write_data}
use async_engine.Handles.Actions.{
  Safe, ae_remove_handle-Safe, handle_data-Safe, request_data-Safe, xfree-Safe,
}
use async_engine.Ruby.{Value, qnil}
use async_engine.Tcp.Callbacks.{
  ae_connect_callback, ae_read_data, ae_read_error, ae_write_callback, free_base, free_write_data,
  read_data, run_on_write, uv_connect_callback, uv_write_callback,
}
use async_engine.Release.SafeCalls.{
  ae_get_last_uv_error-Safe, ae_get_uv_error-Safe, ae_proc_call_1-Safe, guarded,
}
use async_engine.Tcp.Safe.{get_cdata-Holds}
use async_engine.Base.Int.{nonzero, ℤ}
use async_engine.Handles.Cells.{release}

-- The handle of an event on a connection: the socket behind it has it as its own, or it was closed.
abbrev pub IsLinked : ℕ → World → Type 0
IsLinked handle w = (self : ℕ) → w.uv_data handle ≡ some self → Linked self handle w

-- The handle of an event on a stream that is read.
abbrev pub IsOwned : ℕ → World → Type 0
IsOwned handle w =
    (self : ℕ) → w.uv_data handle ≡ some self → main_pointer (w.objects self) ≡ some handle

module _ {A : Type 0} {E Q : World → Type 0} {R : ℕ → World → Type 0} (handle : ℕ) (k : ℕ → M A)
    (kk : (self : ℕ) → Leads Unit E (R self) Q (k self)) where
  -- An action that begins with the socket behind a handle.
  pub from_handle :
      (w : World) (u : Option ℕ)
      → w.uv_data handle ≡ u
      → ((self : ℕ) → w.uv_data handle ≡ some self → R self w)
      → Ends Unit E Q ((handle_data handle >>= k) w)
  unfolding handle_data ◌>>=◌
  from_handle w none e r = rw (e, handle_data) tt
  from_handle w (some self) e r = rw (e, handle_data) ((kk self).at w (r self e))

module _ (env : Env) (uv_eof uv_etimedout : ℤ)
    (ruby-Safe : (c : Callback) → Safe (env.ruby c)) where
  ae_connect_callback-Safe :
      (self : ℕ) (status : ℤ) → Safe (ae_connect_callback env uv_eof uv_etimedout self status)
  unfolding ae_connect_callback
  ae_connect_callback-Safe self status = get_cdata-Holds self _ λ c. release self _ _ (
      Leads-if (not (nonzero status)) _ _ (λ _. ruby-Safe _)
        λ _. Keeps-bind _ _ (ae_remove_handle-Safe c.ae_handle_id) λ _.
          Keeps-bind _ _
            (Leads-if (not c.flags.connect_timeout) _ _ (λ _. ae_get_last_uv_error-Safe env)
              (λ _. ae_get_uv_error-Safe env uv_etimedout))
            λ e. ruby-Safe _)

  pub uv_connect_callback-Safe :
      ReportsClosing env
      → (handle req : ℕ) (status : ℤ) (w : World) → IsSafe w
      → IsLinked handle w
      → Ends Unit IsSafe IsSafe (uv_connect_callback env uv_eof uv_etimedout handle req status w)
  unfolding uv_connect_callback
  uv_connect_callback-Safe reports handle req status w s linked =
      from_handle handle _
        (λ self. Leads-bind _ _ (xfree-Linked self handle req) λ _.
          Leads-bind _ _ (cancel_if_set-Linked env self handle) λ _.
            Leads-bind _ _ (connect_done-Safe env uv_eof uv_etimedout reports self handle status)
              λ _. guarded env ruby-Safe _ (ae_connect_callback-Safe self status))
        w _ refl linked

  ae_read_data-Safe :
      (self nread base : ℕ) (bytes : List ℕ)
      → Safe (ae_read_data env uv_eof uv_etimedout self nread base bytes)
  unfolding ae_read_data
  ae_read_data-Safe self nread base bytes =
      get_cdata-Holds self _
        λ c. release self _ _ (Keeps-bind _ _ (xfree-Safe base) λ _. ruby-Safe _)

  pub ae_read_error-Safe : (self : ℕ) → Safe (ae_read_error env uv_eof uv_etimedout self)
  unfolding ae_read_error
  ae_read_error-Safe self = get_cdata-Holds self _ λ c. release self _ _ (
      Keeps-bind _ _ (ae_get_last_uv_error-Safe env)
        λ e. Keeps-bind _ _ (ae_remove_handle-Safe c.ae_handle_id) λ _. ruby-Safe _)

  pub free_base-Safe : (base : Option ℕ) → Safe (free_base env uv_eof uv_etimedout base)
  unfolding free_base
  free_base-Safe none = Keeps-pure tt
  free_base-Safe (some p) = xfree-Safe p

  pub read_data-Safe :
      (self nread : ℕ) (base : Option ℕ) (bytes : List ℕ)
      → Safe (read_data env uv_eof uv_etimedout self nread base bytes)
  unfolding read_data
  read_data-Safe self nread none bytes = record { at = λ w s. tt }
  read_data-Safe self nread (some base) bytes = get_cdata-Holds self _ λ c. release self _ _ (
      Leads-if (not c.flags.paused) _ _
        (λ _. guarded env ruby-Safe _ (ae_read_data-Safe self nread base bytes))
        (λ _. Keeps-bind _ _ (xfree-Safe base) λ _. Keeps-pure _))

  ae_write_callback-Safe :
      (self p : ℕ) (block : Value) (status : ℤ)
      → Safe (ae_write_callback env uv_eof uv_etimedout self p block status)
  unfolding ae_write_callback
  ae_write_callback-Safe self p block status = Keeps-bind _ _ (xfree-Safe p) λ _.
      get_cdata-Holds self _ λ c. release self _ _ (
        Leads-if c.flags.releasing _ _ (λ _. Keeps-pure _)
          λ _.
            Leads-if (not (nonzero status)) _ _ (λ _. ae_proc_call_1-Safe env ruby-Safe block qnil)
              (λ _.
                Keeps-bind _ _ (ae_get_last_uv_error-Safe env)
                  λ e. ae_proc_call_1-Safe env ruby-Safe block e))

  run_on_write-Safe :
      (self : ℕ) (b : Option (ℕ × Value)) (status : ℤ)
      → Safe (run_on_write env uv_eof uv_etimedout self b status)
  unfolding run_on_write
  run_on_write-Safe self none status = Keeps-pure _
  run_on_write-Safe self (some (p, block)) status =
      guarded env ruby-Safe _ (ae_write_callback-Safe self p block status)

  pub uv_write_callback-Safe :
      (handle req : ℕ) (status : ℤ)
      → Safe (uv_write_callback env uv_eof uv_etimedout handle req status)
  unfolding uv_write_callback free_write_data
  uv_write_callback-Safe handle req status =
      Keeps-bind _ _ (request_data-Safe req)
        λ d. Keeps-bind _ _ (handle_data-Safe handle) λ self. freed self d
    where
      freed :
          (self : ℕ) (d : Request)
          → Safe (free_write_data env uv_eof uv_etimedout self req d status)
      freed self (write_data a b block) = Keeps-bind _ _ (xfree-Safe b) λ _.
          Keeps-bind _ _ (xfree-Safe a)
            λ _. Keeps-bind _ _ (xfree-Safe req) λ _. run_on_write-Safe self block status
      freed self (send_data a b c) = record { at = λ w s. tt }
      freed self (getaddrinfo_data a b) = record { at = λ w s. tt }
