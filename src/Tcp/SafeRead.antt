-- ===== src/Tcp/SafeRead.antt =====
-- ext/asyncengine/ae_tcp.c: the read callback, the shutdown callback and the connection's timer keep
-- the handles safe.
use async_engine.World.Monad.{Callback, Env, M, modify, xfree, ◌>>=◌}
use async_engine.World.Keeps.{
  Ends, Keeps-bind, Keeps-pure, Leads, Leads-bind, Leads-get, Leads-if, Leads-pure,
}
use async_engine.Tcp.SafeCallbacks.{
  IsOwned, ae_read_error-Safe, free_base-Safe, from_handle, read_data-Safe,
}
use async_engine.Handles.{IsSafe, main_pointer, timeout_pointer}
use async_engine.Base.{
  List, Option, ap, arith, none, not, refl, some, suc, sym, zero, ℕ, ◌≡◌, inl, inr, subst, ◌≢◌, ◌⊎◌,
}
use async_engine.World.{Object, World}
use async_engine.Handles.Actions.{
  Safe, ae_remove_handle-Safe, alloc-Safe, assert-Safe, handle_data-Safe, uv-Safe, xfree-Safe,
}
use async_engine.Ruby.{Value}
use async_engine.Tcp.SafeMethods.{ae_cancel_timer_connect_timeout-Safe, close_uv-Safe}
use async_engine.HandleCommon.{ae_close_uv_handle, ae_get_last_uv_error_int}
use async_engine.Release.SafeCalls.{ae_get_uv_error-Safe, guarded}
use async_engine.Tcp.Callbacks.{
  ae_shutdown_callback, finish_shutdown, free_base, read_by_count, read_disconnect, same_code,
  shut_down, shutdown_asserted, uv_read_callback, uv_shutdown_callback,
  uv_timer_connect_timeout_callback,
}
use async_engine.Handles.Fresh.{close_main}
use async_engine.Tcp.{get_cdata, set_cdata}
use async_engine.Tcp.Safe.{get_cdata-Holds, set_cdata-Safe}
use async_engine.Base.Int.{negsuc, nonzero, pos, ℤ}
use async_engine.Handles.Cells.{release}

end_or_not : (n : ℤ) → (n ≡ negsuc 0) ⊎ (n ≢ negsuc 0)
end_or_not (pos n) = inr (λ e. absurd (cc))
end_or_not (negsuc zero) = inl refl
end_or_not (negsuc (suc n)) = inr (λ e. absurd (ground arith))

-- The socket `self` has `handle` as its own.
record Owned (self handle : ℕ) (w : World) : Type 0 where
  pub safe : IsSafe w
  pub own : main_pointer (w.objects self) ≡ some handle

module _ (env : Env) (uv_eof uv_etimedout : ℤ)
    (ruby-Safe : (c : Callback) → Safe (env.ruby c)) where
  shut_down-Safe : (req : ℕ) (u : Option ℕ) → Safe (shut_down env uv_eof uv_etimedout req u)
  unfolding shut_down
  shut_down-Safe req none = record { at = λ w s. tt }
  shut_down-Safe req (some p) = Keeps-bind _ _ (uv-Safe env _ refl) λ q. assert-Safe _

  shutdown_asserted-Safe :
      (handle : ℕ) (u : Option ℕ) → Safe (shutdown_asserted env uv_eof uv_etimedout handle u)
  unfolding shutdown_asserted
  shutdown_asserted-Safe handle u =
      Keeps-bind _ _ (uv-Safe env _ refl) λ r.
        Keeps-bind _ _ (assert-Safe _) λ _. Keeps-bind _ _ alloc-Safe λ req. shut_down-Safe req u

  module _ (self handle : ℕ) where
    abbrev Owning : {A : Type 0} (Q : World → Type 0) → M A → Type 0
    Owning Q = Leads Unit IsSafe (Owned self handle) Q

    anyway : {A : Type 0} (m : M A) → Safe m → Owning IsSafe m
    anyway m km = record { at = λ w h. km.at w h.safe }

    free_base-Owned :
        (base : Option ℕ) → Owning (Owned self handle) (free_base env uv_eof uv_etimedout base)
    unfolding free_base xfree
    free_base-Owned none = Leads-pure tt (λ w h. h)
    free_base-Owned (some p) = record {
      at = λ w h. record { safe = (xfree-Safe p).at w h.safe; own = h.own };
    }

    module _ (m : M Value) (km : Safe m) where
      by_object :
          (w : World) (x : Object)
          → w.objects self ≡ x
          → Owned self handle w
          → Ends Unit IsSafe IsSafe (
              (ae_close_uv_handle env (some handle) >>= λ _.
              get_cdata self >>= λ c. set_cdata self (record c { uv_handle = none }) >>= λ _. m)
                w)
      unfolding get_cdata set_cdata ae_close_uv_handle modify ◌>>=◌
      by_object w (Object.tcp c) e h =
          rw (e, get_cdata)
            (km.at _ (
              close_main handle w _ self (Object.tcp (record c { uv_handle = none })) h.safe
                (record { objects = λ j. refl; next_tick = refl; other_thread = refl; ubf = refl })
                (omega arith) (λ q. refl) h.own refl (ap timeout_pointer (sym e))))
      by_object w (Object.timer c) e h = rw (e, get_cdata) tt
      by_object w (Object.udp c) e h = rw (e, get_cdata) tt
      by_object w Object.absent e h = rw (e, get_cdata) tt

    read_disconnect-Safe : Owning IsSafe (read_disconnect env uv_eof uv_etimedout handle self)
    unfolding read_disconnect ae_get_last_uv_error_int
    read_disconnect-Safe =
        Leads-bind _ _ (Leads-bind _ _ (Leads-get (λ w h. h)) λ w. Leads-pure _ (λ w h. h)) λ code.
          Leads-if (same_code code uv_eof) _ _
            (λ _. anyway _ (
              get_cdata-Holds self _ λ c. release self _ _ (
                Keeps-bind _ _ (shutdown_asserted-Safe handle c.uv_handle) λ _.
                  get_cdata-Holds self _ λ c. set_cdata-Safe self c _ _ refl refl (Keeps-pure _))))
            (λ _. record {
              at = λ w h.
                  by_object _
                    (guarded env ruby-Safe _
                      (ae_read_error-Safe env uv_eof uv_etimedout ruby-Safe self))
                    w _ refl h;
            })

    -- The end of the connection, for which the socket must have the handle as its own.
    read_end-Safe :
        (base : Option ℕ) (bytes : List ℕ)
        → Owning IsSafe (read_by_count env uv_eof uv_etimedout handle self (negsuc 0) base bytes)
    unfolding read_by_count
    read_end-Safe base bytes = Leads-bind _ _ (free_base-Owned base) λ _. read_disconnect-Safe

    read_by_count-Safe :
        (nread : ℤ) (base : Option ℕ) (bytes : List ℕ)
        → nread ≢ negsuc 0
        → Safe (read_by_count env uv_eof uv_etimedout handle self nread base bytes)
    unfolding read_by_count
    read_by_count-Safe (pos zero) base bytes d =
        Keeps-bind _ _ (free_base-Safe env uv_eof uv_etimedout ruby-Safe base) λ _. Keeps-pure _
    read_by_count-Safe (negsuc zero) base bytes d = absurd (d refl)
    read_by_count-Safe (pos (suc n)) base bytes d =
        read_data-Safe env uv_eof uv_etimedout ruby-Safe self (suc n) base bytes
    read_by_count-Safe (negsuc (suc n)) base bytes d =
        (get_cdata-Holds self _ λ c. release self _ _ (
          Leads-if (not c.flags.paused) _ _
            (λ _.
              guarded env ruby-Safe _ (ae_read_error-Safe env uv_eof uv_etimedout ruby-Safe self))
            (λ _.
              Keeps-bind _ _ (free_base-Safe env uv_eof uv_etimedout ruby-Safe base)
                λ _. Keeps-pure _)))

  pub uv_read_callback-Safe :
      (handle : ℕ) (nread : ℤ) (base : Option ℕ) (bytes : List ℕ) (w : World)
      → IsSafe w
      → (nread ≡ negsuc 0 → IsOwned handle w)
      → Ends Unit IsSafe IsSafe (uv_read_callback env uv_eof uv_etimedout handle nread base bytes w)
  unfolding uv_read_callback
  uv_read_callback-Safe handle nread base bytes w s owned = elim (end_or_not nread) [
    | inl e ↦
        subst
          (λ n.
            Ends Unit IsSafe IsSafe
              (uv_read_callback env uv_eof uv_etimedout handle n base bytes w))
          (sym e)
          (from_handle handle _ (λ self. read_end-Safe self handle base bytes) w _ refl
            (λ self f. record { safe = s; own = owned e self f }))
    | inr d ↦
        (Keeps-bind _ _ (handle_data-Safe handle)
            λ self. read_by_count-Safe self handle nread base bytes d).at
          w s
  ]

  pub uv_timer_connect_timeout_callback-Safe :
      (handle : ℕ) → Safe (uv_timer_connect_timeout_callback env uv_eof uv_etimedout handle)
  unfolding uv_timer_connect_timeout_callback
  uv_timer_connect_timeout_callback-Safe handle = Keeps-bind _ _ (handle_data-Safe handle) λ self.
      get_cdata-Holds self _ λ c. release self _ _ (
        Keeps-bind _ _ (assert-Safe _) λ _.
          Keeps-bind _ _ (ae_cancel_timer_connect_timeout-Safe env self) λ _.
            get_cdata-Holds self _
              λ d. set_cdata-Safe self d _ _ refl refl (close_uv-Safe env self))

  ae_shutdown_callback-Safe : (self : ℕ) → Safe (ae_shutdown_callback env uv_eof uv_etimedout self)
  unfolding ae_shutdown_callback
  ae_shutdown_callback-Safe self = get_cdata-Holds self _ λ c. release self _ _ (
      Keeps-bind _ _ (ae_remove_handle-Safe c.ae_handle_id) λ _.
        Leads-if c.flags.eof_received _ _
          (λ _. Keeps-bind _ _ (ae_get_uv_error-Safe env uv_eof) λ e. ruby-Safe _)
          (λ _. ruby-Safe _))

  finish_shutdown-Safe :
      (self : ℕ) (h : Option ℕ) → Safe (finish_shutdown env uv_eof uv_etimedout self h)
  unfolding finish_shutdown
  finish_shutdown-Safe self none = Keeps-pure _
  finish_shutdown-Safe self (some p) = Keeps-bind _ _ (uv-Safe env _ refl) λ closing.
      Leads-if (not (nonzero closing)) _ _
        (λ _.
          Keeps-bind _ _ (close_uv-Safe env self)
            λ _. guarded env ruby-Safe _ (ae_shutdown_callback-Safe self))
        (λ _. Keeps-pure _)

  pub uv_shutdown_callback-Safe :
      (handle req : ℕ) (status : ℤ)
      → Safe (uv_shutdown_callback env uv_eof uv_etimedout handle req status)
  unfolding uv_shutdown_callback
  uv_shutdown_callback-Safe handle req status = Keeps-bind _ _ (handle_data-Safe handle) λ self.
      Keeps-bind _ _ (xfree-Safe req)
        λ _. get_cdata-Holds self _ λ c. release self _ _ (finish_shutdown-Safe self c.uv_handle)
