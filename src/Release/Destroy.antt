-- ===== src/Release/Destroy.antt =====
-- The #destroy methods that a release calls: none of them ends the process, or changes what the
-- release set up.
use async_engine.World.Monad.{Env, M, ◌>>=◌, Callback, invoke, ok, pure, raise}
use async_engine.World.Keeps.{Ends, Keeps, Keeps-bind, Keeps-pure}
use async_engine.World.{Object, Tcp, Timer, Udp, World, releasing, Event}
use async_engine.Base.{
  [], arith, is_some, none, true, ℕ, ◌≡◌, List, some, ◌∷◌, Bool-cases, Option-cases, inl, inr, refl,
}
use async_engine.Tcp.{get_cdata, disconnect_if_connected, tcp_destroy, is_connected}
use async_engine.Timer.{timer_destroy}
use async_engine.Udp.{udp_destroy}
use async_engine.Base.Assoc.{update, erase}
use async_engine.Ruby.{Method, Value, object, qfalse, qnil, qtrue}
use async_engine.Release.{call_handle_destroy}

-- The engine while it destroys its handles.
pub record Quitting (w : World) : Type 0 where
  pub status : w.status ≡ releasing
  pub idle : is_some w.next_tick_uv_idle ≡ true
  pub async : is_some w.call_from_other_thread_uv_async ≡ true
  pub ubf : is_some w.ubf_uv_async ≡ true
  pub no_ticks : w.next_tick_procs ≡ []
  pub no_calls : w.call_from_other_thread_procs ≡ []

-- What an action does to such an engine: it goes on, or raises, and does not end the process.
abbrev pub Patient : {A : Type 0} → M A → Type 0
Patient = Keeps ⊥ Quitting

timer_destroy-Patient :
    (env : Env) (self : ℕ) (c : Timer) (w : World)
    → w.objects self ≡ Object.timer c
    → Quitting w
    → Ends ⊥ Quitting Quitting (timer_destroy env self w)
unfolding timer_destroy ◌>>=◌
timer_destroy-Patient env self c w e q = ground arith

udp_destroy-Patient :
    (env : Env) (self : ℕ) (c : Udp) (w : World)
    → w.objects self ≡ Object.udp c
    → Quitting w
    → Ends ⊥ Quitting Quitting (udp_destroy env self w)
unfolding udp_destroy ◌>>=◌
udp_destroy-Patient env self c w e q = ground arith

-- The cdata that TCPSocket#destroy leaves, and the state before it tells Ruby.
abbrev destroyed : Tcp → Tcp
destroyed c = record c {
  uv_handle = none;
  timer_connect_timeout = none;
  flags = record c.flags { releasing = true };
}

abbrev put : ℕ → Tcp → (ℕ → Object) → ℕ → Object
put self c objects = update objects self (Object.tcp c)

abbrev destroyed_world : ℕ → Tcp → List Event → World → World
destroyed_world self c events w = record w {
  objects = put self (destroyed c) (
      put self (record c { uv_handle = none; timer_connect_timeout = none })
        (put self (record c { uv_handle = none }) w.objects));
  trace = events;
}

module _ (env : Env) (self : ℕ) (c : Tcp) (p : ℕ) (w : World) where
  tcp_destroy_timed :
      (t : ℕ)
      → w.objects self ≡ Object.tcp c
      → c.uv_handle ≡ some p
      → c.timer_connect_timeout ≡ some t
      → tcp_destroy env self w
        ≡ disconnect_if_connected env self
            (destroyed_world self c (Event.close t ∷ Event.close p ∷ w.trace) w)
  unfolding tcp_destroy ◌>>=◌
  tcp_destroy_timed t e u n = ground arith

  tcp_destroy_untimed :
      w.objects self ≡ Object.tcp c
      → c.uv_handle ≡ some p
      → c.timer_connect_timeout ≡ none
      → tcp_destroy env self w
        ≡ disconnect_if_connected env self (record w {
          objects =
              put self
                (record c { uv_handle = none; flags = record c.flags { releasing = true } })
                (put self (record c { uv_handle = none }) w.objects);
          trace = Event.close p ∷ w.trace;
        })
  unfolding tcp_destroy ◌>>=◌
  tcp_destroy_untimed e u n = ground arith

tcp_destroy_closed :
    (env : Env) (self : ℕ) (c : Tcp) (w : World)
    → w.objects self ≡ Object.tcp c
    → c.uv_handle ≡ none
    → tcp_destroy env self w ≡ ok qfalse w
unfolding tcp_destroy ◌>>=◌
tcp_destroy_closed env self c w e u = ground arith

module _ (env : Env) (ruby : (c : Callback) → Patient (env.ruby c)) where
  told :
      (c : Tcp) (w : World)
      → Quitting w
      → Ends ⊥ Quitting Quitting (
          (env.ruby (invoke (object c.ae_handle) Method.on_disconnected (qnil ∷ [])) >>= λ _.
          pure qtrue)
            (record w { handles = erase c.ae_handle_id w.handles }))
  told c w q = (Keeps-bind _ (λ _. pure qtrue) (ruby _) (λ _. Keeps-pure qtrue)).at _ (record {
    status = q.status;
    idle = q.idle;
    async = q.async;
    ubf = q.ubf;
    no_ticks = q.no_ticks;
    no_calls = q.no_calls;
  })

  disconnect-Patient :
      (self : ℕ) (c : Tcp) (w : World)
      → w.objects self ≡ Object.tcp c
      → Quitting w
      → Ends ⊥ Quitting Quitting (disconnect_if_connected env self w)
  unfolding disconnect_if_connected ◌>>=◌
  disconnect-Patient self c w e q = elim (Bool-cases (is_connected c.status)) [
    | inl on ↦ rw (e, get_cdata) (rw on (told c w q))
    | inr off ↦ rw (e, get_cdata) (rw off q)
  ]

  tcp_destroy-Patient :
      (self : ℕ) (c : Tcp) (w : World)
      → w.objects self ≡ Object.tcp c
      → Quitting w
      → Ends ⊥ Quitting Quitting (tcp_destroy env self w)
  tcp_destroy-Patient self c w e q = elim (Option-cases c.uv_handle) [
    | inl u ↦ rw (tcp_destroy_closed env self c w e u) q
    | inr (p, u) ↦ elim (Option-cases c.timer_connect_timeout) [
      | inl n ↦ rw (tcp_destroy_untimed env self c p w e u n) (
          disconnect-Patient self
            (record c { uv_handle = none; flags = record c.flags { releasing = true } }) _
            (ground arith) (ground arith))
      | inr (t, n) ↦
          rw (tcp_destroy_timed env self c p w t e u n)
            (disconnect-Patient self (destroyed c) _ (ground arith) (ground arith))
    ]
  ]

  destroy_object-Patient :
      (self : ℕ) (w : World) (x : Object)
      → w.objects self ≡ x
      → Quitting w
      → Ends ⊥ Quitting Quitting (call_handle_destroy env (object self) w)
  unfolding call_handle_destroy raise
  destroy_object-Patient self w (Object.timer c) e q =
      rw (e, call_handle_destroy) (timer_destroy-Patient env self c w e q)
  destroy_object-Patient self w (Object.udp c) e q =
      rw (e, call_handle_destroy) (udp_destroy-Patient env self c w e q)
  destroy_object-Patient self w (Object.tcp c) e q =
      rw (e, call_handle_destroy) (tcp_destroy-Patient self c w e q)
  destroy_object-Patient self w Object.absent e q = rw (e, call_handle_destroy) q

  pub call_handle_destroy-Patient : (v : Value) → Patient (call_handle_destroy env v)
  unfolding call_handle_destroy raise
  call_handle_destroy-Patient (object self) = record {
    at = λ w q. destroy_object-Patient self w (w.objects self) refl q;
  }
  call_handle_destroy-Patient _ = record { at = λ w q. q }
