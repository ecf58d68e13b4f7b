-- ===== src/Tcp/SafeNew.antt =====
-- ext/asyncengine/ae_tcp.c: TCPSocket.new keeps the handles safe, whatever the memory of the new
-- object holds. Where it raises, the object is one that Ruby never sees.
use async_engine.World.Monad.{
  Env, M, alloc, modify, uv, xfree, ◌>>=◌, ◌>>◌, Run, ok, pure, raise, raised,
}
use async_engine.World.{Event, Object, Tcp, World, AeStatus, releasing, running, stopped}
use async_engine.Ruby.{
  IpType, ipv4, ipv6, Value, arg_error, no_ip, not_running_error, object, qfalse, type_error,
}
use async_engine.Handles.{IsSafe, timeout_pointer, without, closes}
use async_engine.World.Keeps.{
  Leads, Leads-bind, Leads-pure, Ends, Leads-if, Leads-raise, Leads-raised,
}
use async_engine.Base.{
  List, Option, arith, false, none, refl, some, sym, ℕ, ◌∙◌, ◌≡◌, if◌then◌else◌, subst, ◌≤◌,
}
use async_engine.Handles.Fresh.{
  Unowned, Unowned-quiet, ae_store_handle-Unowned, alloc-Unowned, close_unowned, take_main,
  uv-Unowned, fresh_unowned, place_empty,
}
use async_engine.HandleCommon.{
  ae_close_uv_handle, ae_raise_last_uv_error, ae_store_handle, ae_check_status,
}
use async_engine.Handles.Actions.{ae_raise_last_uv_error-Raises, is_close}
use async_engine.Tcp.{
  bind_handle, connect_handle, fill_cdata, init_instance, set_cdata, check_bind_ip, tcp_alloc,
  tcp_new,
}
use async_engine.Tcp.Safe.{set_data-Safe}
use async_engine.Base.Assoc.{update}
use async_engine.Handles.Objects.{Replaces}
use async_engine.Arguments.{argument}
use async_engine.Tcp.Keeps.{bind_args-Keeps, check_bind_ip-Keeps}
use async_engine.Arguments.Keeps.{
  check_num_args-Keeps, port_arg-Keeps, string_arg-Keeps, string_value_cstr-Keeps,
}
use async_engine.Base.Int.{nonzero}
use async_engine.IpUtils.{same_type}

-- A state that is safe without the object `self`, and one in which also nobody holds the handle `p`.
abbrev Blind : ℕ → World → Type 0
Blind self w = IsSafe (without self w)

abbrev BlindTo : ℕ → ℕ → World → Type 0
BlindTo self p w = Unowned p (without self w)

overwritten :
    (o : ℕ → Object) (self : ℕ) (x y : Object) (j : ℕ)
    → update (update o self x) self y j ≡ update o self y j
overwritten o self x y j = ground arith

absent_timeout :
    (o : ℕ → Object) (self : ℕ) → timeout_pointer (update o self Object.absent self) ≡ none
absent_timeout o self = ground arith

module _ (env : Env) (self : ℕ) where
  -- From a state with a handle that nobody holds.
  abbrev Beside : (p : ℕ) (Q : World → Type 0) {A : Type 0} → M A → Type 0
  Beside p Q = Leads Unit (Blind self) (BlindTo self p) Q

  module _ (p : ℕ) where
    uv-Beside : (c : Event) → is_close c ≡ false → Beside p (BlindTo self p) (uv env c)
    unfolding uv
    uv-Beside c e = record { at = λ w h. (uv-Unowned p env c e).at (without self w) h }

    alloc-Beside : Beside p (BlindTo self p) alloc
    unfolding alloc
    alloc-Beside = record { at = λ w h. (alloc-Unowned p).at (without self w) h }

    store-Beside : Beside p (BlindTo self p) (ae_store_handle self)
    unfolding ae_store_handle ◌>>=◌
    store-Beside = record { at = λ w h. (ae_store_handle-Unowned p self).at (without self w) h }

    xfree-Beside : (q : ℕ) → Beside p (BlindTo self p) (xfree q)
    unfolding xfree
    xfree-Beside q = record {
      at = λ w h.
          Unowned-quiet p (without self w) _ h (λ j. refl) refl refl refl (λ r. refl) (omega arith);
    }

    closed-Beside : Beside p (Blind self) (ae_close_uv_handle env (some p))
    unfolding ae_close_uv_handle uv ◌>>=◌
    closed-Beside = record { at = λ w h. (close_unowned p env).at (without self w) h }

    refuse :
        {A : Type 0}
        → Beside p IsSafe {A = A} (ae_close_uv_handle env (some p) >> ae_raise_last_uv_error env)
    refuse = Leads-bind _ _ closed-Beside λ _. ae_raise_last_uv_error-Raises env

    bind-Beside :
        (t : IpType) (bind_ip : Option (List ℕ)) (bind_port : ℕ)
        → Beside p (BlindTo self p) (bind_handle env p t bind_ip bind_port)
    unfolding bind_handle
    bind-Beside t none bind_port = Leads-pure _ (λ w h. h)
    bind-Beside ipv4 (some bind_ip) bind_port = uv-Beside _ refl
    bind-Beside ipv6 (some bind_ip) bind_port = uv-Beside _ refl
    bind-Beside _ (some bind_ip) bind_port = Leads-pure _ (λ w h. h)

    connect-Beside :
        (req : ℕ) (t : IpType) (dest_ip : List ℕ) (dest_port : ℕ)
        → Beside p (BlindTo self p) (connect_handle env req p t dest_ip dest_port)
    unfolding connect_handle
    connect-Beside req ipv4 dest_ip dest_port = uv-Beside _ refl
    connect-Beside req ipv6 dest_ip dest_port = uv-Beside _ refl
    connect-Beside req _ dest_ip dest_port = Leads-pure _ (λ w h. h)

    -- The cdata is written as a whole.
    put-Beside :
        (c : Tcp)
        → c.uv_handle ≡ some p
        → c.timer_connect_timeout ≡ none
        → Beside p IsSafe (set_cdata self c)
    unfolding set_cdata modify
    put-Beside c e n = record {
      at = λ w h.
          take_main p (without self w) _ self (Object.tcp c) h
            (record {
              objects = λ j. sym (overwritten w.objects self Object.absent (Object.tcp c) j);
              next_tick = refl;
              other_thread = refl;
              ubf = refl;
            })
            e (n ∙ sym (absent_timeout w.objects self)) (λ q. refl) (omega arith);
    }

    fill-Beside : (t : IpType) → Beside p IsSafe (fill_cdata env self p t)
    unfolding fill_cdata modify
    fill-Beside t = Leads-bind _ _ store-Beside λ id.
        Leads-bind _ _ (put-Beside _ refl refl)
          λ _. record { at = λ w s. (set_data-Safe p self).at w s }

  alloc-Blind :
      {A : Type 0} {Q : World → Type 0} (k : ℕ → M A)
      → ((p : ℕ) → Beside p Q (k p))
      → Leads Unit (Blind self) (Blind self) Q (alloc >>= k)
  unfolding alloc ◌>>=◌
  alloc-Blind k kk = record {
    at = λ w h. (kk w.next_pointer).at _ (fresh_unowned (without self w) h);
  }

  init_instance-Blind :
      (t : IpType) (dest_ip : List ℕ) (dest_port : ℕ) (bind_ip : Option (List ℕ)) (bind_port : ℕ)
      → Leads Unit
          (Blind self)
          (Blind self)
          IsSafe
          (init_instance env self t dest_ip dest_port bind_ip bind_port)
  unfolding init_instance
  init_instance-Blind t dest_ip dest_port bind_ip bind_port = alloc-Blind _ λ p.
      Leads-bind _ _ (uv-Beside p _ refl) λ r.
        Leads-if (nonzero r) _ _ (λ _. Leads-bind _ _ (xfree-Beside p p) λ _. failed p)
          λ _. Leads-bind _ _ (bind-Beside p t bind_ip bind_port) λ b.
            Leads-if (nonzero b) _ _ (λ _. refuse p)
              λ _. Leads-bind _ _ (alloc-Beside p) λ req.
                Leads-bind _ _ (connect-Beside p req t dest_ip dest_port) λ q.
                  Leads-if (nonzero q) _ _
                    (λ _.
                      Leads-bind _ _ (Leads-bind _ _ (xfree-Beside p req) λ _. closed-Beside p)
                        λ _. ae_raise_last_uv_error-Raises env)
                    λ _. fill-Beside p t
    where
      blind :
          (p : ℕ) {A : Type 0}
          → Leads Unit (Blind self) (Blind self) IsSafe (ae_raise_last_uv_error env {A = A})
      blind p = ae_raise_last_uv_error-Raises env

      failed :
          (p : ℕ) {A : Type 0}
          → Leads Unit (Blind self) (BlindTo self p) IsSafe (ae_raise_last_uv_error env {A = A})
      failed p = record { at = λ w h. (blind p).at w h.safe }

module _ (env : Env) where
  -- The object is allocated in a safe state.
  place-Blind :
      (w v : World)
      → IsSafe w
      → Replaces w v w.next_object (Object.tcp env.memory_tcp)
      → w.next_pointer ≤ v.next_pointer
      → ((q : ℕ) → closes q v.trace ≡ closes q w.trace)
      → Blind w.next_object v
  place-Blind w v s r l t =
      place_empty w (without w.next_object v) s w.next_object Object.absent
        (record {
          objects = λ j. ground (arith, r.objects j);
          next_tick = r.next_tick;
          other_thread = r.other_thread;
          ubf = r.ubf;
        })
        refl refl l t

  tcp_alloc-Blind :
      {A : Type 0} (k : ℕ → M A) (w : World)
      → IsSafe w
      → Leads Unit (Blind w.next_object) (Blind w.next_object) IsSafe (k w.next_object)
      → Ends Unit (Blind w.next_object) IsSafe ((tcp_alloc env >>= k) w)
  unfolding tcp_alloc ◌>>=◌
  tcp_alloc-Blind k w s kk = kk.at _ (
      place-Blind w _ s
        (record { objects = λ j. refl; next_tick = refl; other_thread = refl; ubf = refl })
        (omega arith) (λ q. refl))

-- Before the object: a safe state with `n` as the next id.
record Before (n : ℕ) (w : World) : Type 0 where
  pub safe : IsSafe w
  pub next : w.next_object ≡ n

Before-Blind : (n : ℕ) (w : World) → Before n w → Blind n w
Before-Blind n w b =
    place_empty w (without n w) b.safe n Object.absent
      (record { objects = λ j. refl; next_tick = refl; other_thread = refl; ubf = refl }) refl refl
      (omega arith) (λ q. refl)

module _ (env : Env) (n : ℕ) where
  abbrev Starts : {A : Type 0} → M A → Type 0
  Starts = Leads Unit (Blind n) (Before n) IsSafe

  checked :
      {A B : Type 0} (m : M A) (k : A → M B)
      → Leads Unit (Before n) (Before n) (Before n) m
      → ((a : A) → Starts (k a))
      → Starts (m >>= k)
  checked m k km kk = Leads-bind m k (Leads-raised m (Before-Blind n) km) kk

  alloc-Starts :
      {A : Type 0} (k : ℕ → M A)
      → ((self : ℕ) → Leads Unit (Blind self) (Blind self) IsSafe (k self))
      → Starts (tcp_alloc env >>= k)
  alloc-Starts k kk = record {
    at = λ w b.
        subst (λ n. Ends Unit (Blind n) IsSafe ((tcp_alloc env >>= k) w)) b.next
          (tcp_alloc-Blind env k w b.safe (kk w.next_object));
  }

  make_socket-Starts :
      (t : IpType) (dest_ip : List ℕ) (dest_port : ℕ) (bind_ip : Option (List ℕ)) (bind_port : ℕ)
      → Starts (
          if same_type t no_ip
          then raise (type_error "destination IP is not valid IPv4 or IPv6")
          else (check_bind_ip t bind_ip >>= λ _. tcp_alloc env >>= λ self.
              init_instance env self t dest_ip dest_port bind_ip bind_port >>= λ _.
              pure (object self)))
  make_socket-Starts t dest_ip dest_port bind_ip bind_port =
      Leads-if (same_type t no_ip) _ _ (λ _. Leads-raise _ (Before-Blind n))
        λ _. checked _ _ (check_bind_ip-Keeps t bind_ip) λ _. alloc-Starts _ λ self.
          Leads-bind _ _ (init_instance-Blind env self t dest_ip dest_port bind_ip bind_port)
            λ _. Leads-pure _ (λ w s. s)

  status_checked : (m : M Value) → Starts m → Starts (ae_check_status m)
  unfolding ae_check_status
  status_checked m km = record { at = λ w b. go w b w.status }
    where
      go :
          (w : World)
          → Before n w
          → (a : AeStatus)
          → Ends Unit (Blind n) IsSafe (elim a as (λ _. Run Value) [
            | running ↦ m w
            | releasing ↦ ok qfalse w
            | stopped ↦ raised (not_running_error "AsyncEngine is not running") w
          ])
      go w b running = km.at w b
      go w b releasing = b.safe
      go w b stopped = Before-Blind n w b

  tcp_new-Starts : (argv : List Value) → Starts (tcp_new env argv)
  unfolding tcp_new
  tcp_new-Starts argv = status_checked _ (
      checked _ _ (check_num_args-Keeps 2 4 argv) λ _.
        checked _ _
          (string_arg-Keeps (argument argv 0) (type_error "destination IP must be a String"))
          λ str. checked _ _ (string_value_cstr-Keeps str) λ ip.
            checked _ _
              (port_arg-Keeps (argument argv 1) (type_error "destination port must be a Fixnum")
                (arg_error "invalid destination port value"))
              λ port.
                checked _ _ (bind_args-Keeps argv) λ b. make_socket-Starts _ ip port (b.0) (b.1))

-- From a safe state, TCPSocket.new returns in a safe state, or raises in one that is safe without the
-- object that it may have allocated.
pub tcp_new-IsSafe :
    (env : Env) (argv : List Value) (w : World)
    → IsSafe w
    → Ends Unit (λ v. IsSafe (without w.next_object v)) IsSafe (tcp_new env argv w)
tcp_new-IsSafe env argv w s =
    (tcp_new-Starts env w.next_object argv).at w (record { safe = s; next = refl })
