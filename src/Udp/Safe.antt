-- ===== src/Udp/Safe.antt =====
-- ext/asyncengine/ae_udp.c: no method of a UDPSocket closes a handle twice or keeps a closed one.
use async_engine.World.Keeps.{
  Ends, Keeps-bind, Keeps-pure, Leads, Leads-bind, Leads-pure, Leads-if, Keeps-raise,
}
use async_engine.World.Monad.{Env, M, modify, ◌>>=◌, ◌>>◌, pure, raise}
use async_engine.Handles.Cells.{
  From, check_open, close_put, put_same, release, Beside, alloc_beside, drop, put_main,
  store-Beside, uv-Beside, Holds,
}
use async_engine.Handles.Fresh.{Unowned, place_empty}
use async_engine.Ruby.{IpType, Value, ipv4, ipv6, object, arg_error, no_ip, type_error}
use async_engine.Handles.{IsSafe, timeout_pointer}
use async_engine.Base.{List, arith, none, refl, some, ℕ, ◌≡◌, sym, if◌then◌else◌}
use async_engine.World.{Object, Udp, World}
use async_engine.Handles.Actions.{
  Safe, ae_raise_last_uv_error-Safe, ae_remove_handle-Safe, xfree-Safe, ae_check_status-Safe,
  modify-Safe,
}
use async_engine.HandleCommon.{ae_raise_last_uv_error}
use async_engine.Udp.{
  bind_handle, close_handle, fill_cdata, get_cdata, set_cdata, udp_alloc, with_open_cdata,
  init_instance, udp_new,
}
use async_engine.Base.Assoc.{update}
use async_engine.Base.Int.{ℤ, nonzero}
use async_engine.Arguments.Keeps.{
  check_num_args-Keeps, string_arg-Keeps, string_value_cstr-Keeps, port_arg-Keeps,
}
use async_engine.IpParser.{parse_string}
use async_engine.Arguments.{argument}
use async_engine.IpUtils.{same_type}

module _ {A : Type 0} {P Q : World → Type 0} (self : ℕ) (k : Udp → M A)
    (kk : (c : Udp) → Leads Unit IsSafe (Holds self (Object.udp c) P) Q (k c)) where
  read_object :
      (w : World) (x : Object)
      → w.objects self ≡ x
      → P w
      → Ends Unit IsSafe Q ((get_cdata self >>= k) w)
  unfolding get_cdata ◌>>=◌
  read_object w (Object.udp c) e s =
      rw (e, get_cdata) ((kk c).at w (record { state = s; object = e }))
  read_object w (Object.timer c) e s = rw (e, get_cdata) tt
  read_object w (Object.tcp c) e s = rw (e, get_cdata) tt
  read_object w Object.absent e s = rw (e, get_cdata) tt

  pub get_cdata-Holds : Leads Unit IsSafe P Q (get_cdata self >>= k)
  get_cdata-Holds = record { at = λ w s. read_object w (w.objects self) refl s }

pub with_open_cdata-Safe :
    (self : ℕ) (k : Udp → ℕ → M Value)
    → ((c : Udp) (p : ℕ) → c.uv_handle ≡ some p → From self (Object.udp c) IsSafe (k c p))
    → Safe (with_open_cdata self k)
unfolding with_open_cdata
with_open_cdata-Safe self k kk =
    get_cdata-Holds self _ λ c. check_open self (Object.udp c) c.uv_handle (k c) (kk c)

pub set_cdata-Safe :
    (self : ℕ) (c d : Udp) {A : Type 0} (m : M A)
    → d.uv_handle ≡ c.uv_handle
    → Safe m
    → From self (Object.udp c) IsSafe (set_cdata self d >>= λ _. m)
unfolding set_cdata
set_cdata-Safe self c d m e km =
    Leads-bind _ _ (put_same self (Object.udp c) (Object.udp d) e refl)
      λ _. release self (Object.udp d) m km

pub set_data-Safe :
    (p self : ℕ) → Safe (modify (λ w. record w { uv_data = update w.uv_data p (some self) }))
set_data-Safe p self =
    modify-Safe _ (λ w j. refl) (λ w. refl) (λ w. refl) (λ w. refl) (λ w. refl) (λ w. refl)

module _ (env : Env) where
  pub close_handle-Safe : (self : ℕ) → Safe (close_handle env self)
  unfolding close_handle set_cdata
  close_handle-Safe self = get_cdata-Holds self _ λ c.
      close_put env self (Object.udp c) (Object.udp (record c { uv_handle = none })) _
        (release self _ _
          (Keeps-bind _ _ (ae_remove_handle-Safe c.ae_handle_id) λ _. Keeps-pure tt))
        c.uv_handle refl refl refl

  fail :
      (self : ℕ) {A : Type 0} → Safe {A = A} (close_handle env self >> ae_raise_last_uv_error env)
  fail self {A} = Keeps-bind _ _ (close_handle-Safe self) λ _. ae_raise_last_uv_error-Safe env

  module _ (self p : ℕ) (x : Object) where
    bind-Beside :
        (t : IpType) (bind_ip : List ℕ) (bind_port : ℕ) (r : ℤ)
        → Beside self x p (Holds self x (Unowned p)) (bind_handle env p t bind_ip bind_port r)
    unfolding bind_handle
    bind-Beside ipv4 bind_ip bind_port r = uv-Beside self x p env _ refl
    bind-Beside ipv6 bind_ip bind_port r = uv-Beside self x p env _ refl
    bind-Beside _ bind_ip bind_port r = Leads-pure r (λ w h. h)

    fill-Beside :
        (t : IpType) → timeout_pointer x ≡ none → Beside self x p IsSafe (fill_cdata env self p t)
    unfolding fill_cdata set_cdata
    fill-Beside t e = Leads-bind _ _ (store-Beside self x p self) λ id.
        Leads-bind _ _ (put_main self x _ p refl (sym e))
          λ _. release self _ _ (set_data-Safe p self)

  init_instance-Safe :
      (self : ℕ) (x : Object) (t : IpType) (bind_ip : List ℕ) (bind_port : ℕ)
      → timeout_pointer x ≡ none
      → From self x IsSafe (init_instance env self t bind_ip bind_port)
  unfolding init_instance
  init_instance-Safe self x t bind_ip bind_port e = alloc_beside self x _ λ p.
      Leads-bind _ _ (uv-Beside self x p env _ refl) λ r.
        Leads-if (nonzero r) _ _
          (λ _.
            drop self x p _ (Keeps-bind _ _ (xfree-Safe p) λ _. ae_raise_last_uv_error-Safe env))
          λ _. Leads-bind _ _ (bind-Beside self p x t bind_ip bind_port r) λ b.
            Leads-if (nonzero b) _ _ (λ _. drop self x p _ (fail self))
              λ _. Leads-bind _ _ (uv-Beside self x p env _ refl) λ q.
                Leads-if (nonzero q) _ _ (λ _. drop self x p _ (fail self))
                  λ _. fill-Beside self p x t e

  -- A new object without a handle.
  udp_alloc-Holds :
      {A : Type 0} {Q : World → Type 0} (k : ℕ → M A)
      → ((self : ℕ)
          → From self (Object.udp (record env.memory_udp { uv_handle = none })) Q (k self))
      → Leads Unit IsSafe IsSafe Q (udp_alloc env >>= k)
  unfolding udp_alloc ◌>>=◌
  udp_alloc-Holds k kk = record {
    at = λ w s. (kk w.next_object).at _ (record {
      state =
          place_empty w _ s w.next_object (Object.udp (record env.memory_udp { uv_handle = none }))
            (record { objects = λ j. refl; next_tick = refl; other_thread = refl; ubf = refl }) refl
            refl (omega arith) (λ q. refl);
      object = ground arith;
    });
  }

  make_socket-Safe :
      (bind_ip : List ℕ) (bind_port : ℕ)
      → Safe (
          if same_type (parse_string bind_ip) no_ip
          then raise (type_error "bind IP is not valid IPv4 or IPv6")
          else (udp_alloc env >>= λ self.
              init_instance env self (parse_string bind_ip) bind_ip bind_port >>= λ _.
              pure (object self)))
  make_socket-Safe bind_ip bind_port =
      Leads-if (same_type (parse_string bind_ip) no_ip) _ _ (λ _. Keeps-raise _)
        λ _. udp_alloc-Holds _ λ self.
          Leads-bind _ _ (init_instance-Safe self _ _ bind_ip bind_port refl) λ _. Keeps-pure _

  pub udp_new-Safe : (argv : List Value) → Safe (udp_new env argv)
  unfolding udp_new
  udp_new-Safe argv = ae_check_status-Safe _ (
      Keeps-bind _ _ (check_num_args-Keeps 2 2 argv) λ _.
        Keeps-bind _ _ (string_arg-Keeps (argument argv 0) (type_error "bind IP must be a String"))
          λ str. Keeps-bind _ _ (string_value_cstr-Keeps str) λ bind_ip.
            Keeps-bind _ _
              (port_arg-Keeps (argument argv 1) (type_error "bind port must be a Fixnum")
                (arg_error "invalid bind port value"))
              λ bind_port. make_socket-Safe bind_ip bind_port)
