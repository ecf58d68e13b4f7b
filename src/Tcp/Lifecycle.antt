-- ===== src/Tcp/Lifecycle.antt =====
-- ext/asyncengine/ae_tcp.c: the life of a TCPSocket as an abstract machine, and that the methods and the
-- connection's callbacks follow it.
use async_engine.World.Monad.{Env, M, alloc, modify, uv, xfree, Callback, ◌>>=◌}
use async_engine.World.{Event, Object, Tcp, TcpStatus, World, connected, connecting}
use async_engine.Handles.Cells.{Holds, assert_known}
use async_engine.World.Keeps.{
  Keeps, Keeps-bind, Keeps-pure, Leads, Keeps-get, Leads-bind, Leads-if, Leads-pure,
}
use async_engine.Base.{Option, none, some, refl, some, subst, sym, ℕ, ◌≡◌, arith, is_some, not}
use async_engine.HandleCommon.{ae_close_uv_handle, ae_remove_handle, check_uv_handle_is_open}
use async_engine.Tcp.{
  set_cdata, ae_cancel_timer_connect_timeout, cancel_if_set, close_uv, disconnect_if_connected,
  is_connected, tcp_close, tcp_destroy, with_open_cdata,
}
use async_engine.Ruby.{Value, qfalse}
use async_engine.Tcp.Callbacks.{connect_done, shut_down, shutdown_asserted, shutdown_own}
use async_engine.Tcp.Safe.{get_cdata-Holds}
use async_engine.Base.Int.{nonzero, ℤ}
use async_engine.Base.Assoc.{update}

-- What TCPSocket#status tells apart.
pub data Phase : Type 0 where
  opening established shut : Phase

-- The moves of the abstract machine, any number of them: a connection is established once, and what is
-- shut stays shut.
pub data Advances : Phase → Phase → Type 0 where
  stays : {p : Phase} → Advances p p
  establishes : Advances opening established
  shuts : {p : Phase} → Advances p shut

Advances-trans : {p q r : Phase} → Advances p q → Advances q r → Advances p r
Advances-trans Advances.stays b = b
Advances-trans Advances.establishes Advances.stays = Advances.establishes
Advances-trans Advances.establishes Advances.shuts = Advances.shuts
Advances-trans Advances.shuts Advances.stays = Advances.shuts
Advances-trans Advances.shuts Advances.shuts = Advances.shuts

abbrev pub phase_by : Option ℕ → TcpStatus → Phase
phase_by none status = shut
phase_by (some h) connecting = opening
phase_by (some h) connected = established

abbrev pub phase : Object → Phase
phase (Object.tcp c) = phase_by c.uv_handle c.status
phase _ = shut

-- The socket `self` has advanced from a phase.
pub record Advanced (p : Phase) (self : ℕ) (w : World) : Type 0 where
  pub advances : Advances p (phase (w.objects self))

abbrev pub Follows : (p : Phase) (self : ℕ) {A : Type 0} → M A → Type 0
Follows p self = Keeps Unit (Advanced p self)

to_connected : (h : Option ℕ) (s : TcpStatus) → Advances (phase_by h s) (phase_by h connected)
to_connected none s = Advances.stays
to_connected (some h) connecting = Advances.establishes
to_connected (some h) connected = Advances.stays

written : (f : ℕ → Object) (self : ℕ) (x : Object) → update f self x self ≡ x
written f self x = ground arith

module _ (p : Phase) (self : ℕ) where
  pub same : (w v : World) → v.objects self ≡ w.objects self → Advanced p self w → Advanced p self v
  same w v e h = record { advances = subst (λ x. Advances p (phase x)) (sym e) h.advances }

  pub uv-Follows : (env : Env) (c : Event) → Follows p self (uv env c)
  unfolding uv
  uv-Follows env c = record { at = λ w h. same w _ refl h }

  pub alloc-Follows : Follows p self alloc
  unfolding alloc
  alloc-Follows = record { at = λ w h. same w _ refl h }

  pub xfree-Follows : (q : ℕ) → Follows p self (xfree q)
  unfolding xfree
  xfree-Follows q = record { at = λ w h. same w _ refl h }

  pub modify-Follows :
      (f : World → World)
      → ((w : World) → (f w).objects self ≡ w.objects self)
      → Follows p self (modify f)
  unfolding modify
  modify-Follows f e = record { at = λ w h. same w _ (e w) h }

  close-Follows : (env : Env) (u : Option ℕ) → Follows p self (ae_close_uv_handle env u)
  unfolding ae_close_uv_handle
  close-Follows env none = record { at = λ w h. tt }
  close-Follows env (some q) = Keeps-bind _ _ (uv-Follows env _) λ _. Keeps-pure tt

  -- The cdata is written by a move of the machine.
  pub set_follows :
      (c d : Tcp)
      → Advances (phase (Object.tcp c)) (phase (Object.tcp d))
      → Leads Unit
          (Advanced p self)
          (Holds self (Object.tcp c) (Advanced p self))
          (Advanced p self)
          (set_cdata self d)
  unfolding set_cdata modify
  set_follows c d a = record {
    at = λ w h. record {
      advances = Advances-trans (subst (λ x. Advances p (phase x)) h.object h.state.advances) (
          subst (λ x. Advances (phase (Object.tcp c)) (phase x))
            (sym (written w.objects self (Object.tcp d))) a);
    };
  }

  -- An action after the reading of the cdata that does not look at it.
  pub forgets_any :
      (c : Tcp) {A : Type 0} {Q : World → Type 0} (m : M A)
      → Leads Unit (Advanced p self) (Advanced p self) Q m
      → Leads Unit (Advanced p self) (Holds self (Object.tcp c) (Advanced p self)) Q m
  forgets_any c m km = record { at = λ w h. km.at w h.state }

  pub forgets :
      (c : Tcp) {A : Type 0} (m : M A)
      → Follows p self m
      → Leads Unit
          (Advanced p self)
          (Holds self (Object.tcp c) (Advanced p self))
          (Advanced p self)
          m
  forgets c m km = forgets_any c m km

  abbrev pub Knows : {A : Type 0} (c : Tcp) → M A → Type 0
  Knows c =
      Leads Unit (Advanced p self) (Holds self (Object.tcp c) (Advanced p self))
        (Holds self (Object.tcp c) (Advanced p self))

  pub uv-Knows : (env : Env) (e : Event) (c : Tcp) → Knows c (uv env e)
  unfolding uv
  uv-Knows env e c = record {
    at = λ w h. record { state = same w _ refl h.state; object = h.object };
  }

  pub alloc-Knows : (c : Tcp) → Knows c alloc
  unfolding alloc
  alloc-Knows c = record { at = λ w h. record { state = same w _ refl h.state; object = h.object } }

  close-Knows : (env : Env) (u : Option ℕ) (c : Tcp) → Knows c (ae_close_uv_handle env u)
  unfolding ae_close_uv_handle
  close-Knows env none c = record { at = λ w h. tt }
  close-Knows env (some q) c =
      Leads-bind _ _ (uv-Knows env (Event.close q) c) λ _. Leads-pure tt (λ w h. h)

  pub then_set :
      (c d : Tcp) {A : Type 0} (m : M A)
      → Advances (phase (Object.tcp c)) (phase (Object.tcp d))
      → Follows p self m
      → Leads Unit
          (Advanced p self)
          (Holds self (Object.tcp c) (Advanced p self))
          (Advanced p self)
          (set_cdata self d >>= λ _. m)
  then_set c d m a km = Leads-bind _ _ (set_follows c d a) λ _. km

  pub open-Follows :
      (k : Tcp → ℕ → M Value)
      → ((c : Tcp) (h : ℕ)
          → Leads Unit
              (Advanced p self)
              (Holds self (Object.tcp c) (Advanced p self))
              (Advanced p self)
              (k c h))
      → Follows p self (with_open_cdata self k)
  unfolding with_open_cdata check_uv_handle_is_open
  open-Follows k kk = get_cdata-Holds self _ λ c. opened c c.uv_handle
    where
      opened :
          (c : Tcp) (h : Option ℕ)
          → Leads Unit
              (Advanced p self)
              (Holds self (Object.tcp c) (Advanced p self))
              (Advanced p self)
              (check_uv_handle_is_open h (k c))
      opened c none = Leads-pure qfalse (λ w h. h.state)
      opened c (some h) = kk c h

module _ (env : Env) (p : Phase) (self : ℕ) where
  pub close_uv-Follows : Follows p self (close_uv env self)
  unfolding close_uv
  close_uv-Follows = get_cdata-Holds self _ λ c.
      Leads-bind _ _ (close-Knows p self env c.uv_handle c)
        λ _. set_follows p self c _ Advances.shuts

  pub cancel-Follows : Follows p self (ae_cancel_timer_connect_timeout env self)
  unfolding ae_cancel_timer_connect_timeout
  cancel-Follows = get_cdata-Holds self _ λ c. Leads-bind _ _ (assert_known _) λ _.
      Leads-bind _ _ (close-Knows p self env c.timer_connect_timeout c)
        λ _. set_follows p self c _ Advances.stays

  cancel_if_set-Follows : Follows p self (cancel_if_set env self)
  unfolding cancel_if_set
  cancel_if_set-Follows = get_cdata-Holds self _ λ c.
      forgets p self c _
        (Leads-if (is_some c.timer_connect_timeout) _ _ (λ _. cancel-Follows) (λ _. Keeps-pure tt))

  shutdown-Knows :
      (uv_eof uv_etimedout : ℤ) (u : Option ℕ) (c : Tcp)
      → Knows p self c (shutdown_own env uv_eof uv_etimedout u)
  unfolding shutdown_own shutdown_asserted shut_down
  shutdown-Knows uv_eof uv_etimedout none c = record { at = λ w h. tt }
  shutdown-Knows uv_eof uv_etimedout (some q) c = Leads-bind _ _ (uv-Knows p self env _ c) λ r.
      Leads-bind _ _ (assert_known _) λ _.
        Leads-bind _ _ (alloc-Knows p self c)
          λ req. Leads-bind _ _ (uv-Knows p self env _ c) λ q. assert_known _

  pub connect_done-Follows :
      (uv_eof uv_etimedout : ℤ) (handle : ℕ) (status : ℤ)
      → Follows p self (connect_done env uv_eof uv_etimedout handle self status)
  unfolding connect_done
  connect_done-Follows uv_eof uv_etimedout handle status = get_cdata-Holds self _ λ c.
      Leads-if (not (nonzero status)) _ _
        (λ _.
          Leads-bind _ _
            (Leads-if c.flags.shutdown_requested _ _
              (λ _. shutdown-Knows uv_eof uv_etimedout c.uv_handle c)
              (λ _. Leads-bind _ _ (uv-Knows p self env _ c) λ r. assert_known _))
            λ _. set_follows p self c _ (to_connected c.uv_handle c.status))
        (λ _. Leads-bind _ _ (uv-Knows p self env _ c) λ closing.
          Leads-if (not (nonzero closing)) _ _
            (λ _.
              Leads-bind _ _ (close-Knows p self env (some handle) c)
                λ _. set_follows p self c _ Advances.shuts)
            (λ _. forgets p self c _ (Keeps-pure tt)))

  module _ (ruby_follows : (c : Callback) → Follows p self (env.ruby c)) where
    disconnect-Follows : Follows p self (disconnect_if_connected env self)
    unfolding disconnect_if_connected ae_remove_handle
    disconnect-Follows = get_cdata-Holds self _ λ c. forgets p self c _ (
        Leads-if (is_connected c.status) _ _
          (λ _.
            Keeps-bind _ _
              (Keeps-bind _ _ Keeps-get
                λ w. Keeps-bind _ _ (modify-Follows p self _ (λ w. refl)) λ _. Keeps-pure _)
              λ _. Keeps-bind _ _ (ruby_follows _) λ _. Keeps-pure _)
          (λ _. Keeps-pure _))

    pub tcp_close-Follows : Follows p self (tcp_close env self)
    unfolding tcp_close
    tcp_close-Follows = open-Follows p self _ λ c h. forgets p self c _ (
        Keeps-bind _ _ close_uv-Follows
          λ _. Keeps-bind _ _ cancel_if_set-Follows λ _. disconnect-Follows)

    pub tcp_destroy-Follows : Follows p self (tcp_destroy env self)
    unfolding tcp_destroy
    tcp_destroy-Follows = open-Follows p self _ λ c h. forgets p self c _ (
        Keeps-bind _ _ close_uv-Follows λ _.
          Keeps-bind _ _ cancel_if_set-Follows λ _.
            get_cdata-Holds self _ λ d. then_set p self d _ _ Advances.stays disconnect-Follows)
