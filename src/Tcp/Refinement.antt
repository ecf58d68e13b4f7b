-- ===== src/Tcp/Refinement.antt =====
-- ext/asyncengine/ae_tcp.c: the methods of a TCPSocket refine the abstract machine of Tcp/Lifecycle.antt.
use async_engine.Tcp.Lifecycle.{
  Advanced, Advances, Follows, Knows, Phase, alloc-Follows, alloc-Knows, cancel-Follows,
  established, forgets, modify-Follows, open-Follows, opening, phase, same, shut, then_set,
  uv-Follows, uv-Knows, xfree-Follows, close_uv-Follows, connect_done-Follows, forgets_any,
  phase_by, tcp_close-Follows, tcp_destroy-Follows,
}
use async_engine.World.Keeps.{
  Ends, Keeps-bind, Keeps-pure, Leads-bind, Leads-if, Leads-pure, Leads-raised,
}
use async_engine.World.Monad.{
  Env, alloc, assert, ok, pure, set_request_data, uv, xfree, ◌>>=◌, ◌>>◌, Callback, handle_data,
}
use async_engine.World.{Event, Object, Request, Tcp, TcpStatus, World, connected, connecting}
use async_engine.Base.{
  List, Option, if◌then◌else◌, is_some, none, not, refl, some, ℕ, ◌||◌, ◌≡◌, true, ap,
}
use async_engine.Ruby.{Value, symbol}
use async_engine.HandleCommon.{ae_raise_last_uv_error}
use async_engine.Arguments.{argument, is_nil}
use async_engine.Handles.Cells.{assert_known}
use async_engine.Arguments.Keeps.{
  check_num_args-Keeps, delay_arg-Keeps, get_block_or_proc-Keeps, string_arg-Keeps,
}
use async_engine.Tcp.Methods.{
  free_on_write, status_symbol, store_on_write, tcp_close_gracefully, tcp_send_data,
  tcp_set_connect_timeout, tcp_status,
}
use async_engine.Tcp.{
  get_cdata, is_connected, ae_cancel_timer_connect_timeout, close_uv, set_cdata, tcp_close,
  tcp_destroy,
}
use async_engine.Base.Int.{nonzero, ℤ}
use async_engine.Tcp.Callbacks.{uv_timer_connect_timeout_callback, connect_done}
use async_engine.Handles.Actions.{ae_raise_last_uv_error-Raises}
use async_engine.Tcp.Safe.{get_cdata-Holds}

-- What TCPSocket#status answers.
abbrev pub phase_symbol : Phase → Value
phase_symbol opening = symbol "connecting"
phase_symbol established = symbol "connected"
phase_symbol shut = symbol "closed"

symbol_phase : (h : Option ℕ) (s : TcpStatus) → status_symbol h s ≡ phase_symbol (phase_by h s)
unfolding status_symbol
symbol_phase none s = refl
symbol_phase (some h) connecting = refl
symbol_phase (some h) connected = refl

status_shows :
    (w : World) (self : ℕ) (c : Tcp)
    → w.objects self ≡ Object.tcp c
    → tcp_status self w ≡ ok (phase_symbol (phase (Object.tcp c))) w
unfolding tcp_status get_cdata pure ◌>>=◌
status_shows w self c e =
    rw (tcp_status, get_cdata, e) (ap (λ s. ok s w) (symbol_phase c.uv_handle c.status))

module _ (env : Env) (p : Phase) (self : ℕ) where
  request-Follows : (r : ℕ) (d : Request) → Follows p self (set_request_data r d)
  unfolding set_request_data
  request-Follows r d = record { at = λ w h. same p self w _ refl h }

  store-Follows : (block : Value) → Follows p self (store_on_write block)
  unfolding store_on_write
  store-Follows block =
      Leads-if (not (is_nil block)) _ _
        (λ _. Keeps-bind _ _ (alloc-Follows p self) λ _. Keeps-pure _) (λ _. Keeps-pure _)

  free-Follows : (b : Option (ℕ × Value)) → Follows p self (free_on_write b)
  unfolding free_on_write
  free-Follows none = Keeps-pure tt
  free-Follows (some (q, v)) = xfree-Follows p self q

  send-Follows :
      (argv : List Value) (block : Option Value)
      → Follows p self (tcp_send_data env self argv block)
  unfolding tcp_send_data
  send-Follows argv block = Keeps-bind _ _ (check_num_args-Keeps 1 2 argv) λ _.
      open-Follows p self _ λ c h. forgets p self c _ (
        Keeps-bind _ _ (get_block_or_proc-Keeps 2 argv block) λ callee.
          Keeps-bind _ _ (string_arg-Keeps (argument argv 0) _) λ bytes.
            Keeps-bind _ _ (alloc-Follows p self) λ data'.
              Keeps-bind _ _ (alloc-Follows p self) λ write_req_data.
                Keeps-bind _ _ (store-Follows callee) λ on_write.
                  Keeps-bind _ _ (alloc-Follows p self) λ req.
                    Keeps-bind _ _ (request-Follows req _) λ _.
                      Keeps-bind _ _ (uv-Follows p self env _) λ r.
                        Leads-if (nonzero r) _ _
                          (λ _. Keeps-bind _ _ (xfree-Follows p self data') λ _.
                            Keeps-bind _ _ (free-Follows on_write) λ _.
                              Keeps-bind _ _ (xfree-Follows p self write_req_data) λ _.
                                Keeps-bind _ _ (xfree-Follows p self req)
                                  λ _. ae_raise_last_uv_error-Raises env)
                          (λ _. Keeps-pure _))

  timeout-Follows : (v : Value) → Follows p self (tcp_set_connect_timeout env self v)
  unfolding tcp_set_connect_timeout
  timeout-Follows v = open-Follows p self _ λ c h.
      Leads-if (is_connected c.status || is_some c.timer_connect_timeout) _ _
        (λ _. forgets p self c _ (Keeps-pure _))
        λ _. Leads-bind _ _ (Leads-raised _ (λ w k. k.state) (delay_arg-Keeps v)) λ delay.
          Leads-bind _ _ (alloc-Knows p self c) λ timer. then_set p self c _ _ Advances.stays (
            Keeps-bind _ _ (uv-Follows p self env _) λ _.
              Keeps-bind _ _ (modify-Follows p self _ (λ w. refl)) λ _.
                Keeps-bind _ _ (uv-Follows p self env _) λ r.
                  Leads-if (nonzero r) _ _
                    (λ _.
                      Keeps-bind _ _ (cancel-Follows env p self)
                        λ _. ae_raise_last_uv_error-Raises env)
                    (λ _. Keeps-pure _))

  graceful-Follows : (argv : List Value) → Follows p self (tcp_close_gracefully env self argv)
  unfolding tcp_close_gracefully
  graceful-Follows argv = open-Follows p self _ λ c h.
      Leads-bind _ _ (Leads-raised _ (λ w k. k.state) (check_num_args-Keeps 0 1 argv)) λ _.
        Leads-if c.flags.shutdown_requested _ _ (λ _. forgets p self c _ (Keeps-pure _))
          λ _.
            Leads-bind _ _ (shutting c h) λ _. then_set p self c _ _ Advances.stays (Keeps-pure _)
    where
      shutting :
          (c : Tcp) (h : ℕ)
          → Knows p self c (
              if is_connected c.status
              then (uv env (Event.tcp_read_stop h) >>= λ stopped.
                  assert (not (nonzero stopped)) >>= λ _. alloc >>= λ req.
                  uv env (Event.tcp_shutdown req h) >>= λ r.
                  if nonzero r then (xfree req >> ae_raise_last_uv_error env) else pure tt)
              else pure tt)
      shutting c h =
          Leads-if (is_connected c.status) _ _
            (λ _. Leads-bind _ _ (uv-Knows p self env _ c) λ r. Leads-bind _ _ (assert_known _) λ _.
              Leads-bind _ _ (alloc-Knows p self c) λ req.
                Leads-bind _ _ (uv-Knows p self env _ c) λ q.
                  Leads-if (nonzero q) _ _
                    (λ _. forgets_any p self c _ (
                      Leads-bind _ _ (xfree-Follows p self req)
                        λ _. ae_raise_last_uv_error-Raises env))
                    (λ _. Leads-pure tt (λ w k. k)))
            (λ _. Leads-pure tt (λ w k. k))

  timed_out :
      (uv_eof uv_etimedout : ℤ) (handle : ℕ) (w : World)
      → w.uv_data handle ≡ some self
      → Advanced p self w
      → Ends Unit
          (Advanced p self)
          (Advanced p self)
          (uv_timer_connect_timeout_callback env uv_eof uv_etimedout handle w)
  unfolding uv_timer_connect_timeout_callback ◌>>=◌
  timed_out uv_eof uv_etimedout handle w e h = rw (e, handle_data) (body.at w h)
    where
      body : Follows p self (
          get_cdata self >>= λ c. assert (is_some c.timer_connect_timeout) >>= λ _.
          ae_cancel_timer_connect_timeout env self >>= λ _. get_cdata self >>= λ d.
          set_cdata self (record d { flags = record d.flags { connect_timeout = true } }) >>= λ _.
          close_uv env self)
      body = get_cdata-Holds self _ λ c. forgets p self c _ (
          Keeps-bind _ _ (assert_known _) λ _. Keeps-bind _ _ (cancel-Follows env p self) λ _.
            get_cdata-Holds self _
              λ d. then_set p self d _ _ Advances.stays (close_uv-Follows env p self))

-- The methods and the connection's callbacks refine the abstract machine: a TCPSocket is opening, then
-- established or shut, and once shut it stays so, whatever is called on it. `status` answers the phase.
-- From a state in which the socket has advanced from a phase `p`, send_data, set_connect_timeout,
-- close_gracefully, close, destroy, the timer of its connection and the end of its connection
-- attempt, with any arguments and any answers of libuv, end in such a state, also where they raise,
-- unless they end the process. The conditions are that Ruby code, which close and destroy call, ends
-- in such a state too, and that the timer is the socket's.
pub tcp-Follows :
    (env : Env) (uv_eof uv_etimedout : ℤ) (p : Phase) (self : ℕ)
    (ruby_follows : (c : Callback) → Follows p self (env.ruby c)) (argv : List Value)
    (block : Option Value) (v : Value) (handle : ℕ) (status : ℤ) (w : World) (c : Tcp)
    → w.objects self ≡ Object.tcp c
    → w.uv_data handle ≡ some self
    → Advanced p self w
    → (tcp_status self w ≡ ok (phase_symbol (phase (Object.tcp c))) w)
      × Ends Unit (Advanced p self) (Advanced p self) (tcp_send_data env self argv block w)
      × Ends Unit (Advanced p self) (Advanced p self) (tcp_set_connect_timeout env self v w)
      × Ends Unit (Advanced p self) (Advanced p self) (tcp_close_gracefully env self argv w)
      × Ends Unit (Advanced p self) (Advanced p self) (tcp_close env self w)
      × Ends Unit (Advanced p self) (Advanced p self) (tcp_destroy env self w)
      × Ends Unit
          (Advanced p self)
          (Advanced p self)
          (uv_timer_connect_timeout_callback env uv_eof uv_etimedout handle w)
      × Ends Unit
          (Advanced p self)
          (Advanced p self)
          (connect_done env uv_eof uv_etimedout handle self status w)
tcp-Follows env uv_eof uv_etimedout p self ruby argv block v handle status w c o e h = (
  status_shows w self c o,
  (send-Follows env p self argv block).at w h,
  (timeout-Follows env p self v).at w h,
  (graceful-Follows env p self argv).at w h,
  (tcp_close-Follows env p self ruby).at w h,
  (tcp_destroy-Follows env p self ruby).at w h,
  timed_out env p self uv_eof uv_etimedout handle w e h,
  (connect_done-Follows env p self uv_eof uv_etimedout handle status).at w h,
)
