-- ===== src/Tcp/SafeMethods.antt =====
-- ext/asyncengine/ae_tcp.c: the handles are safe under the methods of a TCPSocket.
use async_engine.World.Monad.{Env, assert, modify, pure, ◌>>=◌, alloc, uv, xfree, ◌>>◌}
use async_engine.World.{Event, Object, Tcp}
use async_engine.World.Keeps.{Keeps-bind, Keeps-get, Keeps-pure, Leads-bind, Leads-if, Leads-pure}
use async_engine.Base.{List, Option, is_some, none, not, refl, some, ℕ, ◌||◌, if◌then◌else◌}
use async_engine.Handles.Actions.{
  Safe, ae_raise_last_uv_error-Safe, alloc-Safe, set_request_data-Safe, uv-Safe, xfree-Safe,
  ae_raise_last_uv_error-Raises,
}
use async_engine.Ruby.{Value}
use async_engine.Tcp.{
  ae_cancel_timer_connect_timeout, cancel_if_set, close_uv, is_connected, set_cdata,
}
use async_engine.Handles.Cells.{
  alloc_beside, assert_known, close_put, close_put_timeout, put_timeout, reads, release, From,
  Holds, alloc_known, release_any, uv_known,
}
use async_engine.Arguments.{argument, is_nil}
use async_engine.Arguments.Keeps.{
  check_num_args-Keeps, delay_arg-Keeps, get_block_or_proc-Keeps, get_ip_port-Keeps,
  string_arg-Keeps,
}
use async_engine.Tcp.Methods.{
  free_on_write, store_on_write, tcp_close_gracefully, tcp_local_address, tcp_peer_address,
  tcp_send_data, tcp_set_connect_timeout,
}
use async_engine.Base.Int.{nonzero}
use async_engine.Handles.{IsSafe}
use async_engine.HandleCommon.{ae_raise_last_uv_error}
use async_engine.Tcp.Safe.{get_cdata-Holds, set_cdata-Safe, set_data-Safe, with_open_cdata-Safe}

module _ (env : Env) where
  pub ae_cancel_timer_connect_timeout-Safe :
      (self : ℕ) → Safe (ae_cancel_timer_connect_timeout env self)
  unfolding ae_cancel_timer_connect_timeout set_cdata modify pure ◌>>=◌
  ae_cancel_timer_connect_timeout-Safe self = get_cdata-Holds self _ λ c.
      Leads-bind (assert (is_some c.timer_connect_timeout)) _ (assert_known _) λ _.
        close_put_timeout env self (Object.tcp c)
          (Object.tcp (record c { timer_connect_timeout = none })) (pure tt)
          (release self _ _ (Keeps-pure tt)) c.timer_connect_timeout refl refl refl

  pub cancel_if_set-Safe : (self : ℕ) → Safe (cancel_if_set env self)
  unfolding cancel_if_set
  cancel_if_set-Safe self = get_cdata-Holds self _ λ c. release self _ _ (
      Leads-if (is_some c.timer_connect_timeout) _ _
        (λ _. ae_cancel_timer_connect_timeout-Safe self) (λ _. Keeps-pure tt))

  pub close_uv-Safe : (self : ℕ) → Safe (close_uv env self)
  unfolding close_uv set_cdata modify pure ◌>>=◌
  close_uv-Safe self = get_cdata-Holds self _ λ c.
      close_put env self (Object.tcp c) (Object.tcp (record c { uv_handle = none })) (pure tt)
        (release self _ _ (Keeps-pure tt)) c.uv_handle refl refl refl

  store_on_write-Safe : (block : Value) → Safe (store_on_write block)
  unfolding store_on_write
  store_on_write-Safe block =
      Leads-if (not (is_nil block)) _ _ (λ _. Keeps-bind _ _ alloc-Safe λ _. Keeps-pure _)
        (λ _. Keeps-pure _)

  free_on_write-Safe : (b : Option (ℕ × Value)) → Safe (free_on_write b)
  unfolding free_on_write
  free_on_write-Safe none = Keeps-pure tt
  free_on_write-Safe (some (p, v)) = xfree-Safe p

  pub tcp_send_data-Safe :
      (self : ℕ) (argv : List Value) (block : Option Value)
      → Safe (tcp_send_data env self argv block)
  unfolding tcp_send_data
  tcp_send_data-Safe self argv block = Keeps-bind _ _ (check_num_args-Keeps 1 2 argv) λ _.
      with_open_cdata-Safe self _ λ c p e. release self _ _ (
        Keeps-bind _ _ (get_block_or_proc-Keeps 2 argv block) λ callee.
          Keeps-bind _ _ (string_arg-Keeps (argument argv 0) _) λ bytes.
            Keeps-bind _ _ alloc-Safe λ data'. Keeps-bind _ _ alloc-Safe λ write_req_data.
              Keeps-bind _ _ (store_on_write-Safe callee) λ on_write.
                Keeps-bind _ _ alloc-Safe λ req. Keeps-bind _ _ (set_request_data-Safe req _) λ _.
                  Keeps-bind _ _ (uv-Safe env (Event.tcp_write req p bytes) refl) λ r.
                    Leads-if (nonzero r) _ _
                      (λ _. Keeps-bind _ _ (xfree-Safe data') λ _.
                        Keeps-bind _ _ (free_on_write-Safe on_write) λ _.
                          Keeps-bind _ _ (xfree-Safe write_req_data) λ _.
                            Keeps-bind _ _ (xfree-Safe req) λ _. ae_raise_last_uv_error-Safe env)
                      (λ _. Keeps-pure _))

  pub tcp_local_address-Safe : (self : ℕ) → Safe (tcp_local_address env self)
  unfolding tcp_local_address
  tcp_local_address-Safe self = with_open_cdata-Safe self _ λ c p e. release self _ _ (
      Keeps-bind _ _ Keeps-get λ w.
        Keeps-bind _ _ (uv-Safe env _ refl)
          λ r. Leads-if (nonzero r) _ _ (λ _. Keeps-pure _) (λ _. get_ip_port-Keeps env _ _))

  pub tcp_peer_address-Safe : (self : ℕ) → Safe (tcp_peer_address env self)
  unfolding tcp_peer_address
  tcp_peer_address-Safe self = with_open_cdata-Safe self _ λ c p e. release self _ _ (
      Leads-if (not (is_connected c.status)) _ _ (λ _. Keeps-pure _)
        λ _. Keeps-bind _ _ Keeps-get λ w.
          Keeps-bind _ _ (uv-Safe env _ refl)
            λ r. Leads-if (nonzero r) _ _ (λ _. Keeps-pure _) (λ _. get_ip_port-Keeps env _ _))

  pub tcp_set_connect_timeout-Safe :
      (self : ℕ) (v : Value) → Safe (tcp_set_connect_timeout env self v)
  unfolding tcp_set_connect_timeout set_cdata
  tcp_set_connect_timeout-Safe self v = with_open_cdata-Safe self _ λ c p e.
      Leads-if (is_connected c.status || is_some c.timer_connect_timeout) _ _
        (λ _. release self _ _ (Keeps-pure _))
        λ _. Leads-bind _ _ (reads self (Object.tcp c) _ (delay_arg-Keeps v)) λ delay.
          alloc_beside self (Object.tcp c) _ λ timer.
            Leads-bind _ _ (put_timeout self (Object.tcp c) _ timer refl refl) λ _.
              release self _ _ (
                Keeps-bind _ _ (uv-Safe env (Event.timer_init timer) refl) λ _.
                  Keeps-bind _ _ (set_data-Safe timer self) λ _.
                    Keeps-bind _ _ (uv-Safe env (Event.timer_start timer delay 0) refl) λ r.
                      Leads-if (nonzero r) _ _
                        (λ _.
                          Keeps-bind _ _ (ae_cancel_timer_connect_timeout-Safe self)
                            λ _. ae_raise_last_uv_error-Safe env)
                        (λ _. Keeps-pure _))

  module _ (self : ℕ) (c : Tcp) (p : ℕ) where
    -- A change that the shutdown of a connected socket does not make.
    fail_known :
        {A : Type 0} (req : ℕ)
        → From self
            (Object.tcp c)
            (Holds self (Object.tcp c) IsSafe)
            {A = A}
            (xfree req >> ae_raise_last_uv_error env)
    fail_known req =
        release_any self _ _
          (Leads-bind _ _ (xfree-Safe req) λ _. ae_raise_last_uv_error-Raises env)

    shutdown_known : From self (Object.tcp c) (Holds self (Object.tcp c) IsSafe) (
        if is_connected c.status
        then (uv env (Event.tcp_read_stop p) >>= λ stopped. assert (not (nonzero stopped)) >>= λ _.
            alloc >>= λ req. uv env (Event.tcp_shutdown req p) >>= λ r.
            if nonzero r then (xfree req >> ae_raise_last_uv_error env) else pure tt)
        else pure tt)
    shutdown_known =
        Leads-if (is_connected c.status) _ _
          (λ _. Leads-bind _ _ (uv_known self (Object.tcp c) env _ refl) λ stopped.
            Leads-bind _ _ (assert_known (not (nonzero stopped))) λ _.
              Leads-bind _ _ (alloc_known self (Object.tcp c)) λ req.
                Leads-bind _ _ (uv_known self (Object.tcp c) env _ refl) λ r.
                  Leads-if (nonzero r) _ _ (λ _. fail_known req) (λ _. Leads-pure tt (λ w h. h)))
          (λ _. Leads-pure tt (λ w h. h))

  pub tcp_close_gracefully-Safe :
      (self : ℕ) (argv : List Value) → Safe (tcp_close_gracefully env self argv)
  unfolding tcp_close_gracefully
  tcp_close_gracefully-Safe self argv = with_open_cdata-Safe self _ λ c p e.
      Leads-bind _ _ (reads self (Object.tcp c) _ (check_num_args-Keeps 0 1 argv)) λ _.
        Leads-if c.flags.shutdown_requested _ _ (λ _. release self _ _ (Keeps-pure _))
          λ _.
            Leads-bind _ _ (shutdown_known self c p)
              λ _. set_cdata-Safe self c _ _ refl refl (Keeps-pure _)
