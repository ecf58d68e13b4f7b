-- ===== src/Udp/Callbacks.antt =====
-- ext/asyncengine/ae_udp.c: what libuv calls on a datagram and after a send. The structs that pass a
-- callback's arguments on, such as last_uv_recv_callback_data, are arguments here.
use async_engine.Base.{ℕ, zero, suc, take, List, [], ◌∷◌, Option, none, some, if◌then◌else◌}
use async_engine.Base.Int.{ℤ, pos, negsuc}
use async_engine.Ruby.{Value, qnil, fixnum, string, address, object, external, Method}
use async_engine.IpUtils.{ae_ip_utils_get_ip_port}
use async_engine.World.{Sockaddr, Request, send_data, write_data, getaddrinfo_data}
use async_engine.World.Monad.{
  M, crash, pure, get, ◌>>=◌, ◌>>◌, invoke, Env, handle_data, request_data, xfree,
}
use async_engine.Release.{is_releasing, ae_take_gvl_and_run_with_error_handler}
use async_engine.Udp.{get_cdata}
use async_engine.Udp.Send.{ae_send_callback}

-- rb_ary_entry of the array of an IP and a port.
abbrev pub address_ip : Value → Value
address_ip (address ip port) = string external ip
address_ip _ = qnil

abbrev pub address_port : Value → Value
address_port (address ip port) = fixnum (pos port)
address_port _ = qnil

module _ (env : Env) where
  -- _ae_recv_callback.
  unfoldable pub ae_recv_callback : ℕ → ℕ → List ℕ → Sockaddr → M Value
  unfolding get_cdata
  ae_recv_callback self nread recv_buffer addr = do
    cdata ← get_cdata self
    array_ip_port ← ae_ip_utils_get_ip_port env addr cdata.ip_type
    env.ruby (
        invoke (object cdata.ae_handle) Method.on_datagram_received (
          string cdata.encoding (take nread recv_buffer)
          ∷ address_ip array_ip_port
          ∷ address_port array_ip_port
          ∷ []))

  unfoldable pub deliver : ℕ → ℤ → List ℕ → Sockaddr → M Value
  unfolding get_cdata ae_recv_callback
  deliver self (pos zero) recv_buffer addr = pure qnil
  deliver self (negsuc n) recv_buffer addr = pure qnil
  deliver self (pos (suc n)) recv_buffer addr = do
    cdata ← get_cdata self
    if cdata.paused
        then pure qnil
        else ae_take_gvl_and_run_with_error_handler env
            (ae_recv_callback self (suc n) recv_buffer addr)

  -- _uv_recv_callback; `nread` is -1 for an error.
  unfoldable pub uv_recv_callback : ℕ → ℤ → List ℕ → Sockaddr → M Value
  unfolding deliver
  uv_recv_callback handle nread recv_buffer addr = do
    self ← handle_data handle
    w ← get
    if is_releasing w.status then pure qnil else deliver self nread recv_buffer addr

  unfoldable pub run_on_send : Option ℕ → ℤ → M Value
  run_on_send none status = pure qnil
  run_on_send (some proc_id) status =
      ae_take_gvl_and_run_with_error_handler env (ae_send_callback env proc_id status)

  unfoldable pub free_send_data : ℕ → Request → ℤ → M Value
  unfolding run_on_send
  free_send_data req (send_data send_data' datagram on_send_proc_id) status = do
    xfree req
    xfree datagram
    xfree send_data'
    run_on_send on_send_proc_id status
  free_send_data req (write_data a b c) status = λ w. crash
  free_send_data req (getaddrinfo_data a b) status = λ w. crash

  -- _uv_send_callback.
  unfoldable pub uv_send_callback : ℕ → ℤ → M Value
  unfolding free_send_data
  uv_send_callback req status = do d ← request_data req; free_send_data req d status
