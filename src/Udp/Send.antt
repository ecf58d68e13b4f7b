-- ===== src/Udp/Send.antt =====
-- ext/asyncengine/ae_udp.c: UDPSocket#send_datagram, and what its callback does in Ruby.
use async_engine.Base.{ℕ, Bool, true, false, not, List, Option, none, some, if◌then◌else◌}
use async_engine.Base.Int.{ℤ, nonzero}
use async_engine.Ruby.{IpType, ipv4, ipv6, type_error, arg_error, Value, qnil, qtrue}
use async_engine.Arguments.{
  check_num_args, get_block_or_proc, argument, string_arg, string_value_cstr, is_nil,
}
use async_engine.IpParser.{parse_string}
use async_engine.IpUtils.{same_type, port_arg}
use async_engine.World.{AeStatus, releasing, Udp, Event, send_data}
use async_engine.World.Monad.{
  M, pure, raise, get, ◌>>=◌, ◌>>◌, Env, uv, alloc, xfree, set_request_data,
}
use async_engine.HandleCommon.{
  ae_store_proc, ae_remove_proc, ae_raise_last_uv_error, ae_get_last_uv_error, ae_proc_call_1,
}
use async_engine.Udp.{with_open_cdata}

-- The id of the proc, if one was given.
unfoldable pub store_on_send : Value → M (Option ℕ)
unfolding ae_store_proc
store_on_send callee =
    if not (is_nil callee)
    then (do proc_id ← ae_store_proc callee; pure (some proc_id))
    else pure none

abbrev pub is_releasing : AeStatus → Bool
is_releasing releasing = true
is_releasing _ = false

module _ (env : Env) where
  -- The switch that sends; no case sets `r` for another type.
  unfoldable pub send_by_type : ℕ → ℕ → IpType → List ℕ → List ℕ → ℕ → M ℤ
  send_by_type req uv_handle ipv4 datagram ip port =
      uv env (Event.udp_send req uv_handle datagram ip port)
  send_by_type req uv_handle ipv6 datagram ip port =
      uv env (Event.udp_send6 req uv_handle datagram ip port)
  send_by_type req uv_handle _ datagram ip port = pure env.memory_int

  -- From the copy of the datagram on.
  unfoldable pub send_copy : Udp → ℕ → List ℕ → List ℕ → ℕ → Value → M Value
  unfolding store_on_send send_by_type ae_raise_last_uv_error
  send_copy cdata uv_handle bytes ip port callee = do
    datagram ← alloc
    send_data' ← alloc
    on_send_proc_id ← store_on_send callee
    req ← alloc
    set_request_data req (send_data send_data' datagram on_send_proc_id)
    r ← send_by_type req uv_handle cdata.ip_type bytes ip port
    if nonzero r
        then (xfree datagram >> xfree send_data' >> xfree req >> ae_raise_last_uv_error env)
        else pure qtrue

  -- UDPSocket#send_datagram.
  unfoldable pub udp_send_datagram : ℕ → List Value → Option Value → M Value
  unfolding check_num_args with_open_cdata get_block_or_proc string_value_cstr port_arg send_copy
  udp_send_datagram self argv block = do
    check_num_args 3 4 argv
    with_open_cdata self λ cdata uv_handle. do
      callee ← get_block_or_proc 4 argv block
      bytes ← string_arg (argument argv 0) (type_error "datagram must be a String")
      str ← string_arg (argument argv 1) (type_error "destination IP must be a String")
      ip ← string_value_cstr str
      port ←
          port_arg (argument argv 2) (type_error "destination port must be a Fixnum")
            (arg_error "invalid destination port value")
      if not (same_type cdata.ip_type (parse_string ip))
          then raise (type_error "invalid destination IP family")
          else send_copy cdata uv_handle bytes ip port callee

  -- _ae_send_callback.
  unfoldable pub ae_send_callback : ℕ → ℤ → M Value
  unfolding ae_remove_proc ae_proc_call_1 ae_get_last_uv_error
  ae_send_callback on_send_proc_id status = do
    callee ← ae_remove_proc on_send_proc_id
    w ← get
    if is_releasing w.status
        then pure qnil
        else (if nonzero status
            then (do error ← ae_get_last_uv_error env; ae_proc_call_1 env callee error)
            else ae_proc_call_1 env callee qnil)
