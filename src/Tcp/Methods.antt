-- ===== src/Tcp/Methods.antt =====
-- ext/asyncengine/ae_tcp.c: the methods of a TCPSocket.
use async_engine.Base.{ℕ, true, not, ◌||◌, List, Option, none, some, is_some, if◌then◌else◌}
use async_engine.Base.Assoc.{update}
use async_engine.Base.Int.{nonzero}
use async_engine.Ruby.{type_error, Value, qnil, qtrue, qfalse, symbol}
use async_engine.Arguments.{
  check_num_args, get_block_or_proc, argument, string_arg, delay_arg, is_nil,
}
use async_engine.IpUtils.{ae_ip_utils_get_ip_port, to_rb}
use async_engine.World.{TcpStatus, connecting, connected, Event, write_data}
use async_engine.World.Monad.{
  M, pure, assert, get, modify, ◌>>=◌, ◌>>◌, Env, uv, alloc, xfree, set_request_data,
}
use async_engine.HandleCommon.{ae_raise_last_uv_error}
use async_engine.Tcp.{
  get_cdata, set_cdata, with_open_cdata, is_connected, ae_cancel_timer_connect_timeout,
}

-- The memory of a block that was given, registered with the garbage collector.
unfoldable pub store_on_write : Value → M (Option (ℕ × Value))
store_on_write block =
    if not (is_nil block)
    then (do on_write_block ← alloc; pure (some (on_write_block, block)))
    else pure none

-- The release of that memory.
unfoldable pub free_on_write : Option (ℕ × Value) → M (Unit {0})
free_on_write none = pure tt
free_on_write (some (on_write_block, block)) = xfree on_write_block

-- TCPSocket#status.
unfoldable pub status_symbol : Option ℕ → TcpStatus → Value
status_symbol none status = symbol "closed"
status_symbol (some h) connecting = symbol "connecting"
status_symbol (some h) connected = symbol "connected"

unfoldable pub tcp_status : ℕ → M Value
unfolding get_cdata status_symbol
tcp_status self = do cdata ← get_cdata self; pure (status_symbol cdata.uv_handle cdata.status)

-- TCPSocket#connected?.
unfoldable pub tcp_is_connected : ℕ → M Value
unfolding with_open_cdata
tcp_is_connected self =
    with_open_cdata self λ cdata uv_handle. pure (to_rb (is_connected cdata.status))

-- TCPSocket#alive?.
unfoldable pub tcp_is_alive : ℕ → M Value
unfolding with_open_cdata
tcp_is_alive self = with_open_cdata self λ cdata uv_handle. pure qtrue

module _ (env : Env) where
  -- TCPSocket#send_data.
  unfoldable pub tcp_send_data : ℕ → List Value → Option Value → M Value
  unfolding check_num_args with_open_cdata get_block_or_proc store_on_write free_on_write
      ae_raise_last_uv_error
  tcp_send_data self argv block = do
    check_num_args 1 2 argv
    with_open_cdata self λ cdata uv_handle. do
      callee ← get_block_or_proc 2 argv block
      bytes ← string_arg (argument argv 0) (type_error "data must be a String")
      data' ← alloc
      write_req_data ← alloc
      on_write_block ← store_on_write callee
      req ← alloc
      set_request_data req (write_data write_req_data data' on_write_block)
      r ← uv env (Event.tcp_write req uv_handle bytes)
      if nonzero r
          then (do
            xfree data'
            free_on_write on_write_block
            xfree write_req_data
            xfree req
            ae_raise_last_uv_error env)
          else pure qtrue

  -- TCPSocket#local_address.
  unfoldable pub tcp_local_address : ℕ → M Value
  unfolding with_open_cdata
  tcp_local_address self = with_open_cdata self λ cdata uv_handle. do
    w ← get
    let addr = env.sockaddr w.trace (Event.tcp_getsockname uv_handle)
    r ← uv env (Event.tcp_getsockname uv_handle)
    if nonzero r then pure qnil else ae_ip_utils_get_ip_port env addr cdata.ip_type

  -- TCPSocket#peer_address.
  unfoldable pub tcp_peer_address : ℕ → M Value
  unfolding with_open_cdata
  tcp_peer_address self = with_open_cdata self λ cdata uv_handle.
      if not (is_connected cdata.status) then pure qnil else do
        w ← get
        let addr = env.sockaddr w.trace (Event.tcp_getpeername uv_handle)
        r ← uv env (Event.tcp_getpeername uv_handle)
        if nonzero r then pure qnil else ae_ip_utils_get_ip_port env addr cdata.ip_type

  -- TCPSocket#set_connect_timeout.
  unfoldable pub tcp_set_connect_timeout : ℕ → Value → M Value
  unfolding with_open_cdata delay_arg set_cdata ae_cancel_timer_connect_timeout
      ae_raise_last_uv_error
  tcp_set_connect_timeout self rb_timeout = with_open_cdata self λ cdata uv_handle.
      if is_connected cdata.status || is_some cdata.timer_connect_timeout then pure qnil else do
        delay ← delay_arg rb_timeout
        timer ← alloc
        set_cdata self (record cdata { timer_connect_timeout = some timer })
        uv env (Event.timer_init timer)
        modify (λ w. record w { uv_data = update w.uv_data timer (some self) })
        r ← uv env (Event.timer_start timer delay 0)
        if nonzero r
            then (ae_cancel_timer_connect_timeout env self >> ae_raise_last_uv_error env)
            else pure qtrue

  -- TCPSocket#close_gracefully.
  unfoldable pub tcp_close_gracefully : ℕ → List Value → M Value
  unfolding with_open_cdata check_num_args set_cdata ae_raise_last_uv_error
  tcp_close_gracefully self argv = with_open_cdata self λ cdata uv_handle. do
    check_num_args 0 1 argv
    if cdata.flags.shutdown_requested then pure qfalse else do
      if is_connected cdata.status
          then (do
            stopped ← uv env (Event.tcp_read_stop uv_handle)
            assert (not (nonzero stopped))
            shutdown_req ← alloc
            r ← uv env (Event.tcp_shutdown shutdown_req uv_handle)
            if nonzero r then (xfree shutdown_req >> ae_raise_last_uv_error env) else pure tt)
          else pure tt
      set_cdata self (record cdata { flags = record cdata.flags { shutdown_requested = true } })
      pure qtrue
