-- ===== src/Tcp.antt =====
-- ext/asyncengine/ae_tcp.c: TCPSocket. This file makes one and closes it; Tcp/Methods.antt has the other
-- methods, Tcp/Callbacks.antt what libuv calls.
pub mod Graceful
pub mod Timeout
pub mod Close
pub mod Methods
pub mod Callbacks
pub mod Keeps
pub mod Safe
pub mod SafeNew
pub mod SafeMethods
pub mod SafeClose
pub mod SafeConnect
pub mod SafeCallbacks
pub mod SafeRead
pub mod Lifecycle
pub mod Refinement
use async_engine.Base.{
  ℕ, suc, Bool, true, false, not, ◌&&◌, List, [], ◌∷◌, Option, none, some, ◌==◌, is_some, leb,
  is_some, if◌then◌else◌, length,
}
use async_engine.Base.Assoc.{update}
use async_engine.Base.Int.{ℤ, pos, nonzero}
use async_engine.Ruby.{
  ascii, IpType, ipv4, ipv6, no_ip, type_error, arg_error, Value, qnil, qtrue, string, object,
  Method,
}
use async_engine.Arguments.{check_num_args, argument, string_arg, string_value_cstr}
use async_engine.IpParser.{parse_string}
use async_engine.IpUtils.{same_type, port_arg}
use async_engine.World.{Tcp, TcpStatus, connecting, connected, TcpFlags, Object, Event}
use async_engine.World.Monad.{
  M, ok, crash, pure, raise, assert, modify, ◌>>=◌, ◌>>◌, invoke, Env, uv, alloc, xfree,
}
use async_engine.HandleCommon.{
  ae_store_handle, ae_remove_handle, ae_check_status, check_uv_handle_is_open, ae_close_uv_handle,
  ae_raise_last_uv_error,
}

unfoldable pub get_cdata : ℕ → M Tcp
get_cdata self w = elim (w.objects self) [ Object.tcp cdata ↦ ok cdata w | _ ↦ crash ]

unfoldable pub set_cdata : ℕ → Tcp → M (Unit {0})
set_cdata self cdata = modify (λ w. record w { objects = update w.objects self (Object.tcp cdata) })

-- GET_CDATA_FROM_SELF_AND_CHECK_UV_HANDLE_IS_OPEN, before the rest of the method.
unfoldable pub with_open_cdata : ℕ → (Tcp → ℕ → M Value) → M Value
unfolding get_cdata check_uv_handle_is_open
with_open_cdata self body = do
  cdata ← get_cdata self
  check_uv_handle_is_open cdata.uv_handle (body cdata)

abbrev pub is_connected : TcpStatus → Bool
is_connected connected = true
is_connected connecting = false

abbrev pub no_flags : TcpFlags
no_flags = record {
  releasing = false;
  paused = false;
  shutdown_requested = false;
  connect_timeout = false;
  eof_received = false;
}

-- The bind IP of TCPSocket.new: a String or nil.
unfoldable pub bind_ip_arg : Value → M (Option (List ℕ))
unfolding string_value_cstr
bind_ip_arg (string enc bytes) = do ip ← string_value_cstr bytes; pure (some ip)
bind_ip_arg qnil = pure none
bind_ip_arg _ = raise (type_error "bind IP must be a String")

-- The bind port of TCPSocket.new: a Fixnum or nil.
unfoldable pub bind_port_arg : Value → M ℕ
unfolding port_arg
bind_port_arg qnil = pure 0
bind_port_arg v =
    port_arg v (type_error "bind port must be a Fixnum") (arg_error "invalid bind port value")

-- Parameters 3 and 4.
unfoldable pub bind_args : List Value → M (Option (List ℕ) × ℕ)
unfolding bind_ip_arg bind_port_arg
bind_args argv =
    if leb 3 (length argv)
    then (do
      bind_ip ← bind_ip_arg (argument argv 2)
      bind_port ←
          if is_some bind_ip && (length argv == 4) then bind_port_arg (argument argv 3) else pure 0
      pure (bind_ip, bind_port))
    else pure (none, 0)

-- The bind IP is an IP, of the family of the destination.
unfoldable pub check_bind_ip : IpType → Option (List ℕ) → M (Unit {0})
check_bind_ip ip_type none = pure tt
check_bind_ip ip_type (some bind_ip) =
    let bind_ip_type = parse_string bind_ip in
    if same_type bind_ip_type no_ip
    then raise (type_error "bind IP is not valid IPv4 or IPv6")
    else if not (same_type bind_ip_type ip_type)
    then raise (type_error "bind IP does not belong to the same IP family of the destination IP")
    else pure tt

module _ (env : Env) where
  -- AsyncEngineTcpSocket_alloc; nothing of the memory is written.
  unfoldable pub tcp_alloc : M ℕ
  tcp_alloc w = ok w.next_object (record w {
    next_object = suc w.next_object;
    objects = update w.objects w.next_object (Object.tcp env.memory_tcp);
  })

  -- The switch that binds, if an IP is given; no case sets `ret` for another type.
  unfoldable pub bind_handle : ℕ → IpType → Option (List ℕ) → ℕ → M ℤ
  bind_handle uv_handle ip_type none bind_port = pure (pos 0)
  bind_handle uv_handle ipv4 (some bind_ip) bind_port =
      uv env (Event.tcp_bind uv_handle bind_ip bind_port)
  bind_handle uv_handle ipv6 (some bind_ip) bind_port =
      uv env (Event.tcp_bind6 uv_handle bind_ip bind_port)
  bind_handle uv_handle _ (some bind_ip) bind_port = pure env.memory_int

  -- The switch that connects.
  unfoldable pub connect_handle : ℕ → ℕ → IpType → List ℕ → ℕ → M ℤ
  connect_handle req uv_handle ipv4 dest_ip dest_port =
      uv env (Event.tcp_connect req uv_handle dest_ip dest_port)
  connect_handle req uv_handle ipv6 dest_ip dest_port =
      uv env (Event.tcp_connect6 req uv_handle dest_ip dest_port)
  connect_handle req uv_handle _ dest_ip dest_port = pure env.memory_int

  unfoldable pub fill_cdata : ℕ → ℕ → IpType → M (Unit {0})
  unfolding set_cdata ae_store_handle
  fill_cdata self uv_handle ip_type = do
    ae_handle_id ← ae_store_handle self
    set_cdata self (record {
      uv_handle = some uv_handle;
      ip_type = ip_type;
      status = connecting;
      flags = no_flags;
      encoding = ascii;
      timer_connect_timeout = none;
      ae_handle = self;
      ae_handle_id = ae_handle_id;
    })
    modify (λ w. record w { uv_data = update w.uv_data uv_handle (some self) })

  unfoldable pub init_instance : ℕ → IpType → List ℕ → ℕ → Option (List ℕ) → ℕ → M (Unit {0})
  unfolding bind_handle connect_handle fill_cdata ae_close_uv_handle ae_raise_last_uv_error
  init_instance self ip_type dest_ip dest_port bind_ip bind_port = do
    uv_handle ← alloc
    r ← uv env (Event.tcp_init uv_handle)
    if nonzero r then (xfree uv_handle >> ae_raise_last_uv_error env) else do
      bound ← bind_handle uv_handle ip_type bind_ip bind_port
      if nonzero bound
          then (ae_close_uv_handle env (some uv_handle) >> ae_raise_last_uv_error env)
          else do
            req ← alloc
            ret ← connect_handle req uv_handle ip_type dest_ip dest_port
            if nonzero ret
                then (xfree req
                    >> ae_close_uv_handle env (some uv_handle)
                    >> ae_raise_last_uv_error env)
                else fill_cdata self uv_handle ip_type

  -- TCPSocket.new.
  unfoldable pub tcp_new : List Value → M Value
  unfolding ae_check_status check_num_args string_value_cstr port_arg bind_args check_bind_ip
      tcp_alloc init_instance
  tcp_new argv = ae_check_status do
    check_num_args 2 4 argv
    str ← string_arg (argument argv 0) (type_error "destination IP must be a String")
    dest_ip ← string_value_cstr str
    dest_port ←
        port_arg (argument argv 1) (type_error "destination port must be a Fixnum")
          (arg_error "invalid destination port value")
    (bind_ip, bind_port) ← bind_args argv
    let ip_type = parse_string dest_ip
    if same_type ip_type no_ip
        then raise (type_error "destination IP is not valid IPv4 or IPv6")
        else do
          check_bind_ip ip_type bind_ip
          instance' ← tcp_alloc
          init_instance instance' ip_type dest_ip dest_port bind_ip bind_port
          pure (object instance')

  -- _ae_cancel_timer_connect_timeout.
  unfoldable pub ae_cancel_timer_connect_timeout : ℕ → M (Unit {0})
  unfolding get_cdata set_cdata ae_close_uv_handle
  ae_cancel_timer_connect_timeout self = do
    cdata ← get_cdata self
    assert (is_some cdata.timer_connect_timeout)
    ae_close_uv_handle env cdata.timer_connect_timeout
    set_cdata self (record cdata { timer_connect_timeout = none })

  -- Where a timer of the connection runs, it is cancelled.
  unfoldable pub cancel_if_set : ℕ → M (Unit {0})
  unfolding get_cdata ae_cancel_timer_connect_timeout
  cancel_if_set self = do
    cdata ← get_cdata self
    if is_some cdata.timer_connect_timeout then ae_cancel_timer_connect_timeout self else pure tt

  -- AE_CLOSE_UV_HANDLE(cdata->_uv_handle); cdata->_uv_handle = NULL;
  unfoldable pub close_uv : ℕ → M (Unit {0})
  unfolding get_cdata set_cdata ae_close_uv_handle
  close_uv self = do
    cdata ← get_cdata self
    ae_close_uv_handle env cdata.uv_handle
    set_cdata self (record cdata { uv_handle = none })

  -- The end of TCPSocket#close and #destroy: a connected socket calls on_disconnected at once.
  unfoldable pub disconnect_if_connected : ℕ → M Value
  unfolding get_cdata ae_remove_handle
  disconnect_if_connected self = do
    cdata ← get_cdata self
    if is_connected cdata.status
        then (do
          ae_remove_handle cdata.ae_handle_id
          env.ruby (invoke (object cdata.ae_handle) Method.on_disconnected (qnil ∷ []))
          pure qtrue)
        else pure qtrue

  -- TCPSocket#close.
  unfoldable pub tcp_close : ℕ → M Value
  unfolding with_open_cdata close_uv cancel_if_set disconnect_if_connected
  tcp_close self =
      with_open_cdata self
        λ cdata uv_handle. do close_uv self; cancel_if_set self; disconnect_if_connected self

  -- TCPSocket#destroy.
  unfoldable pub tcp_destroy : ℕ → M Value
  unfolding with_open_cdata close_uv cancel_if_set disconnect_if_connected set_cdata
  tcp_destroy self = with_open_cdata self λ cdata uv_handle. do
    close_uv self
    cancel_if_set self
    closed ← get_cdata self
    set_cdata self (record closed { flags = record closed.flags { releasing = true } })
    disconnect_if_connected self
