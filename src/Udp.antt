-- ===== src/Udp.antt =====
-- ext/asyncengine/ae_udp.c: UDPSocket, but for the callbacks of libuv, which Udp/Callbacks.antt has.
pub mod Close
pub mod Families
pub mod Delivery
pub mod Pause
pub mod Failures
pub mod Send
pub mod Callbacks
pub mod Safe
pub mod SafeMethods
pub mod SafeCallbacks
use async_engine.Base.{ℕ, suc, true, false, not, List, none, some, if◌then◌else◌}
use async_engine.Base.Assoc.{update}
use async_engine.Base.Int.{ℤ, nonzero}
use async_engine.Ruby.{
  StringEncoding, external, utf8, ascii, IpType, ipv4, ipv6, no_ip, type_error, arg_error, Value,
  qtrue, symbol, object,
}
use async_engine.Arguments.{check_num_args, argument, string_arg, string_value_cstr}
use async_engine.IpParser.{parse_string}
use async_engine.IpUtils.{
  same_type, port_arg, ae_ip_type_to_rb_symbol, ae_ip_utils_get_ip_port, to_rb,
}
use async_engine.World.{Udp, Object, Event}
use async_engine.World.Monad.{
  M, ok, crash, pure, raise, get, modify, ◌>>=◌, ◌>>◌, Env, uv, alloc, xfree,
}
use async_engine.HandleCommon.{
  ae_store_handle, ae_remove_handle, ae_check_status, check_uv_handle_is_open, ae_close_uv_handle,
  ae_raise_last_uv_error,
}

unfoldable pub get_cdata : ℕ → M Udp
get_cdata self w = elim (w.objects self) [ Object.udp cdata ↦ ok cdata w | _ ↦ crash ]

unfoldable pub set_cdata : ℕ → Udp → M (Unit {0})
set_cdata self cdata = modify (λ w. record w { objects = update w.objects self (Object.udp cdata) })

-- ae_encoding_to_rb_symbol, of rb_utilities.c.
unfoldable pub ae_encoding_to_rb_symbol : StringEncoding → Value
ae_encoding_to_rb_symbol external = symbol "external"
ae_encoding_to_rb_symbol utf8 = symbol "utf8"
ae_encoding_to_rb_symbol ascii = symbol "ascii"

-- GET_CDATA_FROM_SELF_AND_CHECK_UV_HANDLE_IS_OPEN, before the rest of the method.
unfoldable pub with_open_cdata : ℕ → (Udp → ℕ → M Value) → M Value
unfolding get_cdata check_uv_handle_is_open
with_open_cdata self body = do
  cdata ← get_cdata self
  check_uv_handle_is_open cdata.uv_handle (body cdata)

module _ (env : Env) where
  -- AsyncEngineUdpSocket_alloc.
  unfoldable pub udp_alloc : M ℕ
  udp_alloc w = ok w.next_object (record w {
    next_object = suc w.next_object;
    objects =
        update w.objects w.next_object (Object.udp (record env.memory_udp { uv_handle = none }));
  })

  unfoldable pub close_handle : ℕ → M (Unit {0})
  unfolding get_cdata set_cdata ae_close_uv_handle ae_remove_handle
  close_handle self = do
    cdata ← get_cdata self
    ae_close_uv_handle env cdata.uv_handle
    set_cdata self (record cdata { uv_handle = none })
    ae_remove_handle cdata.ae_handle_id
    pure tt

  -- The switch that binds; `r` keeps the 0 of uv_udp_init where no case fits.
  unfoldable pub bind_handle : ℕ → IpType → List ℕ → ℕ → ℤ → M ℤ
  bind_handle uv_handle ipv4 bind_ip bind_port r =
      uv env (Event.udp_bind uv_handle bind_ip bind_port)
  bind_handle uv_handle ipv6 bind_ip bind_port r =
      uv env (Event.udp_bind6 uv_handle bind_ip bind_port)
  bind_handle uv_handle _ bind_ip bind_port r = pure r

  unfoldable pub fill_cdata : ℕ → ℕ → IpType → M (Unit {0})
  unfolding set_cdata ae_store_handle
  fill_cdata self uv_handle ip_type = do
    ae_handle_id ← ae_store_handle self
    set_cdata self (record {
      uv_handle = some uv_handle;
      ip_type = ip_type;
      paused = false;
      encoding = ascii;
      ae_handle = self;
      ae_handle_id = ae_handle_id;
    })
    modify (λ w. record w { uv_data = update w.uv_data uv_handle (some self) })

  unfoldable pub init_instance : ℕ → IpType → List ℕ → ℕ → M (Unit {0})
  unfolding get_cdata bind_handle close_handle fill_cdata ae_raise_last_uv_error
  init_instance self ip_type bind_ip bind_port = do
    uv_handle ← alloc
    r ← uv env (Event.udp_init uv_handle)
    if nonzero r then (xfree uv_handle >> ae_raise_last_uv_error env) else do
      bound ← bind_handle uv_handle ip_type bind_ip bind_port r
      if nonzero bound then (close_handle self >> ae_raise_last_uv_error env) else do
        started ← uv env (Event.udp_recv_start uv_handle)
        if nonzero started
            then (close_handle self >> ae_raise_last_uv_error env)
            else fill_cdata self uv_handle ip_type

  -- UDPSocket.new, once the status is checked.
  unfoldable pub udp_new : List Value → M Value
  unfolding ae_check_status check_num_args string_value_cstr port_arg udp_alloc init_instance
  udp_new argv = ae_check_status do
    check_num_args 2 2 argv
    str ← string_arg (argument argv 0) (type_error "bind IP must be a String")
    bind_ip ← string_value_cstr str
    bind_port ←
        port_arg (argument argv 1) (type_error "bind port must be a Fixnum")
          (arg_error "invalid bind port value")
    let ip_type = parse_string bind_ip
    if same_type ip_type no_ip then raise (type_error "bind IP is not valid IPv4 or IPv6") else do
      instance' ← udp_alloc
      init_instance instance' ip_type bind_ip bind_port
      pure (object instance')

  -- UDPSocket#local_address.
  unfoldable pub udp_local_address : ℕ → M Value
  unfolding with_open_cdata ae_raise_last_uv_error
  udp_local_address self = with_open_cdata self λ cdata uv_handle. do
    w ← get
    let addr = env.sockaddr w.trace (Event.udp_getsockname uv_handle)
    r ← uv env (Event.udp_getsockname uv_handle)
    if nonzero r then ae_raise_last_uv_error env else ae_ip_utils_get_ip_port env addr cdata.ip_type

  -- UDPSocket#close.
  unfoldable pub udp_close : ℕ → M Value
  unfolding with_open_cdata close_handle
  udp_close self = with_open_cdata self λ cdata uv_handle. close_handle self >> pure qtrue

  -- UDPSocket#destroy.
  unfoldable pub udp_destroy : ℕ → M Value
  unfolding with_open_cdata close_handle
  udp_destroy self = with_open_cdata self λ cdata uv_handle. close_handle self >> pure qtrue

-- UDPSocket#ip_type.
unfoldable pub udp_ip_type : ℕ → M Value
unfolding with_open_cdata
udp_ip_type self =
    with_open_cdata self λ cdata uv_handle. pure (ae_ip_type_to_rb_symbol cdata.ip_type)

-- UDPSocket#pause.
unfoldable pub udp_pause : ℕ → M Value
unfolding with_open_cdata set_cdata
udp_pause self =
    with_open_cdata self
      λ cdata uv_handle. do set_cdata self (record cdata { paused = true }); pure qtrue

-- UDPSocket#resume.
unfoldable pub udp_resume : ℕ → M Value
unfolding with_open_cdata set_cdata
udp_resume self =
    with_open_cdata self
      λ cdata uv_handle. do set_cdata self (record cdata { paused = false }); pure qtrue

-- UDPSocket#paused?.
unfoldable pub udp_is_paused : ℕ → M Value
unfolding with_open_cdata
udp_is_paused self = with_open_cdata self λ cdata uv_handle. pure (to_rb cdata.paused)

-- UDPSocket#set_encoding_external, #set_encoding_utf8 and #set_encoding_ascii, by the encoding.
unfoldable pub udp_set_encoding : StringEncoding → ℕ → M Value
unfolding with_open_cdata set_cdata
udp_set_encoding encoding self =
    with_open_cdata self
      λ cdata uv_handle. do set_cdata self (record cdata { encoding = encoding }); pure qtrue

-- UDPSocket#encoding.
unfoldable pub udp_encoding : ℕ → M Value
unfolding with_open_cdata
udp_encoding self =
    with_open_cdata self λ cdata uv_handle. pure (ae_encoding_to_rb_symbol cdata.encoding)

-- UDPSocket#alive?.
unfoldable pub udp_is_alive : ℕ → M Value
unfolding with_open_cdata
udp_is_alive self = with_open_cdata self λ cdata uv_handle. pure qtrue
