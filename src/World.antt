-- ===== src/World.antt =====
-- The state of the extension: the global variables of ext/asyncengine/asyncengine_ruby.h and
-- ext/asyncengine/asyncengine_ruby.c, the module's instance variables of lib/asyncengine.rb, the
-- cdata structs of the handles, and the trace of what was asked of libuv.
pub mod Monad
pub mod Keeps
use async_engine.Base.{ℕ, Bool, List, Option}
use async_engine.Base.Int.{ℤ}
use async_engine.Ruby.{StringEncoding, IpType, Value}

-- enum ae_status.
pub data AeStatus : Type 0 where
  running releasing stopped : AeStatus

-- ae_timer.c, struct_cdata. A handle pointer is `none` for NULL.
pub record Timer : Type 0 where
  pub uv_handle : Option ℕ
  pub periodic : Bool
  pub delay : ℕ
  pub interval : ℕ
  pub ae_handle_id : ℕ
  pub on_fire_proc : Value

-- ae_udp.c, struct_cdata.
pub record Udp : Type 0 where
  pub uv_handle : Option ℕ
  pub ip_type : IpType
  pub paused : Bool
  pub encoding : StringEncoding
  pub ae_handle : ℕ
  pub ae_handle_id : ℕ

-- ae_tcp.c, enum status.
pub data TcpStatus : Type 0 where
  connecting connected : TcpStatus

-- ae_tcp.c, enum flags, a field for each bit.
pub record TcpFlags : Type 0 where
  pub releasing : Bool
  pub paused : Bool
  pub shutdown_requested : Bool
  pub connect_timeout : Bool
  pub eof_received : Bool

-- ae_tcp.c, struct_cdata.
pub record Tcp : Type 0 where
  pub uv_handle : Option ℕ
  pub ip_type : IpType
  pub status : TcpStatus
  pub flags : TcpFlags
  pub encoding : StringEncoding
  pub timer_connect_timeout : Option ℕ
  pub ae_handle : ℕ
  pub ae_handle_id : ℕ

-- What stands behind a Ruby object of the extension.
pub data Object : Type 0 where
  absent : Object
  timer : Timer → Object
  udp : Udp → Object
  tcp : Tcp → Object

-- A call of libuv, by the handle or request it is about, or a release of memory.
pub data Event : Type 0 where
  idle_init idle_start idle_stop async_init async_send is_active close : ℕ → Event
  timer_init timer_stop timer_get_repeat : ℕ → Event
  timer_start : ℕ → ℕ → ℕ → Event
  udp_init udp_recv_start udp_getsockname : ℕ → Event
  udp_bind udp_bind6 : ℕ → List ℕ → ℕ → Event
  udp_send udp_send6 : ℕ → ℕ → List ℕ → List ℕ → ℕ → Event
  tcp_init tcp_read_start tcp_read_stop tcp_getsockname tcp_getpeername is_closing : ℕ → Event
  tcp_bind tcp_bind6 : ℕ → List ℕ → ℕ → Event
  tcp_connect tcp_connect6 : ℕ → ℕ → List ℕ → ℕ → Event
  tcp_write : ℕ → ℕ → List ℕ → Event
  tcp_shutdown : ℕ → ℕ → Event
  getaddrinfo : ℕ → List ℕ → ℤ → Event
  xfree freeaddrinfo : ℕ → Event
  active_handles active_reqs : Event

-- The data of a request that libuv holds: ae_udp.c, struct_send_data (the datagram and the id of its
-- proc), ae_tcp.c, struct_uv_write_req_data (the buffer and the block with its own memory), and
-- ae_dns.c, struct_getaddrinfo_data. The first pointer is the struct's own memory.
pub data Request : Type 0 where
  send_data : ℕ → ℕ → Option ℕ → Request
  write_data : ℕ → ℕ → Option (ℕ × Value) → Request
  getaddrinfo_data : ℕ → ℕ → Request

-- struct sockaddr_in or sockaddr_in6: the address, and the port in network order.
pub record Sockaddr : Type 0 where
  pub sin_addr : List ℕ
  pub sin_port : ℕ

pub record World : Type 0 where
  pub status : AeStatus
  pub uv_loop : Bool
  pub thread : Option ℕ
  pub pid : Option ℕ
  pub mutex : Option ℕ
  pub handles : List (ℕ × Value)
  pub procs : List (ℕ × Value)
  pub proc_long_id : ℕ
  pub next_tick_procs : List Value
  pub call_from_other_thread_procs : List Value
  pub on_exit_procs : List Value
  pub user_error_handler : Value
  pub exit_error : Value
  pub next_tick_uv_idle : Option ℕ
  pub call_from_other_thread_uv_async : Option ℕ
  pub ubf_uv_async : Option ℕ
  pub objects : ℕ → Object
  pub next_object : ℕ
  pub uv_data : ℕ → Option ℕ
  pub requests : ℕ → Option Request
  pub next_pointer : ℕ
  pub trace : List Event
