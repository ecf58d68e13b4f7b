-- ===== src/Examples.antt =====
-- Test data: an engine with one timer, one socket of each kind and the three handles of its loop.
pub mod Timers
pub mod Engines
pub mod Sockets
pub mod Addresses
pub mod Lengths
pub mod UdpSockets
pub mod TcpSockets
pub mod Lookups
pub mod Systems
pub mod Stops
use async_engine.Base.{
  Bool, [], false, if◌then◌else◌, none, some, true, ◌==◌, ◌∷◌, ◌%◌, ◌*◌, ◌+◌, ◌/◌,
}
use async_engine.World.Monad.{Env, pure}
use async_engine.World.{Event, Object, Tcp, Timer, Udp, World, connected, releasing, running}
use async_engine.Ruby.{ascii, ipv4, object, qnil, standard}
use async_engine.Base.Int.{negsuc, pos}
use async_engine.Tcp.{no_flags}

abbrev pub example_timer : Timer
example_timer = record {
  uv_handle = some 5;
  periodic = false;
  delay = 100;
  interval = 0;
  ae_handle_id = 1;
  on_fire_proc = object 9;
}

abbrev pub example_udp : Udp
example_udp = record {
  uv_handle = some 6;
  ip_type = ipv4;
  paused = false;
  encoding = ascii;
  ae_handle = 2;
  ae_handle_id = 2;
}

abbrev pub example_tcp : Tcp
example_tcp = record {
  uv_handle = some 7;
  ip_type = ipv4;
  status = connected;
  flags = no_flags;
  encoding = ascii;
  timer_connect_timeout = some 8;
  ae_handle = 3;
  ae_handle_id = 3;
}

-- libuv answers 0 to every call but those that `refused` names, and Ruby answers nil.
abbrev pub env_refusing : (Event → Bool) → Env
env_refusing refused = record {
  uv = λ t c. if refused c then negsuc 0 else pos 0;
  last_error = λ t. pos 3;
  uv_errors = λ i. some (standard 3);
  ruby = λ c. pure qnil;
  others = λ w. w;
  sockaddr = λ t c. record { sin_addr = []; sin_port = 0 };
  inet_pton4 = λ t. none;
  inet_pton6 = λ t. none;
  inet_ntop4 = λ t. none;
  inet_ntop6 = λ t. none;
  htons = λ n. n % 256 * 256 + n / 256;
  memory_int = pos 0;
  memory_address = ([], 0);
  memory_timer = example_timer;
  memory_udp = example_udp;
  memory_tcp = example_tcp;
}

abbrev pub calm_env : Env
calm_env = env_refusing (λ c. false)

abbrev pub example_world : World
example_world = record {
  status = running;
  uv_loop = true;
  thread = some 1;
  pid = some 1;
  mutex = some 1;
  handles = (1, object 1) ∷ (2, object 2) ∷ (3, object 3) ∷ [];
  procs = [];
  proc_long_id = 0;
  next_tick_procs = object 20 ∷ [];
  call_from_other_thread_procs = [];
  on_exit_procs = [];
  user_error_handler = qnil;
  exit_error = qnil;
  next_tick_uv_idle = some 2;
  call_from_other_thread_uv_async = some 3;
  ubf_uv_async = some 4;
  objects = λ j.
      if j == 1
      then Object.timer example_timer
      else if j == 2
      then Object.udp example_udp
      else if j == 3
      then Object.tcp example_tcp
      else Object.absent;
  next_object = 4;
  uv_data = λ p. none;
  requests = λ r. none;
  next_pointer = 9;
  trace = [];
}
