-- ===== src/Lib.antt =====
-- AsyncEngine: the C extension of ext/asyncengine, an event loop for Ruby on libuv.
--
-- The program. AE.run (ext/asyncengine/asyncengine_ruby.c) opens three handles of the loop, queues its
-- block and runs uv_run. Timers, UDP sockets and TCP sockets are Ruby objects with a C struct (cdata)
-- that points to a handle of libuv; an open handle keeps its object in the hash AE_handles. libuv calls
-- the C callbacks, and these call Ruby under an error handler. An error, or AE.stop, releases the
-- engine: the status becomes RELEASING, each handle's #destroy runs, and the handles of the loop are
-- closed, so that uv_run ends.
--
-- The model. World is the whole state: the C globals, the instance variables of the module, the objects
-- with their cdata, and the trace of what was asked of libuv. An action (World/Monad.antt) passes the
-- state on, raises a Ruby exception, or ends the process (a failing AE_ASSERT or a read through NULL).
-- Env holds what is not in the repository: the answers of libuv to a call after a trace of calls, what
-- Ruby code does, inet_pton and inet_ntop, and the content of memory that was not written.
--
--   Base: helpers; ruby's hashes are association lists (Base/Assoc.antt), int and long are Base/Int.antt.
--   Ruby, Arguments: Ruby's values, and rb_utilities.h with the conversions of arguments.
--   HandleCommon: ae_handle_common.c and ae_handle_common.h.
--   Timer, Udp, Tcp: ae_timer.c, ae_udp.c, ae_tcp.c. AsyncEngineTimer_close is timer_close, and so on;
--   static functions keep their names.
--   NextTick, CallFromOtherThread, Loop: ae_next_tick.c, ae_call_from_other_thread.c, and ae_ubf.
--   Release: ae_release_loop, ae_handle_error and ae_run_with_error_handler.
--   Dns, Utils: ae_dns.c and ae_utils.c.
--   Engine: AE.run, with uv_run as a list of the events that libuv finds; Engine/Status.antt has the
--   short methods of asyncengine_ruby.c and AE.stop, AE.on_error and AE.on_exit of lib/asyncengine.rb.
--   System: the calls, events, starts and ends as the steps of one relation, and what they reach.
--   IpMachine, IpParser, IpUtils: ip_parser.c state by state, and ae_ip_utils.c. IpParser.Lengths gives
--   each state the number of bytes that it may still read and compares the texts of compare_ips with
--   the sizes of their buffers.
--   Handles: the ownership of the handles of libuv, as an invariant of World; the files named Safe in
--   the folders of the parts show that each action keeps it.
--   Tcp/Lifecycle: the phases of a TCPSocket as an abstract machine.
--   Examples: the theorems at concrete inputs.
--
-- Bounds. The error handler and the release call one another; `run_at_depth` bounds that by two levels,
-- which are enough because the release runs in status RELEASING, where errors are dropped. Loops of
-- the source are structural recursion on the lists they read. Ids of AE_procs and AE_handles and delays
-- are unbounded numbers here, longs in the source. The parser is given the length of a Ruby string as the
-- int that the source makes of it (parse_string).
--
-- Not modelled: the registration of classes and symbols, the debugging macros, the mark and free
-- functions and the receive buffers, which belong to the garbage collector and to libuv, and the
-- methods of lib/asyncengine that users override. libuv, Ruby and the C library are parameters.
pub mod Base
pub mod Ruby
pub mod World
pub mod Arguments
pub mod HandleCommon
pub mod Timer
pub mod IpMachine
pub mod IpParser
pub mod IpUtils
pub mod Udp
pub mod Tcp
pub mod NextTick
pub mod CallFromOtherThread
pub mod Release
pub mod Dns
pub mod Utils
pub mod Loop
pub mod Engine
pub mod System
pub mod Handles
pub mod Examples
