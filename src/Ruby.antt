-- ===== src/Ruby.antt =====
-- The Ruby values and exceptions that the C code handles, with the enums of
-- ext/asyncengine/rb_utilities.h and ext/asyncengine/ip_parser.h.
use async_engine.Base.{ℕ, List, String}
use async_engine.Base.Int.{ℤ}

-- enum_string_encoding.
pub data StringEncoding : Type 0 where
  external utf8 ascii : StringEncoding

-- enum_ip_type.
pub data IpType : Type 0 where
  ipv4 ipv6 ipv6_reference no_ip : IpType

-- What `rb_errinfo` may hold. `standard` and `exception` are errors that Ruby code raises, with
-- an identity: the first is a StandardError, the second is not. `killed` is the Fixnum 8 that
-- Thread#kill leaves.
pub data Exn : Type 0 where
  type_error arg_error range_error engine_error not_running_error thread_error : String → Exn
  uv_error : ℤ → Exn
  standard exception : ℕ → Exn
  interrupt : Exn
  killed : Exn

-- A float is a multiple of 10⁻⁶, given by that multiple. An `address` is the array of an IP and a
-- port.
pub data Value : Type 0 where
  qnil qtrue qfalse : Value
  fixnum : ℤ → Value
  float : ℤ → Value
  symbol : String → Value
  string : StringEncoding → List ℕ → Value
  address : List ℕ → ℕ → Value
  strings : List (List ℕ) → Value
  proc : ℕ → Value
  object : ℕ → Value
  error : Exn → Value

-- The methods that the C code calls on Ruby objects.
pub data Method : Type 0 where
  call on_datagram_received on_connected on_connection_error on_data_received : Method
  on_disconnected check_ints : Method
