-- ===== src/Udp/Failures.antt =====
-- ext/asyncengine/ae_udp.c: what the failures of libuv leave behind.
use async_engine.World.Monad.{Env, crash, raised, ◌>>=◌}
use async_engine.World.{Event, Object, Udp, World, send_data}
use async_engine.Ruby.{Exn, Value, ipv4, IpType, ipv6, ipv6_reference, no_ip}
use async_engine.Base.{List, arith, false, none, some, suc, true, ℕ, ◌≡◌, ◌∷◌}
use async_engine.Udp.{init_instance}
use async_engine.Arguments.{is_nil}
use async_engine.Base.Assoc.{lookup, insert, lookup-insert, update}
use async_engine.Base.Int.{nonzero}
use async_engine.Udp.Send.{send_copy}
use async_engine.Udp.Families.{bind_event, is_family, send_event}

-- The state after a refused datagram.
abbrev pub refused_world : IpType → ℕ → List ℕ → List ℕ → ℕ → Value → World → World
refused_world t h bytes ip port callee w =
    let datagram = w.next_pointer in
    let req = suc (suc datagram) in
    let id = suc w.proc_long_id in
    record w {
      next_pointer = suc req;
      proc_long_id = id;
      procs = insert id callee w.procs;
      requests = update w.requests req (some (send_data (suc datagram) datagram (some id)));
      trace =
          Event.xfree req
          ∷ Event.xfree (suc datagram)
          ∷ Event.xfree datagram
          ∷ send_event t req h bytes ip port
          ∷ w.trace;
    }

module _ (env : Env) (w : World) where
  -- When the bind of a new socket to an IPv4 or IPv6 address fails, init_instance ends the process:
  -- the cdata that it closes does not hold the handle yet. The socket has the cdata that UDPSocket.new
  -- has just allocated, uv_udp_init succeeds, and the bind does not.
  pub init_instance_unbound :
      (t : IpType) (self : ℕ) (cdata : Udp) (ip : List ℕ) (port : ℕ)
      → is_family t ≡ true
      → w.objects self ≡ Object.udp cdata
      → cdata.uv_handle ≡ none
      → nonzero (env.uv w.trace (Event.udp_init w.next_pointer)) ≡ false
      → nonzero
          (env.uv (Event.udp_init w.next_pointer ∷ w.trace) (bind_event t w.next_pointer ip port))
        ≡ true
      → init_instance env self t ip port w ≡ crash
  unfolding init_instance ◌>>=◌
  init_instance_unbound ipv4 self cdata ip port f here empty inits fails = ground arith
  init_instance_unbound ipv6 self cdata ip port f here empty inits fails = ground arith
  init_instance_unbound ipv6_reference self cdata ip port f here empty inits fails = absurd (cc)
  init_instance_unbound no_ip self cdata ip port f here empty inits fails = absurd (cc)

  -- When libuv refuses a datagram of an IPv4 or IPv6 socket, the part of #send_datagram after its
  -- checks, send_copy, raises the error, frees the three blocks that it allocated, and leaves the proc
  -- in AE_procs under a new id. AE_UV_ERRORS has an exception for the error.
  pub send_copy_refused :
      (t : IpType) (cdata : Udp) (h : ℕ) (bytes ip : List ℕ) (port : ℕ) (callee : Value) (e : Exn)
      → is_family t ≡ true
      → cdata.ip_type ≡ t
      → is_nil callee ≡ false
      → nonzero (env.uv w.trace (send_event t (suc (suc w.next_pointer)) h bytes ip port)) ≡ true
      → env.uv_errors (env.last_error (refused_world t h bytes ip port callee w).trace) ≡ some e
      → let v = refused_world t h bytes ip port callee w in
        (send_copy env cdata h bytes ip port callee w ≡ raised e v)
        × (lookup (suc w.proc_long_id) v.procs ≡ some callee)
  unfolding send_copy ◌>>=◌
  send_copy_refused ipv4 cdata h bytes ip port callee e f v given fails errors = (
    ground arith,
    ground (arith, lookup-insert (suc w.proc_long_id) (suc w.proc_long_id) callee w.procs),
  )
  send_copy_refused ipv6 cdata h bytes ip port callee e f v given fails errors = (
    ground arith,
    ground (arith, lookup-insert (suc w.proc_long_id) (suc w.proc_long_id) callee w.procs),
  )
  send_copy_refused ipv6_reference cdata h bytes ip port callee e f v given fails errors =
      absurd (cc)
  send_copy_refused no_ip cdata h bytes ip port callee e f v given fails errors = absurd (cc)
