-- ===== src/Udp/Delivery.antt =====
-- ext/asyncengine/ae_udp.c: the memory of a datagram from #send_datagram to its callback.
use async_engine.World.Monad.{Env, ok, ◌>>=◌}
use async_engine.World.{Event, Udp, World, send_data}
use async_engine.Base.{List, arith, false, none, some, suc, ℕ, ◌∷◌, ◌≡◌, true}
use async_engine.Ruby.{ipv4, qnil, qtrue, IpType, ipv6, ipv6_reference, no_ip}
use async_engine.Base.Int.{nonzero, ℤ}
use async_engine.Udp.Send.{send_copy}
use async_engine.Base.Assoc.{update}
use async_engine.Udp.Callbacks.{uv_send_callback}
use async_engine.Udp.Families.{is_family, send_event}

-- The state while libuv holds the request.
abbrev pub sending_world : IpType → ℕ → List ℕ → List ℕ → ℕ → World → World
sending_world t h bytes ip port w =
    let datagram = w.next_pointer in
    let req = suc (suc datagram) in
    record w {
      next_pointer = suc req;
      requests = update w.requests req (some (send_data (suc datagram) datagram none));
      trace = send_event t req h bytes ip port ∷ w.trace;
    }

module _ (env : Env) (cdata : Udp) (h : ℕ) (bytes ip : List ℕ) (port : ℕ) (w : World) where
  -- A datagram of an IPv4 or IPv6 socket that #send_datagram passes to send_copy, without a proc, and
  -- that libuv takes and later reports, with success or not: the three blocks that were allocated for
  -- it are freed, each once, and no Ruby code runs.
  pub uv_send_callback-send_copy :
      (t : IpType) (status : ℤ)
      → is_family t ≡ true
      → cdata.ip_type ≡ t
      → nonzero (env.uv w.trace (send_event t (suc (suc w.next_pointer)) h bytes ip port)) ≡ false
      → let datagram = w.next_pointer in
        let req = suc (suc datagram) in
        let v = sending_world t h bytes ip port w in
        (send_copy env cdata h bytes ip port qnil w ≡ ok qtrue v)
        × (uv_send_callback env req status v
            ≡ ok qnil (record v {
              trace = Event.xfree (suc datagram) ∷ Event.xfree datagram ∷ Event.xfree req ∷ v.trace;
            }))
  unfolding send_copy uv_send_callback ◌>>=◌
  uv_send_callback-send_copy ipv4 status f v taken = (ground arith, ground arith)
  uv_send_callback-send_copy ipv6 status f v taken = (ground arith, ground arith)
  uv_send_callback-send_copy ipv6_reference status f v taken = absurd (cc)
  uv_send_callback-send_copy no_ip status f v taken = absurd (cc)
