-- ===== src/Udp/SafeMethods.antt =====
-- ext/asyncengine/ae_udp.c: the handles are safe under the methods of a UDPSocket.
use async_engine.World.Keeps.{Ends, Keeps-bind, Keeps-get, Keeps-pure, Keeps-raise, Leads-if}
use async_engine.World.Monad.{Env}
use async_engine.Ruby.{IpType, StringEncoding, Value, ipv4, ipv6}
use async_engine.Handles.{IsSafe}
use async_engine.Base.{List, Option, not, refl, ℕ}
use async_engine.Handles.Actions.{
  Safe, ae_raise_last_uv_error-Safe, ae_store_proc-Safe, alloc-Safe, set_request_data-Safe, uv-Safe,
  xfree-Safe,
}
use async_engine.World.{Udp, World}
use async_engine.IpParser.{parse_string}
use async_engine.Arguments.{argument, is_nil}
use async_engine.Arguments.Keeps.{
  check_num_args-Keeps, get_block_or_proc-Keeps, get_ip_port-Keeps, port_arg-Keeps,
  string_arg-Keeps, string_value_cstr-Keeps,
}
use async_engine.Base.Int.{nonzero}
use async_engine.Handles.Cells.{release}
use async_engine.IpUtils.{same_type}
use async_engine.Udp.Send.{send_by_type, send_copy, store_on_send, udp_send_datagram}
use async_engine.Udp.Safe.{close_handle-Safe, set_cdata-Safe, udp_new-Safe, with_open_cdata-Safe}
use async_engine.Udp.{
  udp_close, udp_destroy, udp_local_address, udp_new, udp_pause, udp_resume, udp_set_encoding,
}

module _ (env : Env) where
  send_by_type-Safe :
      (req p : ℕ) (t : IpType) (datagram ip : List ℕ) (port : ℕ)
      → Safe (send_by_type env req p t datagram ip port)
  unfolding send_by_type
  send_by_type-Safe req p ipv4 datagram ip port = uv-Safe env _ refl
  send_by_type-Safe req p ipv6 datagram ip port = uv-Safe env _ refl
  send_by_type-Safe req p _ datagram ip port = Keeps-pure _

  store_on_send-Safe : (callee : Value) → Safe (store_on_send callee)
  unfolding store_on_send
  store_on_send-Safe callee =
      Leads-if (not (is_nil callee)) _ _
        (λ _. Keeps-bind _ _ (ae_store_proc-Safe callee) λ _. Keeps-pure _) (λ _. Keeps-pure _)

  send_copy-Safe :
      (c : Udp) (p : ℕ) (bytes ip : List ℕ) (port : ℕ) (callee : Value)
      → Safe (send_copy env c p bytes ip port callee)
  unfolding send_copy
  send_copy-Safe c p bytes ip port callee = Keeps-bind _ _ alloc-Safe λ datagram.
      Keeps-bind _ _ alloc-Safe λ data'. Keeps-bind _ _ (store_on_send-Safe callee) λ id.
        Keeps-bind _ _ alloc-Safe λ req. Keeps-bind _ _ (set_request_data-Safe req _) λ _.
          Keeps-bind _ _ (send_by_type-Safe req p c.ip_type bytes ip port) λ r.
            Leads-if (nonzero r) _ _
              (λ _.
                Keeps-bind _ _
                  (Keeps-bind _ _ (Keeps-bind _ _ (xfree-Safe datagram) λ _. xfree-Safe data')
                    λ _. xfree-Safe req)
                  λ _. ae_raise_last_uv_error-Safe env)
              (λ _. Keeps-pure _)

  pub udp_send_datagram-Safe :
      (self : ℕ) (argv : List Value) (block : Option Value)
      → Safe (udp_send_datagram env self argv block)
  unfolding udp_send_datagram
  udp_send_datagram-Safe self argv block = Keeps-bind _ _ (check_num_args-Keeps 3 4 argv) λ _.
      with_open_cdata-Safe self _ λ c p e. release self _ _ (
        Keeps-bind _ _ (get_block_or_proc-Keeps 4 argv block) λ callee.
          Keeps-bind _ _ (string_arg-Keeps (argument argv 0) _) λ bytes.
            Keeps-bind _ _ (string_arg-Keeps (argument argv 1) _) λ str.
              Keeps-bind _ _ (string_value_cstr-Keeps str) λ ip.
                Keeps-bind _ _ (port_arg-Keeps (argument argv 2) _ _) λ port.
                  Leads-if (not (same_type c.ip_type (parse_string ip))) _ _ (λ _. Keeps-raise _)
                    (λ _. send_copy-Safe c p bytes ip port callee))

  pub udp_local_address-Safe : (self : ℕ) → Safe (udp_local_address env self)
  unfolding udp_local_address
  udp_local_address-Safe self = with_open_cdata-Safe self _ λ c p e. release self _ _ (
      Keeps-bind _ _ Keeps-get λ w. Keeps-bind _ _ (uv-Safe env _ refl) λ r.
        Leads-if (nonzero r) _ _ (λ _. ae_raise_last_uv_error-Safe env)
          (λ _. get_ip_port-Keeps env _ _))

  pub udp_close-Safe : (self : ℕ) → Safe (udp_close env self)
  unfolding udp_close
  udp_close-Safe self =
      with_open_cdata-Safe self _
        λ c p e. release self _ _ (Keeps-bind _ _ (close_handle-Safe env self) λ _. Keeps-pure _)

  pub udp_destroy-Safe : (self : ℕ) → Safe (udp_destroy env self)
  unfolding udp_destroy
  udp_destroy-Safe self =
      with_open_cdata-Safe self _
        λ c p e. release self _ _ (Keeps-bind _ _ (close_handle-Safe env self) λ _. Keeps-pure _)

pub udp_pause-Safe : (self : ℕ) → Safe (udp_pause self)
unfolding udp_pause
udp_pause-Safe self =
    with_open_cdata-Safe self _ λ c p e. set_cdata-Safe self c _ _ refl (Keeps-pure _)

pub udp_resume-Safe : (self : ℕ) → Safe (udp_resume self)
unfolding udp_resume
udp_resume-Safe self =
    with_open_cdata-Safe self _ λ c p e. set_cdata-Safe self c _ _ refl (Keeps-pure _)

pub udp_set_encoding-Safe :
    (encoding : StringEncoding) (self : ℕ) → Safe (udp_set_encoding encoding self)
unfolding udp_set_encoding
udp_set_encoding-Safe encoding self =
    with_open_cdata-Safe self _ λ c p e. set_cdata-Safe self c _ _ refl (Keeps-pure _)

module _ (env : Env) where
  -- No handle is closed twice by a UDPSocket: in a state where no handle was closed twice and each
  -- pointer that the extension holds is an unclosed handle that no other pointer holds,
  -- UDPSocket.new, send_datagram, local_address, pause, resume, the methods that set the encoding,
  -- close and destroy, with any arguments and any answers of libuv, end in such a state, also where
  -- they raise, unless they end the process.
  pub udp-IsSafe :
      (self : ℕ) (argv : List Value) (block : Option Value) (encoding : StringEncoding) (w : World)
      → IsSafe w
      → Ends Unit IsSafe IsSafe (udp_new env argv w)
        × Ends Unit IsSafe IsSafe (udp_send_datagram env self argv block w)
        × Ends Unit IsSafe IsSafe (udp_local_address env self w)
        × Ends Unit IsSafe IsSafe (udp_pause self w)
        × Ends Unit IsSafe IsSafe (udp_resume self w)
        × Ends Unit IsSafe IsSafe (udp_set_encoding encoding self w)
        × Ends Unit IsSafe IsSafe (udp_close env self w)
        × Ends Unit IsSafe IsSafe (udp_destroy env self w)
  udp-IsSafe self argv block encoding w s = (
    (udp_new-Safe env argv).at w s,
    (udp_send_datagram-Safe env self argv block).at w s,
    (udp_local_address-Safe env self).at w s,
    (udp_pause-Safe self).at w s,
    (udp_resume-Safe self).at w s,
    (udp_set_encoding-Safe encoding self).at w s,
    (udp_close-Safe env self).at w s,
    (udp_destroy-Safe env self).at w s,
  )
