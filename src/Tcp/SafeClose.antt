-- ===== src/Tcp/SafeClose.antt =====
-- ext/asyncengine/ae_tcp.c: the handles are safe under TCPSocket#close and #destroy, which call Ruby.
use async_engine.World.Monad.{Callback, Env}
use async_engine.World.Keeps.{Ends, Keeps-bind, Keeps-pure, Leads-if}
use async_engine.Handles.{IsSafe, without}
use async_engine.Base.{List, Option, refl, ℕ}
use async_engine.Handles.Actions.{Safe, ae_remove_handle-Safe}
use async_engine.Ruby.{Value}
use async_engine.World.{World}
use async_engine.Tcp.SafeMethods.{
  cancel_if_set-Safe, close_uv-Safe, tcp_close_gracefully-Safe, tcp_local_address-Safe,
  tcp_peer_address-Safe, tcp_send_data-Safe, tcp_set_connect_timeout-Safe,
}
use async_engine.Tcp.{disconnect_if_connected, is_connected, tcp_close, tcp_destroy, tcp_new}
use async_engine.Tcp.Safe.{get_cdata-Holds, set_cdata-Safe, with_open_cdata-Safe}
use async_engine.Handles.Cells.{release}
use async_engine.Tcp.Methods.{
  tcp_close_gracefully, tcp_local_address, tcp_peer_address, tcp_send_data, tcp_set_connect_timeout,
}
use async_engine.Tcp.SafeNew.{tcp_new-IsSafe}

module _ (env : Env) (ruby-Safe : (c : Callback) → Safe (env.ruby c)) where
  disconnect_if_connected-Safe : (self : ℕ) → Safe (disconnect_if_connected env self)
  unfolding disconnect_if_connected
  disconnect_if_connected-Safe self = get_cdata-Holds self _ λ c. release self _ _ (
      Leads-if (is_connected c.status) _ _
        (λ _.
          Keeps-bind _ _ (ae_remove_handle-Safe c.ae_handle_id)
            λ _. Keeps-bind _ _ (ruby-Safe _) λ _. Keeps-pure _)
        (λ _. Keeps-pure _))

  pub tcp_close-Safe : (self : ℕ) → Safe (tcp_close env self)
  unfolding tcp_close
  tcp_close-Safe self = with_open_cdata-Safe self _ λ c p e. release self _ _ (
      Keeps-bind _ _ (close_uv-Safe env self)
        λ _. Keeps-bind _ _ (cancel_if_set-Safe env self) λ _. disconnect_if_connected-Safe self)

  pub tcp_destroy-Safe : (self : ℕ) → Safe (tcp_destroy env self)
  unfolding tcp_destroy
  tcp_destroy-Safe self = with_open_cdata-Safe self _ λ c p e. release self _ _ (
      Keeps-bind _ _ (close_uv-Safe env self) λ _. Keeps-bind _ _ (cancel_if_set-Safe env self) λ _.
        get_cdata-Holds self _
          λ d. set_cdata-Safe self d _ _ refl refl (disconnect_if_connected-Safe self))

  -- No handle is closed twice by a TCPSocket: in a state where no handle was closed twice and each
  -- pointer that the extension holds is an unclosed handle that no other pointer holds,
  -- TCPSocket.new, send_data, local_address, peer_address, set_connect_timeout, close_gracefully,
  -- close and destroy, with any arguments and any answers of libuv, end in such a state, also where
  -- they raise, unless they end the process. Where TCPSocket.new raises, this is so without the object
  -- that it allocated, if any, whose memory may hold anything. The condition is that Ruby code keeps
  -- such states.
  pub tcp-IsSafe :
      (self : ℕ) (argv : List Value) (block : Option Value) (v : Value) (w : World)
      → IsSafe w
      → Ends Unit (λ v. IsSafe (without w.next_object v)) IsSafe (tcp_new env argv w)
        × Ends Unit IsSafe IsSafe (tcp_send_data env self argv block w)
        × Ends Unit IsSafe IsSafe (tcp_local_address env self w)
        × Ends Unit IsSafe IsSafe (tcp_peer_address env self w)
        × Ends Unit IsSafe IsSafe (tcp_set_connect_timeout env self v w)
        × Ends Unit IsSafe IsSafe (tcp_close_gracefully env self argv w)
        × Ends Unit IsSafe IsSafe (tcp_close env self w)
        × Ends Unit IsSafe IsSafe (tcp_destroy env self w)
  tcp-IsSafe self argv block v w s = (
    tcp_new-IsSafe env argv w s,
    (tcp_send_data-Safe env self argv block).at w s,
    (tcp_local_address-Safe env self).at w s,
    (tcp_peer_address-Safe env self).at w s,
    (tcp_set_connect_timeout-Safe env self v).at w s,
    (tcp_close_gracefully-Safe env self argv).at w s,
    (tcp_close-Safe self).at w s,
    (tcp_destroy-Safe self).at w s,
  )
