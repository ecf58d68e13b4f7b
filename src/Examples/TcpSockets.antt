-- ===== src/Examples/TcpSockets.antt =====
-- The theorems on TCP sockets at concrete inputs.
use async_engine.World.{Event, Object, Tcp, World, connecting}
use async_engine.Ruby.{Method, object, qfalse, qtrue}
use async_engine.Base.{[], refl, some, true, ◌∷◌, ◌≡◌}
use async_engine.Tcp.Callbacks.{
  ae_connect_callback, connect_done, uv_timer_connect_timeout_callback,
}
use async_engine.HandleCommon.{ae_get_uv_error}
use async_engine.Examples.{calm_env, example_tcp, example_world}
use async_engine.Tcp.Close.{dead}
use async_engine.Base.Assoc.{erase}
use async_engine.Tcp.Graceful.{graceful_world, shut_world, tcp_close_gracefully_connecting}
use async_engine.World.Monad.{invoke, ok, ◌>>=◌}
use async_engine.Base.Int.{negsuc, nonzero, pos, ℤ}
use async_engine.Tcp.Methods.{tcp_close_gracefully}
use async_engine.Tcp.Timeout.{uv_timer_connect_timeout_callback_lem}

abbrev connecting_tcp : Tcp
connecting_tcp = record example_tcp { status = connecting }

abbrev connecting_world : World
connecting_world = record example_world {
  objects = λ j. Object.tcp connecting_tcp;
  uv_data = λ p. some 3;
}

abbrev eof : ℤ
eof = negsuc 1

abbrev etimedout : ℤ
etimedout = negsuc 2

uv_timer_connect_timeout_callback_lem_example :
    (v : World) × (uv_timer_connect_timeout_callback calm_env eof etimedout 8 connecting_world
      ≡ ok tt v)
    × (dead (v.objects 3) ≡ true)
    × (v.trace ≡ Event.close 7 ∷ Event.close 8 ∷ [])
    × (ae_connect_callback calm_env eof etimedout 3 (negsuc 0) v
        ≡ (ae_get_uv_error calm_env etimedout >>= λ e.
              calm_env.ruby (invoke (object 3) Method.on_connection_error (e ∷ [])))
            (record v { handles = erase 3 connecting_world.handles }))
unfolding nonzero
uv_timer_connect_timeout_callback_lem_example =
    uv_timer_connect_timeout_callback_lem calm_env eof etimedout 8 3 7 8 connecting_tcp
      connecting_world (negsuc 0) refl refl refl refl refl

tcp_close_gracefully_connecting_example :
    let v = graceful_world 3 connecting_tcp connecting_world in
    (tcp_close_gracefully calm_env 3 [] connecting_world ≡ ok qtrue v)
    × (tcp_close_gracefully calm_env 3 [] v ≡ ok qfalse v)
    × (connect_done calm_env eof etimedout 7 3 (pos 0) v ≡ ok tt (shut_world 7 3 connecting_tcp v))
unfolding nonzero
tcp_close_gracefully_connecting_example =
    tcp_close_gracefully_connecting calm_env eof etimedout 3 7 connecting_tcp connecting_world 7
      refl refl refl refl refl refl
