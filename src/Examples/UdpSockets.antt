-- ===== src/Examples/UdpSockets.antt =====
-- The theorems on UDP sockets at concrete inputs.
use async_engine.Base.{Bool, [], false, none, refl, some, true, ◌∷◌, ◌≡◌}
use async_engine.World.{Event, Sockaddr, World}
use async_engine.Udp.Callbacks.{ae_recv_callback, uv_recv_callback, uv_send_callback}
use async_engine.Release.{ae_take_gvl_and_run_with_error_handler}
use async_engine.Examples.{calm_env, example_udp, example_world}
use async_engine.Udp.Close.{closed_udp_world, udp_close_once}
use async_engine.Base.Assoc.{lookup}
use async_engine.Base.Int.{nonzero, pos}
use async_engine.World.Monad.{ok, ◌>>=◌}
use async_engine.Udp.Pause.{paused_world, udp_pause-uv_recv_callback}
use async_engine.Ruby.{qfalse, qnil, qtrue, ipv4}
use async_engine.Udp.Send.{send_copy, udp_send_datagram}
use async_engine.Udp.Delivery.{sending_world, uv_send_callback-send_copy}
use async_engine.Udp.{udp_close, udp_destroy, udp_is_alive, udp_pause, udp_resume}

abbrev receiving_world : World
receiving_world = record example_world { uv_data = λ p. some 2 }

abbrev paused : Bool → World
paused b = paused_world 2 example_udp b receiving_world

abbrev sender : Sockaddr
sender = record { sin_addr = []; sin_port = 0 }

udp_pause-uv_recv_callback_example :
    ((udp_pause 2 >>= λ _. uv_recv_callback calm_env 6 (pos 1) (b'x' ∷ []) sender) receiving_world
      ≡ ok qnil (paused true))
    × ((udp_pause 2 >>= λ _.
            udp_resume 2 >>= λ _. uv_recv_callback calm_env 6 (pos 1) (b'x' ∷ []) sender)
          receiving_world
        ≡ ae_take_gvl_and_run_with_error_handler calm_env
            (ae_recv_callback calm_env 2 1 (b'x' ∷ []) sender)
            (paused_world 2 example_udp false (paused true)))
udp_pause-uv_recv_callback_example =
    udp_pause-uv_recv_callback calm_env 6 2 0 (b'x' ∷ []) sender example_udp receiving_world 6 refl
      refl refl

uv_send_callback-send_copy_example :
    let v = sending_world ipv4 6 (b'x' ∷ []) (b'1' ∷ []) 5060 example_world in
    (send_copy calm_env example_udp 6 (b'x' ∷ []) (b'1' ∷ []) 5060 qnil example_world ≡ ok qtrue v)
    × (uv_send_callback calm_env 11 (pos 0) v
        ≡ ok qnil (record v { trace = Event.xfree 10 ∷ Event.xfree 9 ∷ Event.xfree 11 ∷ v.trace }))
unfolding nonzero
uv_send_callback-send_copy_example =
    uv_send_callback-send_copy calm_env example_udp 6 (b'x' ∷ []) (b'1' ∷ []) 5060 example_world
      ipv4 (pos 0) refl refl refl

udp_close_once_example :
    let v = closed_udp_world 2 example_udp 6 example_world in
    (udp_close calm_env 2 example_world ≡ ok qtrue v)
    × (lookup 2 v.handles ≡ none)
    × (udp_close calm_env 2 v ≡ ok qfalse v)
    × (udp_destroy calm_env 2 v ≡ ok qfalse v)
    × (udp_pause 2 v ≡ ok qfalse v)
    × (udp_resume 2 v ≡ ok qfalse v)
    × (udp_is_alive 2 v ≡ ok qfalse v)
    × (udp_send_datagram calm_env 2 (qnil ∷ qnil ∷ qnil ∷ []) none v ≡ ok qfalse v)
udp_close_once_example =
    udp_close_once calm_env 2 6 example_udp example_world refl refl qnil qnil qnil
