-- ===== src/Examples/Sockets.antt =====
-- The theorems on sockets and procs at concrete inputs.
use async_engine.Udp.{init_instance}
use async_engine.Base.{Bool, [], false, none, refl, some, true, ◌∷◌, ◌≡◌, ℕ, ◌≢◌}
use async_engine.World.Monad.{ok, pure, crash, raised, ◌>>=◌}
use async_engine.World.{Event, Object, World}
use async_engine.HandleCommon.{ae_get_proc, ae_remove_proc, ae_store_proc}
use async_engine.Ruby.{ipv4, object, qnil, qtrue, standard}
use async_engine.Base.Assoc.{lookup, erase, insert}
use async_engine.Tcp.{tcp_close}
use async_engine.HandleCommon.RoundTrip.{ae_remove_proc-ae_store_proc}
use async_engine.Tcp.Close.{dead, tcp_close_lem}
use async_engine.Udp.Failures.{init_instance_unbound, refused_world, send_copy_refused}
use async_engine.Udp.Send.{send_copy}
use async_engine.Examples.{calm_env, env_refusing, example_tcp, example_udp, example_world}
use async_engine.Base.Int.{nonzero}

abbrev is_bind : Event → Bool
is_bind (Event.udp_bind p ip port) = true
is_bind _ = false

abbrev is_send : Event → Bool
is_send (Event.udp_send r p bytes ip port) = true
is_send _ = false

-- A socket that UDPSocket.new has just allocated.
abbrev unbound_world : World
unbound_world = record example_world {
  objects = λ j. Object.udp (record example_udp { uv_handle = none });
}

init_instance_unbound_example :
    init_instance (env_refusing is_bind) 2 ipv4 (b'1' ∷ []) 5060 unbound_world ≡ crash
unfolding nonzero
init_instance_unbound_example =
    init_instance_unbound (env_refusing is_bind) unbound_world ipv4 2
      (record example_udp { uv_handle = none }) (b'1' ∷ []) 5060 refl refl refl refl refl

send_copy_refused_example :
    let v = refused_world ipv4 6 (b'x' ∷ []) (b'1' ∷ []) 5060 (object 9) example_world in
    (send_copy
        (env_refusing is_send)
        example_udp
        6
        (b'x' ∷ [])
        (b'1' ∷ [])
        5060
        (object 9)
        example_world
      ≡ raised (standard 3) v)
    × (lookup 1 v.procs ≡ some (object 9))
unfolding nonzero
send_copy_refused_example =
    send_copy_refused (env_refusing is_send) example_world ipv4 example_udp 6 (b'x' ∷ [])
      (b'1' ∷ []) 5060 (object 9) (standard 3) refl refl refl refl refl

tcp_close_lem_example :
    (v : World) × (dead (v.objects 3) ≡ true)
    × (v.trace ≡ Event.close 8 ∷ Event.close 7 ∷ [])
    × (v.handles ≡ example_world.handles)
    × (tcp_close calm_env 3 example_world
        ≡ (pure qnil >>= λ _. pure qtrue) (record v { handles = erase 3 example_world.handles }))
tcp_close_lem_example = tcp_close_lem calm_env 3 example_tcp 7 example_world refl refl

ae_remove_proc-ae_store_proc_example :
    let stored = record example_world { proc_long_id = 1; procs = (1, object 9) ∷ [] } in
    let removed = record stored { procs = [] } in
    (ae_store_proc (object 9) example_world ≡ ok 1 stored)
    × (ae_get_proc 1 stored ≡ ok (object 9) stored)
    × (ae_remove_proc 1 stored ≡ ok (object 9) removed)
    × (ae_remove_proc 1 removed ≡ ok qnil removed)
    × ((j : ℕ) → j ≢ 1 → lookup j [] ≡ lookup j example_world.procs)
unfolding insert erase
ae_remove_proc-ae_store_proc_example = ae_remove_proc-ae_store_proc (object 9) example_world
