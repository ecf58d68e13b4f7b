-- ===== src/Examples/Systems.antt =====
-- The theorems on the extension as a whole at concrete inputs.
use async_engine.Tcp.Lifecycle.{Advanced, Advances, established, opening}
use async_engine.System.Calls.{Call}
use async_engine.World.Monad.{Callback, Env, invoke, ok, ◌>>=◌}
use async_engine.World.Keeps.{Ends, Keeps-pure}
use async_engine.World.{Event, World, running}
use async_engine.Handles.{IsSafe, closes, without}
use async_engine.System.{call, Outcome, Reach, Step}
use async_engine.System.Invariant.{Reach-IsSafe}
use async_engine.Tcp.SafeConnect.{ReportsClosing}
use async_engine.Handles.Actions.{Safe}
use async_engine.Engine.{UvEvent, dispatch}
use async_engine.Ruby.{Value, fixnum, object, qnil, qtrue, utf8}
use async_engine.Loop.Turn.{Waits, turn_runs}
use async_engine.Base.{
  [], arith, false, if◌then◌else◌, inl, inr, ltb, none, refl, some, subst, sym, ℕ, ◌==◌, ◌∷◌, ◌≡◌,
  true, ◌<◌,
}
use async_engine.HandleCommon.{ae_uv_handle_close_callback}
use async_engine.Examples.{calm_env, example_tcp, example_timer, example_world}
use async_engine.Timer.Close.{closed_world, timer_close_once}
use async_engine.Tcp.Callbacks.{connect_done, uv_timer_connect_timeout_callback}
use async_engine.Examples.Timers.{example_world-IsSafe}
use async_engine.Arguments.{is_nil}
use async_engine.Tcp.Refinement.{phase_symbol, tcp-Follows}
use async_engine.Base.Int.{pos, nonzero}
use async_engine.Tcp.SafeClose.{tcp-IsSafe}
use async_engine.Tcp.{tcp_close, tcp_destroy, tcp_new}
use async_engine.Tcp.Methods.{
  tcp_close_gracefully, tcp_local_address, tcp_peer_address, tcp_send_data, tcp_set_connect_timeout,
  tcp_status,
}
use async_engine.Udp.SafeMethods.{udp-IsSafe}
use async_engine.Udp.{
  udp_close, udp_destroy, udp_local_address, udp_new, udp_pause, udp_resume, udp_set_encoding,
}
use async_engine.Udp.Send.{udp_send_datagram}
use async_engine.Loop.{uv_async_callback, uv_idle_callback}

-- libuv tells of closed handles.
abbrev closing_env : Env
closing_env = record calm_env {
  uv = λ t c. elim c [
    | Event.is_closing p ↦ if ltb 0 (closes p t) then pos 1 else pos 0
    | _ ↦ pos 0
  ];
}

abbrev closed_timer : World
closed_timer = closed_world 1 example_timer 5 example_world

calm_ruby : (c : Callback) → Safe (closing_env.ruby c)
calm_ruby c = Keeps-pure qnil

positive : (n : ℕ) → 0 < n → nonzero (if ltb 0 n then pos 1 else pos 0) ≡ true
unfolding nonzero
positive n h = ground arith

closing_env-reports : ReportsClosing closing_env
closing_env-reports t p h = positive (closes p t) h

udp-IsSafe_example :
    let argv = fixnum (pos 2) ∷ fixnum (pos 7) ∷ [] in
    Ends Unit IsSafe IsSafe (udp_new calm_env argv example_world)
    × Ends Unit IsSafe IsSafe (udp_send_datagram calm_env 2 argv none example_world)
    × Ends Unit IsSafe IsSafe (udp_local_address calm_env 2 example_world)
    × Ends Unit IsSafe IsSafe (udp_pause 2 example_world)
    × Ends Unit IsSafe IsSafe (udp_resume 2 example_world)
    × Ends Unit IsSafe IsSafe (udp_set_encoding utf8 2 example_world)
    × Ends Unit IsSafe IsSafe (udp_close calm_env 2 example_world)
    × Ends Unit IsSafe IsSafe (udp_destroy calm_env 2 example_world)
udp-IsSafe_example =
    udp-IsSafe calm_env 2 (fixnum (pos 2) ∷ fixnum (pos 7) ∷ []) none utf8 example_world
      example_world-IsSafe

tcp-IsSafe_example :
    let argv = fixnum (pos 2) ∷ [] in
    Ends Unit
      (λ v. IsSafe (without example_world.next_object v))
      IsSafe
      (tcp_new closing_env argv example_world)
    × Ends Unit IsSafe IsSafe (tcp_send_data closing_env 3 argv none example_world)
    × Ends Unit IsSafe IsSafe (tcp_local_address closing_env 3 example_world)
    × Ends Unit IsSafe IsSafe (tcp_peer_address closing_env 3 example_world)
    × Ends Unit IsSafe IsSafe (tcp_set_connect_timeout closing_env 3 (fixnum (pos 2)) example_world)
    × Ends Unit IsSafe IsSafe (tcp_close_gracefully closing_env 3 argv example_world)
    × Ends Unit IsSafe IsSafe (tcp_close closing_env 3 example_world)
    × Ends Unit IsSafe IsSafe (tcp_destroy closing_env 3 example_world)
tcp-IsSafe_example =
    tcp-IsSafe closing_env calm_ruby 3 (fixnum (pos 2) ∷ []) none (fixnum (pos 2)) example_world
      example_world-IsSafe

-- A timer is closed, and libuv tells that its handle is.
Reach-closed :
    Reach closing_env
      (pos 1)
      (pos 2)
      example_world
      (record closed_timer { trace = Event.xfree 5 ∷ closed_timer.trace })
unfolding call dispatch ae_uv_handle_close_callback ◌>>=◌
Reach-closed =
    Reach.after
      (Reach.after Reach.here (
        Step.calls (Call.call_timer_close 1) (
          subst (λ r. Outcome r closed_timer)
            (sym ((timer_close_once closing_env 1 example_timer 5 example_world refl refl).0))
            (Outcome.returns qtrue closed_timer))))
      (Step.delivers (UvEvent.closed 5) tt (Outcome.returns qnil _))

Reach-IsSafe_example : IsSafe (record closed_timer { trace = Event.xfree 5 ∷ closed_timer.trace })
Reach-IsSafe_example =
    Reach-IsSafe closing_env (pos 1) (pos 2) calm_ruby closing_env-reports example_world
      (record closed_timer { trace = Event.xfree 5 ∷ closed_timer.trace }) Reach-closed
      example_world-IsSafe

-- A called proc leaves itself in the list of AE.on_exit.
abbrev marking_env : Env
marking_env = record calm_env {
  ruby = λ c w. elim c [
    | invoke f m args ↦ ok qnil (record w { on_exit_procs = f ∷ w.on_exit_procs })
  ];
}

abbrev Marked : Value → World → Type 0
Marked f w = Waits f w.on_exit_procs

abbrev two_queues : World
two_queues = record example_world { call_from_other_thread_procs = object 21 ∷ [] }

only_object : (n : ℕ) (f : Value) → Waits f (object n ∷ []) → is_nil f ≡ false
only_object n f (inl e) = subst (λ x. is_nil x ≡ false) e refl
only_object n f (inr m) = absurd m

turn_runs_example :
    Ends ⊥
      (λ v. ⊥)
      (λ v. (v.status ≡ running) × Marked (object 20) v)
      (uv_idle_callback marking_env 2 two_queues)
    × Ends ⊥
        (λ v. ⊥)
        (λ v. (v.status ≡ running) × Marked (object 21) v)
        (uv_async_callback marking_env two_queues)
turn_runs_example =
    turn_runs marking_env Marked (λ f w e. (e, inl refl)) (λ f g w e r. (e, inr r)) (object 20)
      (object 21) 2 two_queues refl (only_object 20) (only_object 21) (inl refl) (inl refl)

abbrev linked_world : World
linked_world = record example_world { uv_data = λ q. if q == 8 then some 3 else none }

tcp-Follows_example :
    (tcp_status 3 linked_world ≡ ok (phase_symbol established) linked_world)
    × Ends Unit
        (Advanced opening 3)
        (Advanced opening 3)
        (tcp_send_data calm_env 3 [] none linked_world)
    × Ends Unit
        (Advanced opening 3)
        (Advanced opening 3)
        (tcp_set_connect_timeout calm_env 3 qnil linked_world)
    × Ends Unit
        (Advanced opening 3)
        (Advanced opening 3)
        (tcp_close_gracefully calm_env 3 [] linked_world)
    × Ends Unit (Advanced opening 3) (Advanced opening 3) (tcp_close calm_env 3 linked_world)
    × Ends Unit (Advanced opening 3) (Advanced opening 3) (tcp_destroy calm_env 3 linked_world)
    × Ends Unit
        (Advanced opening 3)
        (Advanced opening 3)
        (uv_timer_connect_timeout_callback calm_env (pos 1) (pos 2) 8 linked_world)
    × Ends Unit
        (Advanced opening 3)
        (Advanced opening 3)
        (connect_done calm_env (pos 1) (pos 2) 8 3 (pos 0) linked_world)
tcp-Follows_example =
    tcp-Follows calm_env (pos 1) (pos 2) opening 3 (λ c. Keeps-pure qnil) [] none qnil 8 (pos 0)
      linked_world example_tcp refl refl (record { advances = Advances.establishes })
