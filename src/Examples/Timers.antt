-- ===== src/Examples/Timers.antt =====
-- The theorems on timers at concrete inputs.
use async_engine.Base.{
  [], if◌then◌else◌, none, refl, some, ◌==◌, ◌∷◌, ◌≡◌, arith, sym, ℕ, ◌-◌, ◌<◌, ◌∙◌,
}
use async_engine.World.Monad.{ok}
use async_engine.HandleCommon.{ae_proc_call_0}
use async_engine.Timer.{
  ae_timer_callback, timer_close, timer_destroy, timer_is_alive, timer_pause, periodic_timer_new,
  periodic_timer_restart, timer_new, timer_restart,
}
use async_engine.Timer.Close.{ae_timer_callback_order, closed_world, timer_close_once}
use async_engine.Ruby.{object, qfalse, qtrue, fixnum}
use async_engine.Base.Assoc.{lookup}
use async_engine.Base.Int.{pos}
use async_engine.World.Keeps.{Ends}
use async_engine.Handles.{IsSafe, Owner, pointer_of}
use async_engine.Timer.SafeMethods.{timer-IsSafe}
use async_engine.Examples.{calm_env, example_timer, example_world}

timer_close_once_example :
    let v = closed_world 1 example_timer 5 example_world in
    (timer_close calm_env 1 example_world ≡ ok qtrue v)
    × (lookup 1 v.handles ≡ none)
    × (timer_close calm_env 1 v ≡ ok qfalse v)
    × (timer_destroy calm_env 1 v ≡ ok qfalse v)
    × (timer_pause calm_env 1 v ≡ ok qfalse v)
    × (timer_is_alive calm_env 1 v ≡ ok qfalse v)
timer_close_once_example = timer_close_once calm_env 1 example_timer 5 example_world refl refl

ae_timer_callback_order_example :
    ae_timer_callback calm_env 1 example_world
    ≡ ae_proc_call_0 calm_env (object 9) (closed_world 1 example_timer 5 example_world)
ae_timer_callback_order_example =
    ae_timer_callback_order calm_env 1 example_timer 5 example_world refl refl

-- Who holds a handle of `example_world`.
abbrev owner_of : ℕ → Owner
owner_of p =
    if p == 2
    then Owner.next_tick
    else if p == 3
    then Owner.call_from_other_thread
    else if p == 4
    then Owner.ubf
    else if p == 8
    then Owner.connect_timeout 3
    else Owner.main (p - 4)

pointer_owner :
    (o : Owner) (p : ℕ) → pointer_of example_world o ≡ some p → (owner_of p ≡ o) × (p < 9)
pointer_owner Owner.next_tick p e = ground arith
pointer_owner Owner.call_from_other_thread p e = ground arith
pointer_owner Owner.ubf p e = ground arith
pointer_owner (Owner.main j) p e = ground arith
pointer_owner (Owner.connect_timeout j) p e = ground arith

pub example_world-IsSafe : IsSafe example_world
example_world-IsSafe = record {
  closed_once = λ p. omega arith;
  unclosed = λ o p e. refl;
  below = λ o p e. (pointer_owner o p e).1;
  closed_below = λ p h. omega arith;
  distinct = λ o u p e f. sym ((pointer_owner o p e).0) ∙ (pointer_owner u p f).0;
}

timer-IsSafe_example :
    let argv = fixnum (pos 2) ∷ [] in
    let block = some (object 9) in
    Ends Unit IsSafe IsSafe (timer_new calm_env argv block example_world)
    × Ends Unit IsSafe IsSafe (periodic_timer_new calm_env argv block example_world)
    × Ends Unit IsSafe IsSafe (timer_pause calm_env 1 example_world)
    × Ends Unit IsSafe IsSafe (timer_restart calm_env 1 argv example_world)
    × Ends Unit IsSafe IsSafe (periodic_timer_restart calm_env 1 argv example_world)
    × Ends Unit IsSafe IsSafe (timer_close calm_env 1 example_world)
    × Ends Unit IsSafe IsSafe (timer_destroy calm_env 1 example_world)
timer-IsSafe_example =
    timer-IsSafe calm_env 1 (fixnum (pos 2) ∷ []) (some (object 9)) example_world
      example_world-IsSafe
