-- ===== src/Engine/Start.antt =====
-- ext/asyncengine/asyncengine_ruby.c: how AE.run starts the engine.
use async_engine.World.Monad.{Env, ok, ◌>>=◌}
use async_engine.World.{Event, World, stopped, running}
use async_engine.Base.{List, [], false, none, ℕ, ◌∷◌, ◌≡◌, arith, refl, some, suc, true, ◌++◌}
use async_engine.Release.Quits.{Loaded}
use async_engine.Ruby.{Value}
use async_engine.Base.Int.{nonzero, ℤ}
use async_engine.Engine.{start_engine}
use async_engine.Arguments.{is_proc}
use async_engine.NextTick.{ae_next_tick, load_ae_next_tick_uv_idle}
use async_engine.CallFromOtherThread.{load_ae_call_from_other_thread}

-- What AE.run asks of libuv, in order, and the state when uv_run begins.
abbrev started_trace : World → List Event
started_trace w =
    let idle = w.next_pointer in
    Event.active_reqs
    ∷ Event.idle_start idle
    ∷ Event.is_active idle
    ∷ Event.async_init (suc (suc idle))
    ∷ Event.async_init (suc idle)
    ∷ Event.idle_init idle
    ∷ w.trace

abbrev pub started_world : ℕ → ℕ → Value → World → World
started_world thread pid callee w = record w {
  status = running;
  uv_loop = true;
  thread = some thread;
  pid = some pid;
  next_tick_uv_idle = some w.next_pointer;
  call_from_other_thread_uv_async = some (suc w.next_pointer);
  ubf_uv_async = some (suc (suc w.next_pointer));
  next_pointer = suc (suc (suc w.next_pointer));
  next_tick_procs = w.next_tick_procs ++ callee ∷ [];
  trace = started_trace w;
}

-- libuv answers 0 to each call of a list, made after those behind it, down to `stop`.
abbrev pub Accepts : Env → List Event → List Event → Type 0
Accepts env [] base = Unit
Accepts env (c ∷ cs) base = (nonzero (env.uv (cs ++ base) c) ≡ false) × Accepts env cs base

abbrev pub start_calls : ℕ → List Event
start_calls idle =
    Event.active_reqs
    ∷ Event.idle_start idle
    ∷ Event.is_active idle
    ∷ Event.async_init (suc (suc idle))
    ∷ Event.async_init (suc idle)
    ∷ Event.idle_init idle
    ∷ []

module _ (env : Env) (uv_eof uv_etimedout : ℤ) (thread pid : ℕ) (callee : Value) (w : World) where
  start_engine_accepted :
      is_proc callee ≡ true
      → w.status ≡ stopped
      → w.next_tick_uv_idle ≡ none
      → w.call_from_other_thread_uv_async ≡ none
      → w.ubf_uv_async ≡ none
      → Accepts env (start_calls w.next_pointer) w.trace
      → start_engine env uv_eof uv_etimedout thread pid callee w
        ≡ ok tt (started_world thread pid callee w)
  unfolding start_engine load_ae_next_tick_uv_idle load_ae_call_from_other_thread ae_next_tick ◌>>=◌
  start_engine_accepted given s i a u (h1, (h2, (h3, (h4, (h5, (h6, _)))))) = ground arith

  -- AE.run on a stopped engine whose loop handles are closed, with a proc as the argument: if libuv
  -- accepts the calls, the three loop handles are opened and the engine runs, with the proc behind
  -- those that wait for the first turn. This is the state that a release expects.
  pub start_engine-Loaded :
      is_proc callee ≡ true
      → w.status ≡ stopped
      → w.next_tick_uv_idle ≡ none
      → w.call_from_other_thread_uv_async ≡ none
      → w.ubf_uv_async ≡ none
      → Accepts env (start_calls w.next_pointer) w.trace
      → let v = started_world thread pid callee w in
        (start_engine env uv_eof uv_etimedout thread pid callee w ≡ ok tt v)
        × (v.next_tick_procs ≡ w.next_tick_procs ++ callee ∷ [])
        × Loaded v
  start_engine-Loaded given s i a u h = (
    start_engine_accepted given s i a u h,
    refl,
    record { status = refl; idle = refl; async = refl; ubf = refl },
  )
