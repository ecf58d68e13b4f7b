-- ===== src/Release/Quits.antt =====
-- A release of the running engine comes to its end and leaves no loop handle and no proc behind.
use async_engine.World.Monad.{
  Env, M, ◌>>=◌, Callback, Protected, ok, pure, protect, get, rescued, returned, modify, ◌>>◌,
}
use async_engine.World.Keeps.{
  Ends, Leads-if, Leads, Leads-pure, Leads-bind, Leads-get, Leads-protect, Leads-modify,
}
use async_engine.World.{World, releasing, running, Event}
use async_engine.NextTick.{unload_ae_next_tick_uv_idle}
use async_engine.CallFromOtherThread.{unload_ae_call_from_other_thread}
use async_engine.HandleCommon.{ae_close_uv_handle}
use async_engine.Base.{[], arith, is_some, Option, none, true, ℕ, suc, ◌≡◌, List, some, ◌∷◌, refl}
use async_engine.Base.Assoc.{lookup}
use async_engine.Ruby.{Exn, Value, qnil}
use async_engine.Release.{
  ae_release_loop, release_running, after_protect, call_handle_destroy, run_protected, run_at_depth,
  release_with, unload_ubf, destroy_handles,
}
use async_engine.Release.Destroy.{Patient, Quitting, call_handle_destroy-Patient}

-- The engine after its release.
pub record Quit (w : World) : Type 0 where
  pub status : w.status ≡ releasing
  pub idle : w.next_tick_uv_idle ≡ none
  pub async : w.call_from_other_thread_uv_async ≡ none
  pub ubf : w.ubf_uv_async ≡ none
  pub no_ticks : w.next_tick_procs ≡ []
  pub no_calls : w.call_from_other_thread_procs ≡ []
  pub no_procs : w.procs ≡ []
  pub closed :
      (i a u : ℕ) × (t : List Event) × (w.trace ≡ Event.close u ∷ Event.close a ∷ Event.close i ∷ t)

abbrev pub Never : World → Type 0
Never w = ⊥

-- An action that neither raises nor ends the process there.
abbrev Calm : {A : Type 0} → M A → Type 0
Calm = Leads ⊥ Never Quitting Quitting

module _ (env : Env) (ruby : (c : Callback) → Patient (env.ruby c)) where
  rescued_error :
      (release : M (Unit {0})) (e : Exn) (w : World)
      → w.status ≡ releasing
      → after_protect env release (rescued e) w ≡ ok qnil w
  unfolding after_protect ◌>>=◌
  rescued_error release e w h = ground arith

  after_protect-Calm :
      (release : M (Unit {0})) (r : Protected Value) → Calm (after_protect env release r)
  unfolding after_protect
  after_protect-Calm release (returned v) = Leads-pure v (λ w q. q)
  after_protect-Calm release (rescued e) = record {
    at = λ w q. rw (rescued_error release e w q.status) q;
  }

  assert_alive :
      (f : M Value) (release : M (Unit {0})) (w : World)
      → w.status ≡ releasing
      → run_protected env release f w ≡ (protect f >>= after_protect env release) w
  unfolding run_protected ◌>>=◌
  assert_alive f release w h = ground arith

  run_protected-Calm :
      (release : M (Unit {0})) (f : M Value) → Patient f → Calm (run_protected env release f)
  run_protected-Calm release f kf = record {
    at = λ w q. rw (assert_alive f release w q.status) (
        (Leads-bind (protect f) (after_protect env release) (Leads-protect Never f kf)
            (after_protect-Calm release)).at
          w q);
  }

  run_at_depth-Calm : (n : ℕ) (f : M Value) → Patient f → Calm (run_at_depth env (suc n) f)
  unfolding run_at_depth
  run_at_depth-Calm n f = run_protected-Calm (release_with env (run_at_depth env n)) f

  destroy_handles-Calm :
      (run : M Value → M Value)
      → ((f : M Value) → Patient f → Calm (run f))
      → (hs : List (ℕ × Value)) → Calm (destroy_handles env run hs)
  unfolding destroy_handles
  destroy_handles-Calm run k [] = Leads-pure tt (λ w q. q)
  destroy_handles-Calm run k ((key, handle) ∷ rest) = Leads-bind get _ (Leads-get (λ w q. q)) λ w.
      Leads-bind _ _
        (Leads-if (is_some (lookup key w.handles)) (run (call_handle_destroy env handle))
          (pure qnil)
          (λ _. k (call_handle_destroy env handle) (call_handle_destroy-Patient env ruby handle))
          (λ _. Leads-pure qnil (λ w q. q)))
        λ _. destroy_handles-Calm run k rest

-- What is left of the release once the handles are destroyed.
abbrev unload : Env → M (Unit {0})
unload env = do
  unload_ae_next_tick_uv_idle env
  unload_ae_call_from_other_thread env
  unload_ubf env
  modify (λ w. record w { procs = [] })

abbrev unloaded : ℕ → ℕ → ℕ → World → World
unloaded i a u w = record w {
  next_tick_uv_idle = none;
  call_from_other_thread_uv_async = none;
  ubf_uv_async = none;
  procs = [];
  trace = Event.close u ∷ Event.close a ∷ Event.close i ∷ w.trace;
}

unload_loaded :
    (env : Env) (w : World) (i a u : ℕ)
    → w.next_tick_uv_idle ≡ some i
    → w.call_from_other_thread_uv_async ≡ some a
    → w.ubf_uv_async ≡ some u
    → unload env w ≡ ok tt (unloaded i a u w)
unfolding unload_ae_next_tick_uv_idle unload_ae_call_from_other_thread unload_ubf ae_close_uv_handle
    ◌>>=◌
unload_loaded env w i a u e f g = ground arith

loaded_pointer : (o : Option ℕ) → is_some o ≡ true → (p : ℕ) × (o ≡ some p)
loaded_pointer none e = ground arith
loaded_pointer (some p) e = (p, refl)

unload-Quits : (env : Env) → Leads ⊥ Never Quitting Quit (unload env)
unload-Quits env = record {
  at = λ w q.
      let (i, e) = loaded_pointer w.next_tick_uv_idle q.idle in
      let (a, f) = loaded_pointer w.call_from_other_thread_uv_async q.async in
      let (u, g) = loaded_pointer w.ubf_uv_async q.ubf in
      rw (unload_loaded env w i a u e f g) (record {
        status = q.status;
        idle = refl;
        async = refl;
        ubf = refl;
        no_ticks = q.no_ticks;
        no_calls = q.no_calls;
        no_procs = refl;
        closed = (i, a, u, w.trace, refl);
      });
}

-- The engine as a release finds it: running, with its three loop handles open.
pub record Loaded (w : World) : Type 0 where
  pub status : w.status ≡ running
  pub idle : is_some w.next_tick_uv_idle ≡ true
  pub async : is_some w.call_from_other_thread_uv_async ≡ true
  pub ubf : is_some w.ubf_uv_async ≡ true

abbrev pub Releases : {A : Type 0} → World → M A → Type 0
Releases w m = Ends ⊥ Never Quit (m w)

module _ (env : Env) (ruby : (c : Callback) → Patient (env.ruby c)) where
  start-Quitting :
      (w : World)
      → Loaded w
      → Quitting
          (record w { status = releasing; next_tick_procs = []; call_from_other_thread_procs = [] })
  start-Quitting w l = record {
    status = refl;
    idle = l.idle;
    async = l.async;
    ubf = l.ubf;
    no_ticks = refl;
    no_calls = refl;
  }

  release_running-Quits :
      (n : ℕ) → Leads ⊥ Never Loaded Quit (release_running env (run_at_depth env (suc n)))
  unfolding release_running
  release_running-Quits n = Leads-bind (modify _) _ (Leads-modify _ start-Quitting) λ _.
      Leads-bind get _ (Leads-get (λ w q. q)) λ w.
        Leads-bind _ _
          (destroy_handles-Calm env ruby (run_at_depth env (suc n)) (run_at_depth-Calm env ruby n)
            w.handles)
          λ _. unload-Quits env

  starts :
      (w : World)
      → w.status ≡ running
      → ae_release_loop env w ≡ release_running env (run_at_depth env 1) w
  unfolding ae_release_loop release_with ◌>>=◌
  starts w h = ground arith

  -- The release of a running engine with its loop handles open comes to its end: no assertion of it
  -- fails and no error leaves it. Its last calls of libuv close three handles, the engine holds none of
  -- its three loop handles any more, and no proc of the queues or of AE_procs is left. The Ruby code
  -- that it calls may raise, but does not end the process, and leaves the status, the loop handles and
  -- the empty queues as they are.
  pub ae_release_loop-Quits : (w : World) → Loaded w → Releases w (ae_release_loop env)
  ae_release_loop-Quits w l = rw (starts w l.status) ((release_running-Quits 0).at w l)
