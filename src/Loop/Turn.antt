-- ===== src/Loop/Turn.antt =====
-- ext/asyncengine/ae_next_tick.c and ae_call_from_other_thread.c: the procs that wait for a turn of the
-- loop are called in it.
use async_engine.World.Keeps.{Ends}
use async_engine.World.Monad.{
  Env, M, Run, and_then, assert, crash, get, invoke, ok, protect, pure, raised, to_protected, ◌>>=◌,
  modify, uv,
}
use async_engine.Ruby.{qnil, Method, Value}
use async_engine.World.{World, running, Event}
use async_engine.Base.{
  [], ◌≡◌, Bool, List, false, refl, true, ◌∷◌, ◌⊎◌, inl, inr, not, if◌then◌else◌, subst, ℕ,
}
use async_engine.Release.{
  ae_run_with_error_handler, after_protect, run_at_depth, run_protected,
  ae_take_gvl_and_run_with_error_handler, is_stopped, is_running,
}
use async_engine.Handles.Cells.{release}
use async_engine.HandleCommon.{ae_proc_call_0}
use async_engine.Arguments.{is_nil}
use async_engine.Loop.{
  run_procs, ae_async_callback, ae_idle_callback, uv_async_callback, uv_idle_callback,
}

-- Where nothing may go.
-- `g` waits in the queue.
abbrev pub Waits : Value → List Value → Type 0
Waits g [] = ⊥
Waits g (f ∷ rest) = (f ≡ g) ⊎ Waits g rest

abbrev pub Nowhere : World → Type 0
Nowhere w = ⊥

-- What is assumed of the procs: one that is called returns, leaves the engine running, and has then run;
-- another does not undo that. `Ran` is what a proc's having run means in the state.
record Works (env : Env) (Ran : Value → World → Type 0) : Type 0 where
  pub runs :
      (f : Value) (w : World)
      → w.status ≡ running
      → Ends ⊥ (λ v. ⊥) (λ v. (v.status ≡ running) × Ran f v) (env.ruby (invoke f Method.call []) w)
  pub keeps :
      (f g : Value) (w : World)
      → w.status ≡ running
      → Ran g w
      → Ends ⊥ (λ v. ⊥) (λ v. (v.status ≡ running) × Ran g v) (env.ruby (invoke f Method.call []) w)

pub weaken :
    {A : Type 0} (P Q : World → Type 0) (r : Run A)
    → ((v : World) → P v → Q v)
    → Ends ⊥ Nowhere P r
    → Ends ⊥ Nowhere Q r
weaken P Q (ok a v) k h = k v h
weaken P Q (raised e v) k h = h
weaken P Q crash k h = h

pub then_rest :
    {A B : Type 0} (P Q : World → Type 0) (r : Run A) (k : A → M B)
    → Ends ⊥ Nowhere P r
    → ((a : A) (v : World) → P v → Ends ⊥ Nowhere Q (k a v))
    → Ends ⊥ Nowhere Q (and_then r k)
then_rest P Q (ok a v) k h kk = kk a v h
then_rest P Q (raised e v) k h kk = h
then_rest P Q crash k h kk = h

pub assert_passes :
    {A : Type 0} (Q : World → Type 0) (b : Bool) (k : Unit {0} → M A) (w : World)
    → b ≡ true
    → Ends ⊥ Nowhere Q (k tt w)
    → Ends ⊥ Nowhere Q ((assert b >>= k) w)
unfolding assert ◌>>=◌
assert_passes Q true k w e q = q
assert_passes Q false k w e q = cc

pub goes_on :
    (Q : World → Type 0) (b : Bool) (m n : M (Unit {0})) (w : World)
    → b ≡ false
    → Ends ⊥ Nowhere Q (n w)
    → Ends ⊥ Nowhere Q ((if b then m else n) w)
goes_on Q true m n w e q = cc
goes_on Q false m n w e q = q

module _ (env : Env) (m : M Value) (Q : World → Type 0) where
  returned_run :
      (rel : M (Unit {0})) (r : Run Value)
      → Ends ⊥ Nowhere Q r
      → Ends ⊥ Nowhere Q (and_then (to_protected r) (after_protect env rel))
  unfolding after_protect pure
  returned_run rel (ok a w) q = q
  returned_run rel (raised e w) q = absurd q
  returned_run release crash q = absurd q

  -- The error handler does nothing where nothing is raised.
  pub handled :
      (w : World)
      → w.status ≡ running
      → Ends ⊥ Nowhere Q (m w)
      → Ends ⊥ Nowhere Q (ae_run_with_error_handler env m w)
  unfolding ae_run_with_error_handler run_at_depth run_protected protect get ◌>>=◌
  handled w e q =
      assert_passes Q (not (is_stopped w.status)) _ w (rw e refl) (returned_run _ (m w) q)

  pub guarded_run :
      (w : World)
      → w.status ≡ running
      → Ends ⊥ Nowhere Q (m w)
      → Ends ⊥ Nowhere Q (ae_take_gvl_and_run_with_error_handler env m w)
  unfolding ae_take_gvl_and_run_with_error_handler get ◌>>=◌
  guarded_run w e q = assert_passes Q (not (is_stopped w.status)) _ w (rw e refl) (handled w e q)

module _ (env : Env) (Ran : Value → World → Type 0) (works : Works env Ran) (g : Value) where
  -- The proc `g` has run or is still to come.
  record Pending (procs : List Value) (w : World) : Type 0 where
    pub runs : w.status ≡ running
    pub due : Ran g w ⊎ Waits g procs

  called :
      (f : Value) (rest : List Value) (w : World)
      → is_nil f ≡ false
      → Pending (f ∷ rest) w
      → Ends ⊥ Nowhere (Pending rest) (ae_proc_call_0 env f w)
  unfolding ae_proc_call_0
  called f rest w n h = assert_passes (Pending rest) (not (is_nil f)) _ w (rw n refl) (after h.due)
    where
      after :
          Ran g w ⊎ Waits g (f ∷ rest)
          → Ends ⊥ Nowhere (Pending rest) (env.ruby (invoke f Method.call []) w)
      after (inl r) =
          weaken _ (Pending rest) _ (λ v k. record { runs = k.0; due = inl (k.1) })
            (works.keeps f g w h.runs r)
      after (inr (inl e)) =
          weaken _ (Pending rest) _
            (λ v k. record { runs = k.0; due = inl (subst (λ x. Ran x v) e (k.1)) })
            (works.runs f w h.runs)
      after (inr (inr m)) =
          weaken _ (Pending rest) _ (λ v k. record { runs = k.0; due = inr m })
            (works.runs f w h.runs)

  run_procs-Pending :
      (procs : List Value) (w : World)
      → ((f : Value) → Waits f procs → is_nil f ≡ false)
      → Pending procs w
      → Ends ⊥ Nowhere (Pending []) (run_procs env procs w)
  unfolding run_procs pure get ◌>>=◌
  run_procs-Pending [] w n h = h
  run_procs-Pending (f ∷ rest) w n h =
      goes_on (Pending []) (not (is_running w.status)) _ _ w (rw (h.runs) refl) (
        then_rest (Pending rest) (Pending []) _ _
          (handled env _ (Pending rest) w h.runs (called f rest w (n f (inl refl)) h))
          (λ a v k. run_procs-Pending rest v (λ x m. n x (inr m)) k))

  -- What holds at the end of a turn.
  abbrev Done : World → Type 0
  Done v = (v.status ≡ running) × Ran g v

  done : (w : World) → Pending [] w → Done w
  done w h = (h.runs, elim h.due [ inl r ↦ r | inr m ↦ absurd m ])

  ae_idle_callback-Done :
      (w : World)
      → w.status ≡ running
      → ((f : Value) → Waits f w.next_tick_procs → is_nil f ≡ false)
      → Waits g w.next_tick_procs
      → Ends ⊥ Nowhere Done (ae_idle_callback env w)
  unfolding ae_idle_callback get modify pure ◌>>=◌
  ae_idle_callback-Done w e n m = assert_passes Done (is_running w.status) _ w (rw e refl) (
      then_rest (Pending []) Done _ (λ _. pure qnil)
        (run_procs-Pending w.next_tick_procs (record w { next_tick_procs = [] }) n
          (record { runs = e; due = inr m }))
        (λ a v h. done v h))

  ae_async_callback-Done :
      (w : World)
      → w.status ≡ running
      → ((f : Value) → Waits f w.call_from_other_thread_procs → is_nil f ≡ false)
      → Waits g w.call_from_other_thread_procs
      → Ends ⊥ Nowhere Done (ae_async_callback env w)
  unfolding ae_async_callback get modify pure ◌>>=◌
  ae_async_callback-Done w e n m = assert_passes Done (is_running w.status) _ w (rw e refl) (
      then_rest (Pending []) Done _ (λ _. pure qnil)
        (run_procs-Pending w.call_from_other_thread_procs
          (record w { call_from_other_thread_procs = [] }) n (record { runs = e; due = inr m }))
        (λ a v h. done v h))

-- Every proc that waits is called in the next turn: where the engine runs, `g` was given to
-- AE.next_tick before and `k` to AE.call_from_other_thread, the callback of the idle handle returns with
-- the engine running and `g` having run, and the callback of the async handle returns with the engine
-- running and `k` having run. The conditions are that the procs in the queues are not nil, and that a
-- proc that is called returns with the engine running, has then run, and undoes this of no other.
pub turn_runs :
    (env : Env) (Ran : Value → World → Type 0)
    (runs : (f : Value) (w : World)
      → w.status ≡ running
      → Ends ⊥
          (λ v. ⊥)
          (λ v. (v.status ≡ running) × Ran f v)
          (env.ruby (invoke f Method.call []) w))
    (keeps : (f g : Value) (w : World)
      → w.status ≡ running
      → Ran g w
      → Ends ⊥
          (λ v. ⊥)
          (λ v. (v.status ≡ running) × Ran g v)
          (env.ruby (invoke f Method.call []) w))
    (g k : Value) (handle : ℕ) (w : World)
    → w.status ≡ running
    → ((f : Value) → Waits f w.next_tick_procs → is_nil f ≡ false)
    → ((f : Value) → Waits f w.call_from_other_thread_procs → is_nil f ≡ false)
    → Waits g w.next_tick_procs
    → Waits k w.call_from_other_thread_procs
    → Ends ⊥ (λ v. ⊥) (λ v. (v.status ≡ running) × Ran g v) (uv_idle_callback env handle w)
      × Ends ⊥ (λ v. ⊥) (λ v. (v.status ≡ running) × Ran k v) (uv_async_callback env w)
unfolding uv_idle_callback uv_async_callback uv ◌>>=◌
turn_runs env Ran runs keeps g k handle w e n c m l = (
  guarded_run env (ae_idle_callback env) (Done env Ran works g)
      (record w { trace = Event.idle_stop handle ∷ w.trace }) e
      (ae_idle_callback-Done env Ran works g (record w { trace = Event.idle_stop handle ∷ w.trace })
        e n m),
  guarded_run env (ae_async_callback env) (Done env Ran works k) w e
      (ae_async_callback-Done env Ran works k w e c l),
)
  where
    works : Works env Ran
    works = record { runs = runs; keeps = keeps }
