-- ===== src/Engine/SafeLoads.antt =====
-- The loading of the loop's own handles keeps the handles safe: load_ae_next_tick_uv_idle,
-- load_ae_call_from_other_thread and load_ubf.
use async_engine.World.Monad.{Env, modify}
use async_engine.World.{Event, World}
use async_engine.Handles.{IsSafe, Owner, pointer_of}
use async_engine.World.Keeps.{Keeps-bind, Keeps-get, Leads-bind}
use async_engine.Handles.Actions.{Safe, assert-Safe, uv-Safe}
use async_engine.Handles.Fresh.{Unowned, alloc-Fresh}
use async_engine.Base.{arith, inl, inr, is_some, not, refl, some, ℕ, ◌≡◌, ◌⊎◌}
use async_engine.CallFromOtherThread.{load_ae_call_from_other_thread}
use async_engine.NextTick.{load_ae_next_tick_uv_idle}
use async_engine.Engine.{load_ubf}
use async_engine.Handles.Moves.{take_unheld}
use async_engine.Base.Int.{ℤ}

module _ (env : Env) where
  pub load_ae_next_tick_uv_idle-Safe : Safe (load_ae_next_tick_uv_idle env)
  unfolding load_ae_next_tick_uv_idle modify
  load_ae_next_tick_uv_idle-Safe = Keeps-bind _ _ Keeps-get λ w.
      Keeps-bind _ _ (assert-Safe (not (is_some w.next_tick_uv_idle))) λ _. alloc-Fresh _ λ p.
        Leads-bind _ _ (record { at = λ v f. taken p v f })
          λ _. Keeps-bind _ _ (uv-Safe env (Event.idle_init p) refl) λ r. assert-Safe _
    where
      others :
          (p : ℕ) (v : World) (o : Owner)
          → (o ≡ Owner.next_tick)
            ⊎ (pointer_of (record v { next_tick_uv_idle = some p }) o ≡ pointer_of v o)
      others p v Owner.next_tick = inl refl
      others p v Owner.call_from_other_thread = inr refl
      others p v Owner.ubf = inr refl
      others p v (Owner.main j) = inr refl
      others p v (Owner.connect_timeout j) = inr refl

      taken : (p : ℕ) (v : World) → Unowned p v → IsSafe (record v { next_tick_uv_idle = some p })
      taken p v f =
          take_unheld v _ f.safe Owner.next_tick p (others p v) refl f.nobody f.unshut
            (omega (arith, f.given_out)) (omega arith) (λ q. refl)

module _ (env : Env) where
  pub load_ae_call_from_other_thread-Safe : Safe (load_ae_call_from_other_thread env)
  unfolding load_ae_call_from_other_thread modify
  load_ae_call_from_other_thread-Safe = Keeps-bind _ _ Keeps-get λ w.
      Keeps-bind _ _ (assert-Safe (not (is_some w.call_from_other_thread_uv_async))) λ _.
        alloc-Fresh _ λ p.
          Leads-bind _ _ (record { at = λ v f. taken p v f })
            λ _. Keeps-bind _ _ (uv-Safe env (Event.async_init p) refl) λ r. assert-Safe _
    where
      others :
          (p : ℕ) (v : World) (o : Owner)
          → (o ≡ Owner.call_from_other_thread)
            ⊎ (pointer_of (record v { call_from_other_thread_uv_async = some p }) o
                ≡ pointer_of v o)
      others p v Owner.next_tick = inr refl
      others p v Owner.call_from_other_thread = inl refl
      others p v Owner.ubf = inr refl
      others p v (Owner.main j) = inr refl
      others p v (Owner.connect_timeout j) = inr refl

      taken :
          (p : ℕ) (v : World)
          → Unowned p v
          → IsSafe (record v { call_from_other_thread_uv_async = some p })
      taken p v f =
          take_unheld v _ f.safe Owner.call_from_other_thread p (others p v) refl f.nobody f.unshut
            (omega (arith, f.given_out)) (omega arith) (λ q. refl)

module _ (env : Env) (uv_eof uv_etimedout : ℤ) where
  pub load_ubf-Safe : Safe (load_ubf env uv_eof uv_etimedout)
  unfolding load_ubf modify
  load_ubf-Safe = Keeps-bind _ _ Keeps-get λ w.
      Keeps-bind _ _ (assert-Safe (not (is_some w.ubf_uv_async))) λ _. alloc-Fresh _ λ p.
        Leads-bind _ _ (record { at = λ v f. taken p v f })
          λ _. Keeps-bind _ _ (uv-Safe env (Event.async_init p) refl) λ r. assert-Safe _
    where
      others :
          (p : ℕ) (v : World) (o : Owner)
          → (o ≡ Owner.ubf) ⊎ (pointer_of (record v { ubf_uv_async = some p }) o ≡ pointer_of v o)
      others p v Owner.next_tick = inr refl
      others p v Owner.call_from_other_thread = inr refl
      others p v Owner.ubf = inl refl
      others p v (Owner.main j) = inr refl
      others p v (Owner.connect_timeout j) = inr refl

      taken : (p : ℕ) (v : World) → Unowned p v → IsSafe (record v { ubf_uv_async = some p })
      taken p v f =
          take_unheld v _ f.safe Owner.ubf p (others p v) refl f.nobody f.unshut
            (omega (arith, f.given_out)) (omega arith) (λ q. refl)
