-- ===== src/Release/Unload.antt =====
-- The unloading of the loop's own handles: unload_ae_next_tick_uv_idle, unload_ae_call_from_other_thread
-- and unload_ubf keep the handles safe.
use async_engine.World.Keeps.{Ends}
use async_engine.World.Monad.{Env, assert, modify, ◌>>=◌}
use async_engine.World.{Event, World}
use async_engine.Handles.{IsSafe, Owner, pointer_of}
use async_engine.Base.{Option, arith, inl, inr, is_some, none, refl, some, ℕ, ◌∷◌, ◌≡◌, ◌⊎◌}
use async_engine.Handles.Actions.{Safe}
use async_engine.HandleCommon.{ae_close_uv_handle}
use async_engine.Handles.Moves.{close_held}
use async_engine.CallFromOtherThread.{unload_ae_call_from_other_thread}
use async_engine.NextTick.{unload_ae_next_tick_uv_idle}
use async_engine.Release.{unload_ubf}

module _ (env : Env) where
  pub unload_ae_next_tick_uv_idle-Safe : Safe (unload_ae_next_tick_uv_idle env)
  unfolding unload_ae_next_tick_uv_idle ae_close_uv_handle ◌>>=◌
  unload_ae_next_tick_uv_idle-Safe = record { at = λ w s. closed w s w.next_tick_uv_idle refl }
    where
      forgotten : ℕ → World → World
      forgotten p w = record w { next_tick_uv_idle = none; trace = Event.close p ∷ w.trace }

      others :
          (w : World) (p : ℕ) (o : Owner)
          → (o ≡ Owner.next_tick) ⊎ (pointer_of (forgotten p w) o ≡ pointer_of w o)
      others w p Owner.next_tick = inl refl
      others w p Owner.call_from_other_thread = inr refl
      others w p Owner.ubf = inr refl
      others w p (Owner.main j) = inr refl
      others w p (Owner.connect_timeout j) = inr refl

      closed :
          (w : World)
          → IsSafe w
          → (u : Option ℕ) → w.next_tick_uv_idle ≡ u
          → Ends Unit IsSafe IsSafe (
              (assert (is_some u) >>= λ _.
              ae_close_uv_handle env u >>= λ _. modify (λ w. record w { next_tick_uv_idle = none }))
                w)
      closed w s none e = tt
      closed w s (some p) e =
          close_held w (forgotten p w) s Owner.next_tick p (others w p) e refl (omega arith)
            (λ q. refl)

module _ (env : Env) where
  pub unload_ae_call_from_other_thread-Safe : Safe (unload_ae_call_from_other_thread env)
  unfolding unload_ae_call_from_other_thread ae_close_uv_handle ◌>>=◌
  unload_ae_call_from_other_thread-Safe = record {
    at = λ w s. closed w s w.call_from_other_thread_uv_async refl;
  }
    where
      forgotten : ℕ → World → World
      forgotten p w = record w {
        call_from_other_thread_uv_async = none;
        trace = Event.close p ∷ w.trace;
      }

      others :
          (w : World) (p : ℕ) (o : Owner)
          → (o ≡ Owner.call_from_other_thread) ⊎ (pointer_of (forgotten p w) o ≡ pointer_of w o)
      others w p Owner.next_tick = inr refl
      others w p Owner.call_from_other_thread = inl refl
      others w p Owner.ubf = inr refl
      others w p (Owner.main j) = inr refl
      others w p (Owner.connect_timeout j) = inr refl

      closed :
          (w : World)
          → IsSafe w
          → (u : Option ℕ) → w.call_from_other_thread_uv_async ≡ u
          → Ends Unit IsSafe IsSafe (
              (assert (is_some u) >>= λ _. ae_close_uv_handle env u >>= λ _.
              modify (λ w. record w { call_from_other_thread_uv_async = none }))
                w)
      closed w s none e = tt
      closed w s (some p) e =
          close_held w (forgotten p w) s Owner.call_from_other_thread p (others w p) e refl
            (omega arith) (λ q. refl)

module _ (env : Env) where
  pub unload_ubf-Safe : Safe (unload_ubf env)
  unfolding unload_ubf ae_close_uv_handle ◌>>=◌
  unload_ubf-Safe = record { at = λ w s. closed w s w.ubf_uv_async refl }
    where
      forgotten : ℕ → World → World
      forgotten p w = record w { ubf_uv_async = none; trace = Event.close p ∷ w.trace }

      others :
          (w : World) (p : ℕ) (o : Owner)
          → (o ≡ Owner.ubf) ⊎ (pointer_of (forgotten p w) o ≡ pointer_of w o)
      others w p Owner.next_tick = inr refl
      others w p Owner.call_from_other_thread = inr refl
      others w p Owner.ubf = inl refl
      others w p (Owner.main j) = inr refl
      others w p (Owner.connect_timeout j) = inr refl

      closed :
          (w : World)
          → IsSafe w
          → (u : Option ℕ) → w.ubf_uv_async ≡ u
          → Ends Unit IsSafe IsSafe (
              (assert (is_some u) >>= λ _.
              ae_close_uv_handle env u >>= λ _. modify (λ w. record w { ubf_uv_async = none }))
                w)
      closed w s none e = tt
      closed w s (some p) e =
          close_held w (forgotten p w) s Owner.ubf p (others w p) e refl (omega arith) (λ q. refl)
