-- ===== src/Handles/Fresh.antt =====
-- A handle between its allocation and the cdata that takes it.
use async_engine.World.Monad.{Env, M, alloc, uv, ◌>>=◌}
use async_engine.World.{Event, Object, World}
use async_engine.Handles.{IsSafe, Owner, closes, main_pointer, pointer_of, timeout_pointer}
use async_engine.World.Keeps.{Leads}
use async_engine.Handles.Objects.{Replaces, main_others, quiet, unmoved, timeout_others}
use async_engine.Handles.Actions.{Safe, is_close, closes_other}
use async_engine.HandleCommon.{ae_close_uv_handle, ae_store_handle}
use async_engine.Base.{
  arith, false, refl, some, suc, sym, ℕ, ◌<◌, ◌∙◌, ◌≡◌, ◌≢◌, ◌≤◌, ◌∷◌, if◌then◌else◌, none, ◌==◌,
}
use async_engine.Handles.Moves.{close_unheld, take_unheld, close_held, shrink}

-- `p` was given out, nobody holds it, and it was not closed.
pub record Unowned (p : ℕ) (w : World) : Type 0 where
  pub safe : IsSafe w
  pub given_out : p < w.next_pointer
  pub unshut : closes p w.trace ≡ 0
  pub nobody : (o : Owner) → pointer_of w o ≢ some p

-- From a handle that nobody holds.
abbrev pub Holding : (p : ℕ) (Q : World → Type 0) {A : Type 0} → M A → Type 0
Holding p Q = Leads Unit IsSafe (Unowned p) Q

-- Memory for a handle.
pub fresh_unowned :
    (w : World) → IsSafe w → Unowned w.next_pointer (record w { next_pointer = suc w.next_pointer })
fresh_unowned w s = record {
  safe = quiet w _ s (λ j. refl) refl refl refl (λ q. refl) (omega arith);
  given_out = omega arith;
  unshut = ground (arith, s.closed_below w.next_pointer);
  nobody = λ o h. absurd (omega (arith, s.below o w.next_pointer (fresh_pointer o ∙ h)));
}
  where
    fresh_pointer :
        (o : Owner) → pointer_of w o ≡ pointer_of (record w { next_pointer = suc w.next_pointer }) o
    fresh_pointer o =
        sym
          (unmoved w (record w { next_pointer = suc w.next_pointer }) (λ j. refl) refl refl refl o)

pub alloc-Fresh :
    {A : Type 0} (k : ℕ → M A) → ((p : ℕ) → Holding p IsSafe (k p)) → Safe (alloc >>= k)
unfolding alloc ◌>>=◌
alloc-Fresh k kk = record { at = λ w s. (kk w.next_pointer).at _ (fresh_unowned w s) }

-- A state with the same owners and closes.
pub Unowned-quiet :
    (p : ℕ) (w v : World)
    → Unowned p w
    → ((j : ℕ) → v.objects j ≡ w.objects j)
    → v.next_tick_uv_idle ≡ w.next_tick_uv_idle
    → v.call_from_other_thread_uv_async ≡ w.call_from_other_thread_uv_async
    → v.ubf_uv_async ≡ w.ubf_uv_async
    → ((q : ℕ) → closes q v.trace ≡ closes q w.trace)
    → w.next_pointer ≤ v.next_pointer
    → Unowned p v
Unowned-quiet p w v f e i c u t n = record {
  safe = quiet w v f.safe e i c u t n;
  given_out = omega (arith, f.given_out);
  unshut = t p ∙ f.unshut;
  nobody = λ o h. f.nobody o (sym (unmoved w v e i c u o) ∙ h);
}

module _ (p : ℕ) where
  pub uv-Unowned : (env : Env) (c : Event) → is_close c ≡ false → Holding p (Unowned p) (uv env c)
  unfolding uv
  uv-Unowned env c h = record {
    at = λ w f.
        Unowned-quiet p w _ f (λ j. refl) refl refl refl (λ q. closes_other q c w h) (omega arith);
  }

  pub alloc-Unowned : Holding p (Unowned p) alloc
  unfolding alloc
  alloc-Unowned = record {
    at = λ w f. Unowned-quiet p w _ f (λ j. refl) refl refl refl (λ q. refl) (omega arith);
  }

  pub ae_store_handle-Unowned : (self : ℕ) → Holding p (Unowned p) (ae_store_handle self)
  unfolding ae_store_handle ◌>>=◌
  ae_store_handle-Unowned self = record {
    at = λ w f. Unowned-quiet p w _ f (λ j. refl) refl refl refl (λ q. refl) (omega arith);
  }

  -- Whoever does not care about the handle any more.
  pub forget : {A : Type 0} (m : M A) → Safe m → Holding p IsSafe m
  forget m km = record { at = λ w f. km.at w f.safe }

  -- The handle is closed before anybody took it.
  pub close_unowned : (env : Env) → Holding p IsSafe (ae_close_uv_handle env (some p))
  unfolding ae_close_uv_handle uv ◌>>=◌
  close_unowned env = record {
    at = λ w f.
        close_unheld w (closing w) f.safe p (unmoved w (closing w) (λ j. refl) refl refl refl)
          f.nobody f.unshut f.given_out (omega arith) (λ q. refl);
  }
    where
      closing : World → World
      closing w = record w { trace = Event.close p ∷ w.trace }

-- The object `self` takes the handle as its own.
pub take_main :
    (p : ℕ) (w v : World) (self : ℕ) (x : Object)
    → Unowned p w
    → Replaces w v self x
    → main_pointer x ≡ some p
    → timeout_pointer x ≡ timeout_pointer (w.objects self)
    → ((q : ℕ) → closes q v.trace ≡ closes q w.trace)
    → w.next_pointer ≤ v.next_pointer
    → IsSafe v
take_main p w v self x f r m e t n =
    take_unheld w v f.safe (Owner.main self) p (main_others w v self x r e)
      (ground (arith, r.objects self)) f.nobody f.unshut (omega (arith, f.given_out)) n t

-- So for the timer of its connection.
pub take_timeout :
    (p : ℕ) (w v : World) (self : ℕ) (x : Object)
    → Unowned p w
    → Replaces w v self x
    → timeout_pointer x ≡ some p
    → main_pointer x ≡ main_pointer (w.objects self)
    → ((q : ℕ) → closes q v.trace ≡ closes q w.trace)
    → w.next_pointer ≤ v.next_pointer
    → IsSafe v
take_timeout p w v self x f r m e t n =
    take_unheld w v f.safe (Owner.connect_timeout self) p (timeout_others w v self x r e)
      (ground (arith, r.objects self)) f.nobody f.unshut (omega (arith, f.given_out)) n t

module _ (p : ℕ) (w v : World) (self : ℕ) (x : Object) (s : IsSafe w) (r : Replaces w v self x)
    (more : w.next_pointer ≤ v.next_pointer)
    (closed : (q : ℕ)
      → closes q v.trace ≡ (if q == p then suc (closes q w.trace) else closes q w.trace)) where
  -- The object `self` closes its own handle and forgets it.
  pub close_main :
      main_pointer (w.objects self) ≡ some p
      → main_pointer x ≡ none
      → timeout_pointer x ≡ timeout_pointer (w.objects self)
      → IsSafe v
  close_main before now same =
      close_held w v s (Owner.main self) p (main_others w v self x r same) before
        (ground (arith, r.objects self)) more closed

  -- So for the handle of its connection's timer.
  pub close_timeout :
      timeout_pointer (w.objects self) ≡ some p
      → timeout_pointer x ≡ none
      → main_pointer x ≡ main_pointer (w.objects self)
      → IsSafe v
  close_timeout before now same =
      close_held w v s (Owner.connect_timeout self) p (timeout_others w v self x r same) before
        (ground (arith, r.objects self)) more closed

-- An object that holds nothing takes a place.
pub place_empty :
    (w v : World) (s : IsSafe w) (self : ℕ) (x : Object)
    → Replaces w v self x
    → main_pointer x ≡ none
    → timeout_pointer x ≡ none
    → w.next_pointer ≤ v.next_pointer
    → ((q : ℕ) → closes q v.trace ≡ closes q w.trace)
    → IsSafe v
place_empty w v s self x r m t more closed = shrink more s before closed
  where
    before : (o : Owner) (p : ℕ) → pointer_of v o ≡ some p → pointer_of w o ≡ some p
    before Owner.next_tick p h = sym r.next_tick ∙ h
    before Owner.call_from_other_thread p h = sym r.other_thread ∙ h
    before Owner.ubf p h = sym r.ubf ∙ h
    before (Owner.main j) p h = ground (arith, r.objects j)
    before (Owner.connect_timeout j) p h = ground (arith, r.objects j)
