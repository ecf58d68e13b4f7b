-- ===== src/Handles/Objects.antt =====
-- A change of the cdata of one object, seen by the owners of handles.
use async_engine.Base.{ℕ, ◌≤◌, ◌≡◌, ap, ◌⊎◌, inr, arith}
use async_engine.Base.Assoc.{update}
use async_engine.World.{World, Object}
use async_engine.Handles.{Owner, pointer_of, main_pointer, timeout_pointer, closes, IsSafe}
use async_engine.Handles.Moves.{stay}

-- `v` is `w` with the object `self` replaced, as far as handles go.
pub record Replaces (w v : World) (self : ℕ) (x : Object) : Type 0 where
  pub objects : (j : ℕ) → v.objects j ≡ update w.objects self x j
  pub next_tick : v.next_tick_uv_idle ≡ w.next_tick_uv_idle
  pub other_thread : v.call_from_other_thread_uv_async ≡ w.call_from_other_thread_uv_async
  pub ubf : v.ubf_uv_async ≡ w.ubf_uv_async

module _ (w v : World) (self : ℕ) (x : Object) (r : Replaces w v self x) where
  pub main_others :
      timeout_pointer x ≡ timeout_pointer (w.objects self)
      → (u : Owner) → (u ≡ Owner.main self) ⊎ (pointer_of v u ≡ pointer_of w u)
  main_others e Owner.next_tick = inr r.next_tick
  main_others e Owner.call_from_other_thread = inr r.other_thread
  main_others e Owner.ubf = inr r.ubf
  main_others e (Owner.main j) = ground (arith, r.objects j)
  main_others e (Owner.connect_timeout j) = inr (ground (arith, r.objects j))

  pub timeout_others :
      main_pointer x ≡ main_pointer (w.objects self)
      → (u : Owner) → (u ≡ Owner.connect_timeout self) ⊎ (pointer_of v u ≡ pointer_of w u)
  timeout_others e Owner.next_tick = inr r.next_tick
  timeout_others e Owner.call_from_other_thread = inr r.other_thread
  timeout_others e Owner.ubf = inr r.ubf
  timeout_others e (Owner.main j) = inr (ground (arith, r.objects j))
  timeout_others e (Owner.connect_timeout j) = ground (arith, r.objects j)

  pub no_others :
      main_pointer x ≡ main_pointer (w.objects self)
      → timeout_pointer x ≡ timeout_pointer (w.objects self)
      → (u : Owner) → pointer_of v u ≡ pointer_of w u
  no_others e f Owner.next_tick = r.next_tick
  no_others e f Owner.call_from_other_thread = r.other_thread
  no_others e f Owner.ubf = r.ubf
  no_others e f (Owner.main j) = ground (arith, r.objects j)
  no_others e f (Owner.connect_timeout j) = ground (arith, r.objects j)

-- Nothing that holds a handle is changed.
pub unmoved :
    (w v : World)
    → ((j : ℕ) → v.objects j ≡ w.objects j)
    → v.next_tick_uv_idle ≡ w.next_tick_uv_idle
    → v.call_from_other_thread_uv_async ≡ w.call_from_other_thread_uv_async
    → v.ubf_uv_async ≡ w.ubf_uv_async
    → (o : Owner) → pointer_of v o ≡ pointer_of w o
unmoved w v e i c u Owner.next_tick = i
unmoved w v e i c u Owner.call_from_other_thread = c
unmoved w v e i c u Owner.ubf = u
unmoved w v e i c u (Owner.main j) = ap main_pointer (e j)
unmoved w v e i c u (Owner.connect_timeout j) = ap timeout_pointer (e j)

-- So safety is kept where nothing is closed either.
pub quiet :
    (w v : World)
    → IsSafe w
    → ((j : ℕ) → v.objects j ≡ w.objects j)
    → v.next_tick_uv_idle ≡ w.next_tick_uv_idle
    → v.call_from_other_thread_uv_async ≡ w.call_from_other_thread_uv_async
    → v.ubf_uv_async ≡ w.ubf_uv_async
    → ((p : ℕ) → closes p v.trace ≡ closes p w.trace)
    → w.next_pointer ≤ v.next_pointer
    → IsSafe v
quiet w v s e i c u t n = stay n s (unmoved w v e i c u) t

-- A change of one object that keeps its handles.
pub replace_quiet :
    (w v : World) (self : ℕ) (x : Object)
    → IsSafe w
    → Replaces w v self x
    → main_pointer x ≡ main_pointer (w.objects self)
    → timeout_pointer x ≡ timeout_pointer (w.objects self)
    → ((p : ℕ) → closes p v.trace ≡ closes p w.trace)
    → w.next_pointer ≤ v.next_pointer
    → IsSafe v
replace_quiet w v self x s r e f t n = stay n s (no_others w v self x r e f) t
