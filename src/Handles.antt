-- ===== src/Handles.antt =====
-- Who holds which handle of libuv, and how often each was closed: the memory that uv_close releases
-- must be owned by nobody afterwards, and a second uv_close of it is an error of libuv.
pub mod Moves
pub mod Fresh
pub mod Actions
pub mod Objects
pub mod Cells
use async_engine.Base.{
  ℕ, suc, ◌≤◌, ◌<◌, ◌≡◌, List, [], ◌∷◌, Option, none, some, ◌==◌, if◌then◌else◌,
}
use async_engine.Base.Assoc.{update}
use async_engine.World.{World, Object, Event}

-- The pointers of the extension that hold a handle.
pub data Owner : Type 0 where
  next_tick call_from_other_thread ubf : Owner
  main connect_timeout : ℕ → Owner

abbrev pub main_pointer : Object → Option ℕ
main_pointer (Object.timer cdata) = cdata.uv_handle
main_pointer (Object.udp cdata) = cdata.uv_handle
main_pointer (Object.tcp cdata) = cdata.uv_handle
main_pointer Object.absent = none

abbrev pub timeout_pointer : Object → Option ℕ
timeout_pointer (Object.tcp cdata) = cdata.timer_connect_timeout
timeout_pointer _ = none

abbrev pub pointer_of : World → Owner → Option ℕ
pointer_of w Owner.next_tick = w.next_tick_uv_idle
pointer_of w Owner.call_from_other_thread = w.call_from_other_thread_uv_async
pointer_of w Owner.ubf = w.ubf_uv_async
pointer_of w (Owner.main self) = main_pointer (w.objects self)
pointer_of w (Owner.connect_timeout self) = timeout_pointer (w.objects self)

-- How often the handle `p` was given to uv_close.
abbrev pub closes : ℕ → List Event → ℕ
closes p [] = 0
closes p (Event.close q ∷ t) = let rest = closes p t in if p == q then suc rest else rest
closes p (_ ∷ t) = closes p t

pub record IsSafe (w : World) : Type 0 where
  pub closed_once : (p : ℕ) → closes p w.trace ≤ 1
  pub unclosed : (o : Owner) (p : ℕ) → pointer_of w o ≡ some p → closes p w.trace ≡ 0
  pub below : (o : Owner) (p : ℕ) → pointer_of w o ≡ some p → p < w.next_pointer
  pub closed_below : (p : ℕ) → 0 < closes p w.trace → p < w.next_pointer
  pub distinct : (o u : Owner) (p : ℕ) → pointer_of w o ≡ some p → pointer_of w u ≡ some p → o ≡ u

-- The state once the object `self` is collected.
abbrev pub without : ℕ → World → World
without self w = record w { objects = update w.objects self Object.absent }
