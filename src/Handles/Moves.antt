-- ===== src/Handles/Moves.antt =====
-- The ways in which a step changes who holds which handle.
use async_engine.Base.{
  ℕ, suc, ◌≤◌, ◌<◌, ◌≡◌, sym, ◌∙◌, ap, ◌⊎◌, inl, inr, none, some, ◌≢◌, ◌==◌, if◌then◌else◌, arith,
}
use mathlib.Core.Option.{some-injective}
use async_engine.World.{World}
use async_engine.Handles.{Owner, pointer_of, closes, IsSafe}

module _ {w v : World} (more : w.next_pointer ≤ v.next_pointer) (s : IsSafe w) where
  -- Nothing is opened or closed.
  pub stay :
      ((o : Owner) → pointer_of v o ≡ pointer_of w o)
      → ((p : ℕ) → closes p v.trace ≡ closes p w.trace)
      → IsSafe v
  stay same closed = record {
    closed_once = λ p. omega (arith, closed p, s.closed_once p);
    unclosed = λ o p h. closed p ∙ s.unclosed o p (sym (same o) ∙ h);
    below = λ o p h. omega (arith, s.below o p (sym (same o) ∙ h));
    closed_below = λ p h. omega (arith, closed p, s.closed_below p (omega (arith, closed p)));
    distinct = λ o u p h k. s.distinct o u p (sym (same o) ∙ h) (sym (same u) ∙ k);
  }

  -- Some owners forget what they held.
  pub shrink :
      ((o : Owner) (p : ℕ) → pointer_of v o ≡ some p → pointer_of w o ≡ some p)
      → ((p : ℕ) → closes p v.trace ≡ closes p w.trace)
      → IsSafe v
  shrink before closed = record {
    closed_once = λ p. omega (arith, closed p, s.closed_once p);
    unclosed = λ o p h. closed p ∙ s.unclosed o p (before o p h);
    below = λ o p h. omega (arith, s.below o p (before o p h));
    closed_below = λ p h. omega (arith, closed p, s.closed_below p (omega (arith, closed p)));
    distinct = λ o u p h k. s.distinct o u p (before o p h) (before u p k);
  }

-- A pointer of `v`, traced back to `w`, where only `o` has changed.
held :
    (w v : World) (o : Owner)
    → ((u : Owner) → (u ≡ o) ⊎ (pointer_of v u ≡ pointer_of w u))
    → (u : Owner) (q : ℕ) → pointer_of v u ≡ some q
    → (u ≡ o) ⊎ (pointer_of w u ≡ some q)
held w v o others u q h = elim (others u) [ inl e ↦ inl e | inr e ↦ inr (sym e ∙ h) ]

module _ (w v : World) (s : IsSafe w) (o : Owner) (p : ℕ)
    (others : (u : Owner) → (u ≡ o) ⊎ (pointer_of v u ≡ pointer_of w u)) where
  same_pointer :
      pointer_of v o ≡ some p → (u : Owner) (q : ℕ) → u ≡ o → pointer_of v u ≡ some q → q ≡ p
  same_pointer now u q e h = some-injective q p (sym h ∙ ap (pointer_of v) e ∙ now)

  -- `o` takes a pointer that nobody holds.
  pub take_unheld :
      pointer_of v o ≡ some p
      → ((u : Owner) → pointer_of w u ≢ some p)
      → closes p w.trace ≡ 0
      → p < v.next_pointer
      → w.next_pointer ≤ v.next_pointer
      → ((q : ℕ) → closes q v.trace ≡ closes q w.trace)
      → IsSafe v
  take_unheld now nobody unshut given_out more closed = record {
    closed_once = λ q. omega (arith, closed q, s.closed_once q);
    unclosed = λ u q h. elim (held w v o others u q h) [
      | inl e ↦ closed q ∙ ap (λ x. closes x w.trace) (same_pointer now u q e h) ∙ unshut
      | inr k ↦ closed q ∙ s.unclosed u q k
    ];
    below = λ u q h. elim (held w v o others u q h) [
      | inl e ↦ omega (arith, same_pointer now u q e h)
      | inr k ↦ omega (arith, s.below u q k)
    ];
    closed_below = λ q h. omega (arith, closed q, s.closed_below q (omega (arith, closed q)));
    distinct = λ u x q h k. elim (held w v o others u q h) [
      | inl e ↦ elim (held w v o others x q k) [
        | inl f ↦ e ∙ sym f
        | inr l ↦ absurd (nobody x (l ∙ ap (λ y. some y) (same_pointer now u q e h)))
      ]
      | inr l ↦ elim (held w v o others x q k) [
        | inl f ↦ absurd (nobody u (l ∙ ap (λ y. some y) (same_pointer now x q f k)))
        | inr m ↦ s.distinct u x q l m
      ]
    ];
  }

  -- Whoever holds a handle after `o` has forgotten its own held it before, and is not `o`.
  kept :
      pointer_of v o ≡ none
      → (u : Owner) (q : ℕ) → pointer_of v u ≡ some q
      → (pointer_of w u ≡ some q) × (u ≢ o)
  kept now u q h = elim (others u) [
    | inl e ↦ cc (sym now ∙ ap (pointer_of v) (sym e) ∙ h)
    | inr e ↦ (sym e ∙ h, λ f. cc (sym now ∙ ap (pointer_of v) (sym f) ∙ h))
  ]

  -- Such a handle is not the one that `o` held.
  kept-ne :
      pointer_of w o ≡ some p
      → pointer_of v o ≡ none
      → (u : Owner) (q : ℕ) → pointer_of v u ≡ some q
      → q ≢ p
  kept-ne before now u q h e =
      let (k, n) = kept now u q h in n (s.distinct u o q k (before ∙ ap (λ x. some x) (sym e)))

  -- `o` closes its handle and forgets it.
  pub close_held :
      pointer_of w o ≡ some p
      → pointer_of v o ≡ none
      → w.next_pointer ≤ v.next_pointer
      → ((q : ℕ) → closes q v.trace ≡ (if q == p then suc (closes q w.trace) else closes q w.trace))
      → IsSafe v
  close_held before now more closed = record {
    closed_once = λ q. ground (arith, closed q, s.closed_once q, s.unclosed o p before);
    unclosed = λ u q h.
        ground (arith, closed q, s.unclosed u q (kept now u q h).0, kept-ne before now u q h);
    below = λ u q h. omega (arith, s.below u q (kept now u q h).0);
    closed_below = λ q h. grind (arith, closed q, s.closed_below q, s.below o p before);
    distinct = λ u x q h k. s.distinct u x q (kept now u q h).0 (kept now x q k).0;
  }

module _ (w v : World) (s : IsSafe w) (p : ℕ) where
  -- A handle that nobody holds is closed.
  pub close_unheld :
      ((u : Owner) → pointer_of v u ≡ pointer_of w u)
      → ((u : Owner) → pointer_of w u ≢ some p)
      → closes p w.trace ≡ 0
      → p < w.next_pointer
      → w.next_pointer ≤ v.next_pointer
      → ((q : ℕ) → closes q v.trace ≡ (if q == p then suc (closes q w.trace) else closes q w.trace))
      → IsSafe v
  close_unheld same nobody unshut given_out more closed = record {
    closed_once = λ q. ground (arith, closed q, s.closed_once q);
    unclosed = λ u q h. ground (
      arith,
      closed q,
      s.unclosed u q (sym (same u) ∙ h),
      λ (e : q ≡ p). nobody u (sym (same u) ∙ h ∙ ap (λ y. some y) e),
    );
    below = λ u q h. omega (arith, s.below u q (sym (same u) ∙ h));
    closed_below = λ q h. grind (arith, closed q, s.closed_below q);
    distinct = λ u x q h k. s.distinct u x q (sym (same u) ∙ h) (sym (same x) ∙ k);
  }
