-- ===== src/IpParser/Lengths/Brackets.antt =====
-- ext/asyncengine/ip_parser.c: the runs of the machine after an opening bracket.
use async_engine.IpParser.Lengths.Bound.{Bytes, after_move, first_move}
use async_engine.IpMachine.Moves.{Goto, st}
use async_engine.Ruby.{IpType, ipv4, ipv6, ipv6_reference, no_ip}
use async_engine.Base.{
  List, Option, [], arith, inl, inr, length, none, refl, some, subst, suc, sym, true, zero, ℕ, ◌+◌,
  ◌<◌, ◌∙◌, ◌∷◌, ◌≡◌, ◌≤◌, ◌⊎◌,
}
use async_engine.IpParser.Lengths.Runs.{allowed_move, go_on}
use async_engine.IpMachine.{cases, find_case}
use async_engine.IpParser.{execute_from}
use async_engine.IpParser.Lengths.Weight.{fits, move_fits, weight}

final_move : (action : Option IpType) (next : ℕ) → fits 0 (action, next) ≡ true → next ≡ 0
unfolding fits move_fits
final_move none next h = ground arith
final_move (some ipv6_reference) next h = ground arith
final_move (some ipv4) next h = ground arith
final_move (some ipv6) next h = ground arith
final_move (some no_ip) next h = ground arith

-- After a move that leaves nothing to read.
final_step :
    (g : Goto) (t : IpType) (rest : List ℕ)
    → (fits 0 g ≡ true) ⊎ (g ≡ st 0)
    → after_move g t rest ≡ no_ip
unfolding after_move
final_step g t rest (inr e) = subst (λ g. after_move g t rest ≡ no_ip) (sym e) refl
final_step (action, next) t rest (inl h) =
    subst (λ n. after_move (action, n) t rest ≡ no_ip) (sym (final_move action next h)) refl

abbrev FinalEnd : List ℕ → IpType → IpType → Type 0
FinalEnd text t r = (r ≡ no_ip) ⊎ ((length text ≡ 0) × (r ≡ t))

final_run :
    (text : List ℕ) (cs : ℕ) (t : IpType)
    → Bytes text
    → 1 < cs
    → weight cs ≡ 0
    → FinalEnd text t (execute_from cs t text)
unfolding execute_from
final_run [] cs t b k e = inr (refl, refl)
final_run (c ∷ rest) cs t b k e = inl (
    first_move cs c t rest
    ∙ final_step (find_case cs cases c) t rest (
        subst (λ w. (fits w (find_case cs cases c) ≡ true) ⊎ (find_case cs cases c ≡ st 0)) e
          (allowed_move cs c k (b.0))))

abbrev pub BracketEnd : ℕ → List ℕ → IpType → Type 0
BracketEnd w text r = (r ≡ no_ip) ⊎ ((length text + 100 ≤ w) × (r ≡ ipv6_reference))

-- The moves within brackets: to the error, to a state within them, or by the closing bracket.
data BracketMove (w : ℕ) : Option IpType → ℕ → Type 0 where
  fails : {action : Option IpType} → BracketMove w action 0
  within : {next : ℕ} → 1 < next → 100 ≤ weight next → weight next < w → BracketMove w none next
  leaves :
      {next : ℕ} → 1 < next → weight next ≡ 0 → 101 ≤ w → BracketMove w (some ipv6_reference) next

bracket_move :
    (w : ℕ) (action : Option IpType) (next : ℕ)
    → 100 ≤ w
    → fits w (action, next) ≡ true
    → BracketMove w action next
unfolding fits move_fits
bracket_move w none zero l h = BracketMove.fails
bracket_move w none (suc n) l h = BracketMove.within (ground arith) (ground arith) (ground arith)
bracket_move w (some ipv6_reference) zero l h = BracketMove.fails
bracket_move w (some ipv6_reference) (suc n) l h =
    BracketMove.leaves (ground arith) (ground arith) (ground arith)
bracket_move w (some ipv4) zero l h = BracketMove.fails
bracket_move w (some ipv4) (suc n) l h = absurd (ground arith)
bracket_move w (some ipv6) zero l h = BracketMove.fails
bracket_move w (some ipv6) (suc n) l h = absurd (ground arith)
bracket_move w (some no_ip) zero l h = BracketMove.fails
bracket_move w (some no_ip) (suc n) l h = absurd (ground arith)

module _ (rest : List ℕ) (b : Bytes rest)
    (ih : (cs : ℕ)
      → 1 < cs
      → 100 ≤ weight cs
      → BracketEnd (weight cs) rest (execute_from cs no_ip rest)) where
  bracket_step :
      (w c : ℕ) (action : Option IpType) (next : ℕ)
      → BracketMove w action next
      → BracketEnd w (c ∷ rest) (after_move (action, next) no_ip rest)
  unfolding after_move
  bracket_step w c action next BracketMove.fails = inl refl
  bracket_step w c action next (BracketMove.within k h l) =
      subst (BracketEnd w (c ∷ rest)) (sym (go_on next (execute_from next no_ip rest) k))
        (elim (ih next k h) [ inl e ↦ inl e | inr (s, e) ↦ inr (omega (arith, s), e) ])
  bracket_step w c action next (BracketMove.leaves k z l) =
      subst (BracketEnd w (c ∷ rest)) (sym (go_on next (execute_from next ipv6_reference rest) k))
        (elim (final_run rest next ipv6_reference b k z) [
          | inl e ↦ inl e
          | inr (s, e) ↦ inr (omega (arith, s), e)
        ])

pub bracket_run :
    (text : List ℕ) (cs : ℕ)
    → Bytes text
    → 1 < cs
    → 100 ≤ weight cs
    → BracketEnd (weight cs) text (execute_from cs no_ip text)
unfolding execute_from after_move
bracket_run [] cs b k l = inl refl
bracket_run (c ∷ rest) cs b k l =
    subst (BracketEnd (weight cs) (c ∷ rest)) (sym (first_move cs c no_ip rest)) (
      by_move (find_case cs cases c) (λ cs k l. bracket_run rest cs (b.1) k l)
        (allowed_move cs c k (b.0)))
  where
    by_move :
        (g : Goto)
        → ((cs : ℕ)
            → 1 < cs
            → 100 ≤ weight cs
            → BracketEnd (weight cs) rest (execute_from cs no_ip rest))
        → (fits (weight cs) g ≡ true) ⊎ (g ≡ st 0)
        → BracketEnd (weight cs) (c ∷ rest) (after_move g no_ip rest)
    by_move g ih (inr e) = inl (subst (λ g. after_move g no_ip rest ≡ no_ip) (sym e) refl)
    by_move (action, next) ih (inl h) =
        bracket_step rest (b.1) ih (weight cs) c action next
          (bracket_move (weight cs) action next l h)
