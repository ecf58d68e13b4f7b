-- ===== src/IpParser/Lengths/Runs.antt =====
-- ext/asyncengine/ip_parser.c: the runs of the machine outside brackets.
use async_engine.Base.{
  Bool, List, [], arith, false, if◌then◌else◌, inl, inr, refl, subst, sym, true, ℕ, ◌<◌, ◌==◌, ◌∷◌,
  ◌≡◌, ◌⊎◌,
}
use async_engine.IpParser.Lengths.Bound.{
  Bytes, Plain, after_move, allowed, first_move, is_reference, move_allowed, plain_move,
}
use async_engine.IpMachine.Moves.{Goto, st}
use async_engine.Ruby.{IpType, no_ip}
use async_engine.IpMachine.{cases, find_case}
use async_engine.IpParser.{execute_from, set_type}
use async_engine.IpParser.Lengths.Weight.{first_fits, fits, weight}

pub second : (b x y : Bool) → b ≡ false → (if b then x else y) ≡ true → y ≡ true
second true x y e h = cc
second false x y e h = h

is_one : (cs : ℕ) → 1 < cs → (cs == 1) ≡ false
is_one cs l = ground arith

is_zero : (cs : ℕ) → 1 < cs → (cs == 0) ≡ false
is_zero cs l = ground arith

pub not_first : (cs : ℕ) (g : Goto) → 1 < cs → allowed cs g ≡ true → fits (weight cs) g ≡ true
unfolding allowed
not_first cs g l h = second (cs == 1) (first_fits g) (fits (weight cs) g) (is_one cs l) h

-- A move to a state that is not the error.
pub go_on : (next : ℕ) (x : IpType) → 1 < next → (if next == 0 then no_ip else x) ≡ x
go_on next x l = rw (is_zero next l) refl

pub allowed_move :
    (cs c : ℕ)
    → 1 < cs
    → c < 256
    → (fits (weight cs) (find_case cs cases c) ≡ true) ⊎ (find_case cs cases c ≡ st 0)
allowed_move cs c k l = elim (move_allowed cs c l) [
  | inl h ↦ inl (not_first cs (find_case cs cases c) k h)
  | inr e ↦ inr e
]

-- What a plain run may give.
abbrev pub PlainEnd : ℕ → List ℕ → IpType → Type 0
PlainEnd w text r = (r ≡ no_ip) ⊎ Plain w text r

longer :
    (w v c : ℕ) (rest : List ℕ) (r : IpType) → v < w → PlainEnd v rest r → PlainEnd w (c ∷ rest) r
longer w v c rest r l (inl e) = inl e
longer w v c rest r l (inr p) =
    inr (record { short = omega (arith, p.short); pure_type = p.pure_type })

module _ (rest : List ℕ)
    (ih : (cs : ℕ) (t : IpType)
      → 1 < cs
      → weight cs < 100
      → is_reference t ≡ false
      → PlainEnd (weight cs) rest (execute_from cs t rest)) where
  plain_step :
      (w c : ℕ) (g : Goto) (t : IpType)
      → w < 100
      → is_reference t ≡ false
      → (fits w g ≡ true) ⊎ (g ≡ st 0)
      → PlainEnd w (c ∷ rest) (after_move g t rest)
  unfolding after_move
  plain_step w c g t l n (inr e) = inl (subst (λ g. after_move g t rest ≡ no_ip) (sym e) refl)
  plain_step w c (action, next) t l n (inl h) = moved (plain_move w action next t l n h)
    where
      moved :
          (next ≡ 0) ⊎ ((1 < next) × (weight next < w) × (is_reference (set_type action t) ≡ false))
          → PlainEnd w (c ∷ rest) (after_move (action, next) t rest)
      moved (inl e) = inl (subst (λ n. after_move (action, n) t rest ≡ no_ip) (sym e) refl)
      moved (inr (k, v, p)) =
          subst (PlainEnd w (c ∷ rest))
            (sym (go_on next (execute_from next (set_type action t) rest) k))
            (longer w (weight next) c rest _ v (ih next (set_type action t) k (omega arith) p))

pub plain_run :
    (text : List ℕ) (cs : ℕ) (t : IpType)
    → Bytes text
    → 1 < cs
    → weight cs < 100
    → is_reference t ≡ false
    → PlainEnd (weight cs) text (execute_from cs t text)
unfolding execute_from
plain_run [] cs t b k l n = inr (record { short = omega arith; pure_type = n })
plain_run (c ∷ rest) cs t b k l n =
    subst (PlainEnd (weight cs) (c ∷ rest)) (sym (first_move cs c t rest)) (
      plain_step rest (λ cs t k l n. plain_run rest cs t (b.1) k l n) (weight cs) c
        (find_case cs cases c) t l n (allowed_move cs c k (b.0)))
