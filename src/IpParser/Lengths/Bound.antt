-- ===== src/IpParser/Lengths/Bound.antt =====
-- ext/asyncengine/ip_parser.c: the length of a text that the machine accepts.
use async_engine.Base.{
  Bool, List, [], false, if◌then◌else◌, inr, refl, true, ℕ, ◌&&◌, ◌<◌, ◌==◌, ◌∷◌, ◌≡◌, ◌⊎◌, All,
  Bool-cases, Option, arith, inl, length, none, some, subst, sym, ◌∙◌, ◌≤◌,
}
use async_engine.IpMachine.Moves.{Goto, st}
use async_engine.IpParser.Lengths.Weight.{all_fit, first_fits, fits, state_fits, weight, move_fits}
use async_engine.IpParser.OpenEnd.{below, below_at}
use async_engine.IpMachine.{find_case, cases}
use async_engine.Ruby.{IpType, ipv4, ipv6, ipv6_reference, no_ip}
use async_engine.IpParser.Lengths.Checked.{cases-fit}
use async_engine.IpParser.{execute_from, set_type}

unfoldable pub allowed : ℕ → Goto → Bool
allowed cs g = if cs == 1 then first_fits g else fits (weight cs) g

state_allowed :
    (cs c : ℕ) (body : ℕ → Goto) → c < 256 → state_fits cs body ≡ true → allowed cs (body c) ≡ true
unfolding state_fits allowed
state_allowed cs c body l h = by_first (cs == 1) h
  where
    by_first :
        (b : Bool)
        → (if b
            then below (λ c. first_fits (body c)) 256
            else below (λ c. fits (weight cs) (body c)) 256)
          ≡ true
        → (if b then first_fits (body c) else fits (weight cs) (body c)) ≡ true
    by_first true h = below_at (λ c. first_fits (body c)) 256 c h l
    by_first false h = below_at (λ c. fits (weight cs) (body c)) 256 c h l

both : (x y : Bool) → x && y ≡ true → (x ≡ true) × (y ≡ true)
both true y h = (refl, h)
both false y h = cc

equal : (m n : ℕ) → m == n ≡ true → m ≡ n
equal m n e = ground arith

record Found (cs : ℕ) (table : List (ℕ × (ℕ → Goto))) : Type 0 where
  pub body : ℕ → Goto
  pub found : (c : ℕ) → find_case cs table c ≡ body c
  pub checked : (state_fits cs body ≡ true) ⊎ ((c : ℕ) → body c ≡ st 0)

find_checked : (cs : ℕ) (table : List (ℕ × (ℕ → Goto))) → all_fit table ≡ true → Found cs table
unfolding find_case all_fit
find_checked cs [] h = record { body = λ c. st 0; found = λ c. refl; checked = inr (λ c. refl) }
find_checked cs ((n, body) ∷ rest) h =
    by_number (Bool-cases (n == cs)) (both (state_fits n body) _ h) (find_checked cs rest)
  where
    by_number :
        (n == cs ≡ true) ⊎ (n == cs ≡ false)
        → (state_fits n body ≡ true) × (all_fit rest ≡ true)
        → (all_fit rest ≡ true → Found cs rest)
        → Found cs ((n, body) ∷ rest)
    by_number (inl e) (f, g) ih = record {
      body = body;
      found = λ c. rw e refl;
      checked = inl (subst (λ m. state_fits m body ≡ true) (equal n cs e) f);
    }
    by_number (inr e) (f, g) ih =
        let r = ih g in record { body = r.body; found = λ c. rw e (r.found c); checked = r.checked }

-- Each move that the table makes at a byte is allowed, or goes to the error.
pub move_allowed :
    (cs c : ℕ)
    → c < 256
    → (allowed cs (find_case cs cases c) ≡ true) ⊎ (find_case cs cases c ≡ st 0)
move_allowed cs c l =
    let r = find_checked cs cases cases-fit in
    elim r.checked [
      | inl h ↦
          inl (subst (λ g. allowed cs g ≡ true) (sym (r.found c)) (state_allowed cs c r.body l h))
      | inr h ↦ inr (r.found c ∙ h c)
    ]

-- The rest of a run, by the first move.
unfoldable pub after_move : Goto → IpType → List ℕ → IpType
after_move (action, next) t rest =
    if next == 0 then no_ip else execute_from next (set_type action t) rest

pub first_move :
    (cs c : ℕ) (t : IpType) (rest : List ℕ)
    → execute_from cs t (c ∷ rest) ≡ after_move (find_case cs cases c) t rest
unfolding execute_from after_move
first_move cs c t rest = refl

unfoldable pub is_reference : IpType → Bool
is_reference ipv6_reference = true
is_reference _ = false

abbrev pub Bytes : List ℕ → Type 0
Bytes = All (λ c. c < 256)

-- Outside brackets: what is still accepted, and that its type is none with brackets.
pub record Plain (w : ℕ) (text : List ℕ) (r : IpType) : Type 0 where
  pub short : length text ≤ w
  pub pure_type : is_reference r ≡ false

pub plain_move :
    (w : ℕ) (action : Option IpType) (next : ℕ) (t : IpType)
    → w < 100
    → is_reference t ≡ false
    → fits w (action, next) ≡ true
    → (next ≡ 0) ⊎ ((1 < next) × (weight next < w) × (is_reference (set_type action t) ≡ false))
unfolding fits move_fits is_reference
plain_move w none next t l n h = ground arith
plain_move w (some ipv6_reference) next t l n h = ground arith
plain_move w (some ipv4) next t l n h = ground arith
plain_move w (some ipv6) next t l n h = ground arith
plain_move w (some no_ip) next t l n h = ground arith
