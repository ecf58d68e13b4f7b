-- ===== src/IpParser/OpenEnd.antt =====
-- ext/asyncengine/ip_parser.c: the machine's final states are not tested.
use async_engine.Base.{
  Bool, Bool-cases, List, [], arith, inl, inr, refl, subst, suc, true, zero, ℕ, ◌&&◌, ◌+◌, ◌<◌,
  ◌==◌, ◌∷◌, ◌≡◌,
}
use async_engine.IpParser.{ae_ip_parser_execute}
use async_engine.Ruby.{ipv6, IpType, ipv4, ipv6_reference, no_ip}
use async_engine.IpUtils.{same_type}

unfoldable pub below : (ℕ → Bool) → ℕ → Bool
below p zero = true
below p (suc n) = p n && below p n

below_step : (p : ℕ → Bool) (n : ℕ) → below p (suc n) ≡ true → (p n ≡ true) × (below p n ≡ true)
unfolding below
below_step p n h = (ground arith, ground arith)

pub below_at : (p : ℕ → Bool) (n k : ℕ) → below p n ≡ true → k < n → p k ≡ true
unfolding below
below_at p zero k h l = absurd (omega arith)
below_at p (suc n) k h l = elim (Bool-cases (k == n)) [
  | inl e ↦ subst (λ j. p j ≡ true) (ground arith) ((below_step p n h).0)
  | inr d ↦ below_at p n k ((below_step p n h).1) (ground arith)
]

-- Two colons, a digit and a colon.
abbrev pub open_end : ℕ → List ℕ
open_end d = b':' ∷ b':' ∷ (48 + d) ∷ b':' ∷ []

is_accepted : ℕ → Bool
is_accepted d = same_type (ae_ip_parser_execute (open_end d)) ipv6

digits : below is_accepted 10 ≡ true
unfolding below is_accepted ae_ip_parser_execute
digits = refl

same_ipv6 : (t : IpType) → same_type t ipv6 ≡ true → t ≡ ipv6
same_ipv6 ipv6 h = refl
same_ipv6 ipv4 h = ground arith
same_ipv6 ipv6_reference h = ground arith
same_ipv6 no_ip h = ground arith

-- Two colons, any decimal digit and a last colon are read as an IPv6 address, although no address
-- ends with a single colon.
pub ae_ip_parser_execute-open_end : (d : ℕ) → d < 10 → ae_ip_parser_execute (open_end d) ≡ ipv6
unfolding is_accepted
ae_ip_parser_execute-open_end d h = same_ipv6 _ (below_at is_accepted 10 d digits h)
