-- ===== src/IpParser/Octets.antt =====
-- ext/asyncengine/ip_parser.c: which numbers of up to three digits end a dotted quad.
use async_engine.Base.{
  Bool, Bool-cases, arith, if◌then◌else◌, inl, inr, ltb, refl, subst, suc, true, zero, ℕ, ◌%◌, ◌*◌,
  ◌+◌, ◌-◌, ◌/◌, ◌<◌, ◌∙◌, ◌≡◌,
}
use async_engine.Ruby.{IpType, ipv4, ipv6, ipv6_reference, no_ip}
use async_engine.IpParser.{ae_ip_parser_execute, execute_from}
use async_engine.IpParser.OpenEnd.{below, below_at}
use async_engine.IpMachine.{cases, find_case}
use async_engine.IpParser.Dotted.{decimal, dotted, ends, last_decides}
use async_engine.IpUtils.{same_type}

is_rejected : ℕ → Bool
unfolding execute_from find_case cases
is_rejected i = same_type (execute_from 7 no_ip (decimal (256 + i))) no_ip

abbrev Sixth : ℕ → Type 0
Sixth q = below (λ i. is_rejected (q * 124 + i)) 124 ≡ true

rejects_0 : Sixth 0
unfolding below is_rejected
rejects_0 = refl

rejects_1 : Sixth 1
unfolding below is_rejected
rejects_1 = refl

rejects_2 : Sixth 2
unfolding below is_rejected
rejects_2 = refl

rejects_3 : Sixth 3
unfolding below is_rejected
rejects_3 = refl

rejects_4 : Sixth 4
unfolding below is_rejected
rejects_4 = refl

rejects_5 : Sixth 5
unfolding below is_rejected
rejects_5 = refl

rejects : (q : ℕ) → q < 6 → Sixth q
rejects zero l = rejects_0
rejects (suc zero) l = rejects_1
rejects (suc (suc zero)) l = rejects_2
rejects (suc (suc (suc zero))) l = rejects_3
rejects (suc (suc (suc (suc zero)))) l = rejects_4
rejects (suc (suc (suc (suc (suc zero))))) l = rejects_5
rejects (suc (suc (suc (suc (suc (suc q)))))) l = absurd (omega arith)

same_no_ip : (t : IpType) → same_type t no_ip ≡ true → t ≡ no_ip
same_no_ip no_ip h = refl
same_no_ip ipv4 h = ground arith
same_no_ip ipv6 h = ground arith
same_no_ip ipv6_reference h = ground arith

rejected_at : (k : ℕ) → k < 744 → is_rejected k ≡ true
rejected_at k l =
    subst (λ j. is_rejected j ≡ true) (omega arith)
      (below_at (λ i. is_rejected (k / 124 * 124 + i)) 124 (k % 124)
        (rejects (k / 124) (omega arith)) (omega arith))

too_big : (i : ℕ) → i < 744 → execute_from 7 no_ip (decimal (256 + i)) ≡ no_ip
unfolding is_rejected
too_big i l = same_no_ip (execute_from 7 no_ip (decimal (256 + i))) (rejected_at i l)

last_type :
    (d : ℕ) → d < 1000 → execute_from 7 no_ip (decimal d) ≡ (if ltb d 256 then ipv4 else no_ip)
last_type d l = elim (Bool-cases (ltb d 256)) [
  | inl small ↦ rw small (ends d (ground arith))
  | inr big ↦ rw big (
      subst (λ j. execute_from 7 no_ip (decimal j) ≡ no_ip) {x = 256 + (d - 256)} {y = d}
        (ground arith) (too_big (d - 256) (ground arith)))
]

-- Three numbers below 256 and one below 1000, in decimal digits without leading zeros, with dots
-- between them, are read as an IPv4 address if the last is below 256, and refused otherwise.
pub ae_ip_parser_execute-dotted :
    (a b c d : ℕ)
    → a < 256
    → b < 256
    → c < 256
    → d < 1000
    → ae_ip_parser_execute (dotted a b c d) ≡ (if ltb d 256 then ipv4 else no_ip)
ae_ip_parser_execute-dotted a b c d la lb lc ld = last_decides a b c d la lb lc ∙ last_type d ld
