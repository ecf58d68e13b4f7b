-- ===== src/IpParser/Dotted.antt =====
-- ext/asyncengine/ip_parser.c: the dotted quads of IPv4.
use async_engine.IpParser.OpenEnd.{below, below_at}
use async_engine.Base.{
  Bool, List, [], if◌then◌else◌, ltb, refl, true, ℕ, ◌%◌, ◌&&◌, ◌++◌, ◌+◌, ◌/◌, ◌==◌, ◌∷◌, ◌≡◌,
  arith, false, subst, suc, zero, ◌*◌, ◌<◌, Bool-cases, ap, inl, inr, ◌∙◌, sym,
}
use async_engine.Ruby.{IpType, no_ip, ipv4, ipv6, ipv6_reference}
use async_engine.IpMachine.{cases, find_case}
use async_engine.IpUtils.{same_type}
use async_engine.IpParser.{set_type, execute_from, ae_ip_parser_execute}

-- A byte in decimal digits, without leading zeros.
abbrev pub decimal : ℕ → List ℕ
decimal a =
    if ltb a 10
    then (48 + a) ∷ []
    else if ltb a 100
    then (48 + a / 10) ∷ (48 + a % 10) ∷ []
    else (48 + a / 100) ∷ (48 + a / 10 % 10) ∷ (48 + a % 10) ∷ []

-- Where a text leads from a state: the state and the type.
unfoldable pub advance : ℕ → IpType → List ℕ → ℕ × IpType
advance cs ip_type [] = (cs, ip_type)
advance cs ip_type (c ∷ rest) =
    let (action, next) = find_case cs cases c in
    if next == 0 then (0, no_ip) else advance next (set_type action ip_type) rest

-- The text of an address.
abbrev pub dotted : ℕ → ℕ → ℕ → ℕ → List ℕ
dotted a b c d =
    (decimal a ++ b'.' ∷ [])
    ++ ((decimal b ++ b'.' ∷ []) ++ ((decimal c ++ b'.' ∷ []) ++ decimal d))

-- A number below 256 is in one of four quarters.
below_256 :
    (p : ℕ → Bool)
    → ((q : ℕ) → q < 4 → below (λ i. p (q * 64 + i)) 64 ≡ true)
    → (k : ℕ) → k < 256
    → p k ≡ true
below_256 p h k l =
    subst (λ j. p j ≡ true) (omega arith)
      (below_at (λ i. p (k / 64 * 64 + i)) 64 (k % 64) (h (k / 64) (omega arith)) (omega arith))

below_4 : (P : ℕ → Type 0) → P 0 → P 1 → P 2 → P 3 → (q : ℕ) → q < 4 → P q
below_4 P h0 h1 h2 h3 zero l = h0
below_4 P h0 h1 h2 h3 (suc zero) l = h1
below_4 P h0 h1 h2 h3 (suc (suc zero)) l = h2
below_4 P h0 h1 h2 h3 (suc (suc (suc zero))) l = h3
below_4 P h0 h1 h2 h3 (suc (suc (suc (suc q)))) l = absurd (omega arith)

octet_leads : ℕ → ℕ → ℕ → Bool
unfolding advance find_case cases
octet_leads from to a =
    let (cs, ip_type) = advance from no_ip (decimal a ++ b'.' ∷ []) in
    (cs == to) && same_type ip_type no_ip

octet_ends : ℕ → Bool
unfolding execute_from find_case cases
octet_ends a = same_type (execute_from 7 no_ip (decimal a)) ipv4

abbrev Quarter : (ℕ → Bool) → ℕ → Type 0
Quarter p q = below (λ i. p (q * 64 + i)) 64 ≡ true

first_1_0 : Quarter (octet_leads 1 3) 0
unfolding below octet_leads
first_1_0 = refl

first_1_1 : Quarter (octet_leads 1 3) 1
unfolding below octet_leads
first_1_1 = refl

first_1_2 : Quarter (octet_leads 1 3) 2
unfolding below octet_leads
first_1_2 = refl

first_1_3 : Quarter (octet_leads 1 3) 3
unfolding below octet_leads
first_1_3 = refl

first_3_0 : Quarter (octet_leads 3 5) 0
unfolding below octet_leads
first_3_0 = refl

first_3_1 : Quarter (octet_leads 3 5) 1
unfolding below octet_leads
first_3_1 = refl

first_3_2 : Quarter (octet_leads 3 5) 2
unfolding below octet_leads
first_3_2 = refl

first_3_3 : Quarter (octet_leads 3 5) 3
unfolding below octet_leads
first_3_3 = refl

first_5_0 : Quarter (octet_leads 5 7) 0
unfolding below octet_leads
first_5_0 = refl

first_5_1 : Quarter (octet_leads 5 7) 1
unfolding below octet_leads
first_5_1 = refl

first_5_2 : Quarter (octet_leads 5 7) 2
unfolding below octet_leads
first_5_2 = refl

first_5_3 : Quarter (octet_leads 5 7) 3
unfolding below octet_leads
first_5_3 = refl

last_0 : Quarter octet_ends 0
unfolding below octet_ends
last_0 = refl

last_1 : Quarter octet_ends 1
unfolding below octet_ends
last_1 = refl

last_2 : Quarter octet_ends 2
unfolding below octet_ends
last_2 = refl

last_3 : Quarter octet_ends 3
unfolding below octet_ends
last_3 = refl

advance_step :
    (c : ℕ) (xs : List ℕ) (cs : ℕ) (t : IpType)
    → ((find_case cs cases c).1 == 0) ≡ false
    → advance cs t (c ∷ xs)
      ≡ advance (find_case cs cases c).1 (set_type (find_case cs cases c).0 t) xs
unfolding advance
advance_step c xs cs t z = rw z refl

execute_from-++ :
    (xs ys : List ℕ) (cs : ℕ) (t : IpType) (to : ℕ) (u : IpType)
    → advance cs t xs ≡ (to, u)
    → (to == 0) ≡ false
    → execute_from cs t (xs ++ ys) ≡ execute_from to u ys
unfolding advance execute_from
execute_from-++ [] ys cs t to u e n = ap (λ r. execute_from (r.0) (r.1) ys) e
execute_from-++ (c ∷ xs) ys cs t to u e n = elim (Bool-cases ((find_case cs cases c).1 == 0)) [
  | inl z ↦ ground arith
  | inr z ↦ rw z (
      execute_from-++ xs ys (find_case cs cases c).1 (set_type (find_case cs cases c).0 t) to u
        (sym (advance_step c xs cs t z) ∙ e) n)
]

reached_at :
    (t : IpType) (cs to : ℕ) → ((cs == to) && same_type t no_ip) ≡ true → (cs ≡ to) × (t ≡ no_ip)
reached_at no_ip cs to h = (ground arith, refl)
reached_at ipv4 cs to h = (ground arith, ground arith)
reached_at ipv6 cs to h = (ground arith, ground arith)
reached_at ipv6_reference cs to h = (ground arith, ground arith)

reached :
    (r : ℕ × IpType) (to : ℕ) → (((r.0) == to) && same_type (r.1) no_ip) ≡ true → r ≡ (to, no_ip)
reached (cs, t) to h = let (e, f) = reached_at t cs to h in ap (λ j. (j, t)) e ∙ ap (λ u. (to, u)) f

leads_to :
    (from to a : ℕ)
    → octet_leads from to a ≡ true
    → advance from no_ip (decimal a ++ b'.' ∷ []) ≡ (to, no_ip)
unfolding octet_leads
leads_to from to a h = reached (advance from no_ip (decimal a ++ b'.' ∷ [])) to h

same_ipv4 : (t : IpType) → same_type t ipv4 ≡ true → t ≡ ipv4
same_ipv4 ipv4 h = refl
same_ipv4 ipv6 h = ground arith
same_ipv4 ipv6_reference h = ground arith
same_ipv4 no_ip h = ground arith

octet_1 : (a : ℕ) → a < 256 → advance 1 no_ip (decimal a ++ b'.' ∷ []) ≡ (3, no_ip)
octet_1 a l = leads_to 1 3 a (
    below_256 (octet_leads 1 3)
      (below_4 (Quarter (octet_leads 1 3)) first_1_0 first_1_1 first_1_2 first_1_3) a l)

octet_3 : (a : ℕ) → a < 256 → advance 3 no_ip (decimal a ++ b'.' ∷ []) ≡ (5, no_ip)
octet_3 a l = leads_to 3 5 a (
    below_256 (octet_leads 3 5)
      (below_4 (Quarter (octet_leads 3 5)) first_3_0 first_3_1 first_3_2 first_3_3) a l)

octet_5 : (a : ℕ) → a < 256 → advance 5 no_ip (decimal a ++ b'.' ∷ []) ≡ (7, no_ip)
octet_5 a l = leads_to 5 7 a (
    below_256 (octet_leads 5 7)
      (below_4 (Quarter (octet_leads 5 7)) first_5_0 first_5_1 first_5_2 first_5_3) a l)

pub ends : (a : ℕ) → a < 256 → execute_from 7 no_ip (decimal a) ≡ ipv4
unfolding octet_ends
ends a l =
    same_ipv4 (execute_from 7 no_ip (decimal a))
      (below_256 octet_ends (below_4 (Quarter octet_ends) last_0 last_1 last_2 last_3) a l)

-- The last number decides, from the state behind the third dot.
pub last_decides :
    (a b c d : ℕ)
    → a < 256
    → b < 256
    → c < 256
    → ae_ip_parser_execute (dotted a b c d) ≡ execute_from 7 no_ip (decimal d)
unfolding ae_ip_parser_execute
last_decides a b c d la lb lc =
    execute_from-++ _ _ 1 no_ip 3 no_ip (octet_1 a la) refl
    ∙ execute_from-++ _ _ 3 no_ip 5 no_ip (octet_3 b lb) refl
    ∙ execute_from-++ _ _ 5 no_ip 7 no_ip (octet_5 c lc) refl
