-- ===== src/IpParser/Lengths/Buffers.antt =====
-- ext/asyncengine/ip_parser.c and ae_ip_utils.c: the texts that the parser accepts fit in the
-- buffers of the callers.
use async_engine.IpParser.Lengths.Bound.{
  Bytes, after_move, allowed, is_reference, first_move, move_allowed,
}
use async_engine.IpMachine.Moves.{Goto, st}
use async_engine.Ruby.{
  IpType, ipv6_reference, no_ip, ipv4, ipv6, StringEncoding, Value, qfalse, qnil, string,
}
use async_engine.Base.{
  List, Option, [], arith, false, inl, inr, length, none, refl, some, subst, suc, sym, true, zero,
  ℕ, ◌<◌, ◌∷◌, ◌≡◌, ◌≤◌, ◌⊎◌, leb, ltb, ◌&&◌, ◌||◌, Bool, Bool-cases, not, ◌+◌, ◌==◌, ap, take, ◌%◌,
}
use async_engine.IpParser.{ae_ip_parser_execute, execute_from, parse_string}
use async_engine.IpParser.Lengths.Brackets.{bracket_run}
use async_engine.IpParser.Lengths.Weight.{first_fits, weight}
use async_engine.IpParser.Lengths.Runs.{go_on, plain_run, second}
use async_engine.IpMachine.{cases, find_case}
use async_engine.IpUtils.{
  copy_ip, pure_ip, unbracket, drop_last, compare_by_type, compare_parts, compare_pure_ips,
  ip_utils_compare_ips, same_type, to_rb, is_true,
}
use async_engine.World.Monad.{pure, Env, ok, ◌>>=◌}
use async_engine.World.{World}
use async_engine.Arguments.{check_num_args}
use async_engine.Tcp.Lifecycle.{same}

by_weight :
    (n w : ℕ)
    → ltb 1 (suc n) && (leb w 44 || (leb 100 w && leb w 146)) ≡ true
    → (1 < suc n) × ((w ≤ 44) ⊎ ((100 ≤ w) × (w ≤ 146)))
by_weight n w h = ground arith

not_zero : (n : ℕ) → (suc n == 0) ≡ false
not_zero n = ground arith

first_plain :
    (action : Option IpType) (next : ℕ)
    → first_fits (action, next) ≡ true
    → (next ≡ 0)
      ⊎ ((action ≡ none)
          × (1 < next)
          × ((weight next ≤ 44) ⊎ ((100 ≤ weight next) × (weight next ≤ 146))))
unfolding first_fits
first_plain (some t) zero h = inl refl
first_plain (some t) (suc n) h = absurd (ground arith)
first_plain none zero h = inl refl
first_plain none (suc n) h =
    let (k, d) = by_weight n _ (second (suc n == 0) true _ (not_zero n) h) in inr (refl, k, d)

-- A result of the parser on a text of a given length.
abbrev pub Accepted : ℕ → IpType → Type 0
Accepted n t =
    (t ≡ no_ip) ⊎ ((n ≤ 45) × (is_reference t ≡ false)) ⊎ ((n ≤ 47) × (t ≡ ipv6_reference))

module _ (c : ℕ) (rest : List ℕ) (b : Bytes rest) where
  first_plain_run :
      (next : ℕ)
      → 1 < next
      → weight next ≤ 44
      → Accepted (length (c ∷ rest)) (execute_from next no_ip rest)
  unfolding is_reference
  first_plain_run next k l = elim (plain_run rest next no_ip b k (omega arith) refl) [
    | inl e ↦ inl e
    | inr p ↦ inr (inl (omega (arith, p.short), p.pure_type))
  ]

  first_bracket_run :
      (next : ℕ)
      → 1 < next
      → 100 ≤ weight next
      → weight next ≤ 146
      → Accepted (length (c ∷ rest)) (execute_from next no_ip rest)
  first_bracket_run next k l h = elim (bracket_run rest next b k l) [
    | inl e ↦ inl e
    | inr (s, e) ↦ inr (inr (omega (arith, s), e))
  ]

  start_step :
      (g : Goto)
      → (allowed 1 g ≡ true) ⊎ (g ≡ st 0)
      → Accepted (length (c ∷ rest)) (after_move g no_ip rest)
  unfolding after_move allowed
  start_step g (inr e) = inl (subst (λ g. after_move g no_ip rest ≡ no_ip) (sym e) refl)
  start_step (action, next) (inl h) = by_first (first_plain action next h)
    where
      by_first :
          (next ≡ 0)
            ⊎ ((action ≡ none)
                × (1 < next)
                × ((weight next ≤ 44) ⊎ ((100 ≤ weight next) × (weight next ≤ 146))))
          → Accepted (length (c ∷ rest)) (after_move (action, next) no_ip rest)
      by_first (inl e) = inl (subst (λ n. after_move (action, n) no_ip rest ≡ no_ip) (sym e) refl)
      by_first (inr (n, k, d)) =
          subst (λ a. Accepted (length (c ∷ rest)) (after_move (a, next) no_ip rest)) (sym n)
            (subst (Accepted (length (c ∷ rest)))
              (sym (go_on next (execute_from next no_ip rest) k))
              (elim d [
                | inl l ↦ first_plain_run next k l
                | inr (l, h) ↦ first_bracket_run next k l h
              ]))

ae_ip_parser_execute_start : (str : List ℕ) → ae_ip_parser_execute str ≡ execute_from 1 no_ip str
unfolding ae_ip_parser_execute
ae_ip_parser_execute_start str = refl

is_short : (n : ℕ) → n ≤ 45 → ltb 45 n ≡ false
is_short n l = ground arith

start_run : (str : List ℕ) → Bytes str → Accepted (length str) (execute_from 1 no_ip str)
unfolding execute_from
start_run [] b = inl refl
start_run (c ∷ rest) b =
    subst (Accepted (length (c ∷ rest))) (sym (first_move 1 c no_ip rest))
      (start_step c rest (b.1) (find_case 1 cases c) (move_allowed 1 c (b.0)))

-- A text of bytes that the parser accepts has 45 of them at most, or 47 where it is in brackets.
pub ae_ip_parser_execute_length :
    (str : List ℕ) → Bytes str → Accepted (length str) (ae_ip_parser_execute str)
ae_ip_parser_execute_length str b =
    subst (Accepted (length str)) (sym (ae_ip_parser_execute_start str)) (start_run str b)

drop_last-length : (x : ℕ) (rest : List ℕ) → length (drop_last (x ∷ rest)) ≡ length rest
unfolding drop_last
drop_last-length x [] = refl
drop_last-length x (y ∷ rest) = omega (arith, drop_last-length y rest)

unbracket-length : (str : List ℕ) → length str ≤ 47 → length (unbracket str) ≤ 45
unfolding unbracket drop_last
unbracket-length [] l = omega arith
unbracket-length (x ∷ []) l = omega arith
unbracket-length (x ∷ y ∷ rest) l = omega (arith, drop_last-length y rest, l)

unfoldable pub compared_length : Option (ℕ × List ℕ × IpType) → ℕ
compared_length none = 0
compared_length (some (references, ip, ip_type)) = length ip

pure_ip-length :
    (t : IpType) (str : List ℕ) → Accepted (length str) t → compared_length (pure_ip t str) ≤ 45
unfolding pure_ip compared_length is_reference
pure_ip-length no_ip str a = omega arith
pure_ip-length ipv4 str (inl e) = absurd (cc)
pure_ip-length ipv4 str (inr (inl (l, n))) = l
pure_ip-length ipv4 str (inr (inr (l, e))) = absurd (cc)
pure_ip-length ipv6 str (inl e) = absurd (cc)
pure_ip-length ipv6 str (inr (inl (l, n))) = l
pure_ip-length ipv6 str (inr (inr (l, e))) = absurd (cc)
pure_ip-length ipv6_reference str (inl e) = absurd (cc)
pure_ip-length ipv6_reference str (inr (inl (l, n))) = absurd (cc)
pure_ip-length ipv6_reference str (inr (inr (l, e))) = unbracket-length str l

pub copied : (ip : List ℕ) → length ip ≤ 45 → copy_ip ip ≡ pure ip
unfolding copy_ip
copied ip l = rw (is_short (length ip) l) refl

take_all : (str : List ℕ) → take (length str) str ≡ str
take_all [] = refl
take_all (c ∷ rest) = rw (take_all rest) refl

in_range : (n : ℕ) → n < 2147483648 → (n % 4294967296 ≡ n) × (ltb n 2147483648 ≡ true)
in_range n l = (omega arith, ground arith)

-- A length below 2^31 survives the conversion to an int.
parse_string_short :
    (str : List ℕ) → length str < 2147483648 → parse_string str ≡ ae_ip_parser_execute str
unfolding parse_string
parse_string_short str l =
    let (same, small) = in_range (length str) l in
    rw same (rw small (ap ae_ip_parser_execute (take_all str)))

-- What compare_ips compares of a text of bytes, without its brackets.
pub text_fits :
    (str : List ℕ)
    → Bytes str
    → length str < 2147483648
    → compared_length (pure_ip (parse_string str) str) ≤ 45
text_fits str b l =
    subst (λ t. compared_length (pure_ip t str) ≤ 45) (sym (parse_string_short str l))
      (pure_ip-length (ae_ip_parser_execute str) str (ae_ip_parser_execute_length str b))

module _ (env : Env) where
  compare_pure_ips-returns :
      (ip1 ip2 : List ℕ) (t1 t2 : IpType) (w : World)
      → length ip1 ≤ 45
      → length ip2 ≤ 45
      → (same : Bool) × (compare_pure_ips env ip1 t1 ip2 t2 w ≡ ok same w)
  unfolding compare_pure_ips pure ◌>>=◌
  compare_pure_ips-returns ip1 ip2 t1 t2 w l1 l2 = elim (Bool-cases (same_type t1 t2)) [
    | inl e ↦ (compare_by_type env t1 ip1 ip2, rw e (rw (copied ip1 l1) (rw (copied ip2 l2) refl)))
    | inr e ↦ (false, rw e refl)
  ]

  compare_parts-returns :
      (allow : Bool) (p1 p2 : Option (ℕ × List ℕ × IpType)) (w : World)
      → compared_length p1 ≤ 45
      → compared_length p2 ≤ 45
      → (answer : Value) × (compare_parts env allow p1 p2 w ≡ ok answer w)
  unfolding compare_parts pure ◌>>=◌ compared_length
  compare_parts-returns allow none p2 w l1 l2 = (qnil, refl)
  compare_parts-returns allow (some (r1, s1, t1)) none w l1 l2 = (qnil, refl)
  compare_parts-returns allow (some (r1, s1, t1)) (some (r2, s2, t2)) w l1 l2 =
      elim (Bool-cases ((r1 + r2 == 1) && not allow)) [
        | inl e ↦ (qfalse, rw e refl)
        | inr e ↦
            (let (same, r) = compare_pure_ips-returns s1 s2 t1 t2 w l1 l2 in
              (to_rb same, rw e (rw r refl)))
      ]

  -- compare_ips of any two strings of fewer than 2^31 bytes, with or without a third argument,
  -- returns an answer and changes nothing: the texts it copies fit in their buffers.
  pub ip_utils_compare_ips-returns :
      (e1 e2 : StringEncoding) (str1 str2 : List ℕ) (third : List Value) (w : World)
      → Bytes str1
      → Bytes str2
      → length str1 < 2147483648
      → length str2 < 2147483648
      → length third ≤ 1
      → (answer : Value) × (ip_utils_compare_ips env (string e1 str1 ∷ string e2 str2 ∷ third) w
          ≡ ok answer w)
  unfolding ip_utils_compare_ips check_num_args pure ◌>>=◌
  ip_utils_compare_ips-returns e1 e2 str1 str2 [] w b1 b2 l1 l2 l =
      compare_parts-returns false _ _ w (text_fits str1 b1 l1) (text_fits str2 b2 l2)
  ip_utils_compare_ips-returns e1 e2 str1 str2 (allow ∷ []) w b1 b2 l1 l2 l =
      compare_parts-returns (is_true allow) _ _ w (text_fits str1 b1 l1) (text_fits str2 b2 l2)
  ip_utils_compare_ips-returns e1 e2 str1 str2 (x ∷ y ∷ rest) w b1 b2 l1 l2 l =
      absurd (omega (arith, l))
