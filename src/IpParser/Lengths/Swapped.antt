-- ===== src/IpParser/Lengths/Swapped.antt =====
-- ext/asyncengine/ae_ip_utils.c, compare_ips: the order of the two texts.
use async_engine.IpUtils.{
  same_address, compare_by_type, compare_parts, compare_pure_ips, same_bytes, ip_utils_compare_ips,
  is_true,
}
use async_engine.Base.{
  Bool, List, Option, [], arith, length, none, not, refl, some, ℕ, ◌&&◌, ◌+◌, ◌==◌, ◌∷◌, ◌<◌, ◌≡◌,
  ◌≤◌, false, if◌then◌else◌, true,
}
use async_engine.World.Monad.{Env, pure, ◌>>=◌, M}
use async_engine.Ruby.{
  IpType, ipv4, ipv6, ipv6_reference, no_ip, StringEncoding, Value, qfalse, string,
}
use async_engine.World.{World}
use async_engine.IpParser.Lengths.Buffers.{compared_length, copied, text_fits}
use async_engine.IpParser.Lengths.Bound.{Bytes}
use async_engine.Arguments.{check_num_args}

eq_comm : (x y : ℕ) → (x == y) ≡ (y == x)
eq_comm x y = ground arith

same_bytes-sym : (xs ys : List ℕ) → same_bytes xs ys ≡ same_bytes ys xs
unfolding same_bytes
same_bytes-sym [] [] = refl
same_bytes-sym [] (y ∷ ys) = refl
same_bytes-sym (x ∷ xs) [] = refl
same_bytes-sym (x ∷ xs) (y ∷ ys) = rw (eq_comm x y) (rw (same_bytes-sym xs ys) refl)

same_address-sym : (a b : Option (List ℕ)) → same_address a b ≡ same_address b a
unfolding same_address
same_address-sym none none = refl
same_address-sym none (some b) = refl
same_address-sym (some a) none = refl
same_address-sym (some a) (some b) = same_bytes-sym a b

plus_comm : (m n : ℕ) → m + n ≡ n + m
plus_comm m n = omega arith

one_reference : (m n : ℕ) (allow : Bool) → (m + n == 1) && not allow ≡ (n + m == 1) && not allow
one_reference m n allow = rw (plus_comm m n) refl

choose :
    (b c : Bool) (x m n : M Value) (w : World)
    → b ≡ c
    → m w ≡ n w
    → (if b then x else m) w ≡ (if c then x else n) w
choose true true x m n w e h = refl
choose false false x m n w e h = h
choose true false x m n w e h = absurd (cc)
choose false true x m n w e h = absurd (cc)

module _ (env : Env) where
  compare_pure_ips-swap :
      (a b : List ℕ) (t u : IpType) (w : World)
      → length a ≤ 45
      → length b ≤ 45
      → compare_pure_ips env a t b u w ≡ compare_pure_ips env b u a t w
  unfolding compare_pure_ips compare_by_type pure ◌>>=◌
  compare_pure_ips-swap a b ipv4 ipv4 w la lb =
      rw (copied a la)
        (rw (copied b lb) (rw (same_address-sym (env.inet_pton4 a) (env.inet_pton4 b)) refl))
  compare_pure_ips-swap a b ipv4 ipv6 w la lb = refl
  compare_pure_ips-swap a b ipv4 ipv6_reference w la lb = refl
  compare_pure_ips-swap a b ipv4 no_ip w la lb = refl
  compare_pure_ips-swap a b ipv6 ipv4 w la lb = refl
  compare_pure_ips-swap a b ipv6 ipv6 w la lb =
      rw (copied a la)
        (rw (copied b lb) (rw (same_address-sym (env.inet_pton6 a) (env.inet_pton6 b)) refl))
  compare_pure_ips-swap a b ipv6 ipv6_reference w la lb = refl
  compare_pure_ips-swap a b ipv6 no_ip w la lb = refl
  compare_pure_ips-swap a b ipv6_reference ipv4 w la lb = refl
  compare_pure_ips-swap a b ipv6_reference ipv6 w la lb = refl
  compare_pure_ips-swap a b ipv6_reference ipv6_reference w la lb =
      rw (copied a la) (rw (copied b lb) refl)
  compare_pure_ips-swap a b ipv6_reference no_ip w la lb = refl
  compare_pure_ips-swap a b no_ip ipv4 w la lb = refl
  compare_pure_ips-swap a b no_ip ipv6 w la lb = refl
  compare_pure_ips-swap a b no_ip ipv6_reference w la lb = refl
  compare_pure_ips-swap a b no_ip no_ip w la lb = rw (copied a la) (rw (copied b lb) refl)

  compare_parts-swap :
      (allow : Bool) (p1 p2 : Option (ℕ × List ℕ × IpType)) (w : World)
      → compared_length p1 ≤ 45
      → compared_length p2 ≤ 45
      → compare_parts env allow p1 p2 w ≡ compare_parts env allow p2 p1 w
  unfolding compare_parts pure ◌>>=◌ compared_length
  compare_parts-swap allow none none w l1 l2 = refl
  compare_parts-swap allow none (some (r2, s2, t2)) w l1 l2 = refl
  compare_parts-swap allow (some (r1, s1, t1)) none w l1 l2 = refl
  compare_parts-swap allow (some (r1, s1, t1)) (some (r2, s2, t2)) w l1 l2 =
      choose _ _ (pure qfalse) _ _ w (one_reference r1 r2 allow)
        (rw (compare_pure_ips-swap s1 s2 t1 t2 w l1 l2) refl)

  -- The order of two strings of fewer than 2^31 bytes that compare_ips is given does not matter.
  pub ip_utils_compare_ips-swap :
      (e1 e2 : StringEncoding) (str1 str2 : List ℕ) (third : List Value) (w : World)
      → Bytes str1
      → Bytes str2
      → length str1 < 2147483648
      → length str2 < 2147483648
      → length third ≤ 1
      → ip_utils_compare_ips env (string e1 str1 ∷ string e2 str2 ∷ third) w
        ≡ ip_utils_compare_ips env (string e2 str2 ∷ string e1 str1 ∷ third) w
  unfolding ip_utils_compare_ips check_num_args pure ◌>>=◌
  ip_utils_compare_ips-swap e1 e2 str1 str2 [] w b1 b2 l1 l2 l =
      compare_parts-swap false _ _ w (text_fits str1 b1 l1) (text_fits str2 b2 l2)
  ip_utils_compare_ips-swap e1 e2 str1 str2 (allow ∷ []) w b1 b2 l1 l2 l =
      compare_parts-swap (is_true allow) _ _ w (text_fits str1 b1 l1) (text_fits str2 b2 l2)
  ip_utils_compare_ips-swap e1 e2 str1 str2 (x ∷ y ∷ rest) w b1 b2 l1 l2 l =
      absurd (omega (arith, l))
