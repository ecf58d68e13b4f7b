-- ===== src/IpUtils.antt =====
-- ext/asyncengine/ae_ip_utils.c: comparison of addresses, and addresses as Ruby values.
use async_engine.Base.{
  ℕ, ◌+◌, Bool, true, false, not, ◌&&◌, List, [], ◌∷◌, Option, none, some, ltb, leb, ◌==◌,
  if◌then◌else◌, length,
}
use async_engine.Base.Int.{pos_part, ℤ, pos, negsuc}
use async_engine.Ruby.{
  IpType, ipv4, ipv6, ipv6_reference, no_ip, Exn, type_error, Value, qnil, qtrue, qfalse, symbol,
  address,
}
use async_engine.IpParser.{parse_string}
use async_engine.Arguments.{check_num_args, argument, string_arg, int_arg}
use async_engine.World.{Sockaddr}
use async_engine.World.Monad.{M, crash, pure, raise, ◌>>=◌, ◌>>◌, Env}

abbrev pub same_type : IpType → IpType → Bool
same_type ipv4 ipv4 = true
same_type ipv6 ipv6 = true
same_type ipv6_reference ipv6_reference = true
same_type no_ip no_ip = true
same_type _ _ = false

unfoldable pub ae_ip_type_to_rb_symbol : IpType → Value
ae_ip_type_to_rb_symbol ipv4 = symbol "ipv4"
ae_ip_type_to_rb_symbol ipv6 = symbol "ipv6"
ae_ip_type_to_rb_symbol ipv6_reference = symbol "ipv6_reference"
ae_ip_type_to_rb_symbol no_ip = qnil

symbol_or_false : IpType → Value
symbol_or_false ipv4 = symbol "ipv4"
symbol_or_false ipv6 = symbol "ipv6"
symbol_or_false ipv6_reference = symbol "ipv6_reference"
symbol_or_false no_ip = qfalse

-- IpUtils.ip_type.
unfoldable pub ip_utils_ip_type : Value → M Value
unfolding symbol_or_false
ip_utils_ip_type rb_str = do
  str ← string_arg rb_str (type_error "argument must be a String")
  pure (symbol_or_false (parse_string str))

unfoldable pub ae_ip_utils_is_valid_port : ℤ → Bool
ae_ip_utils_is_valid_port (pos port) = leb port 65535
ae_ip_utils_is_valid_port (negsuc n) = false

-- An argument that holds a port: a Fixnum (else the first error), an int, and in range (else the
-- second).
unfoldable pub port_arg : Value → Exn → Exn → M ℕ
unfolding int_arg ae_ip_utils_is_valid_port
port_arg v no_fixnum invalid = do
  port ← int_arg v no_fixnum
  if not (ae_ip_utils_is_valid_port port) then raise invalid else pure (pos_part port)

-- memcmp and == on addresses.
unfoldable pub same_bytes : List ℕ → List ℕ → Bool
same_bytes [] [] = true
same_bytes (x ∷ xs) (y ∷ ys) = (x == y) && same_bytes xs ys
same_bytes _ _ = false

unfoldable pub same_address : Option (List ℕ) → Option (List ℕ) → Bool
unfolding same_bytes
same_address none a = false
same_address (some a) none = false
same_address (some a) (some b) = same_bytes a b

-- A text for `_ip1` or `_ip2`, char[46]: memcpy and the final zero write `len + 1` bytes.
unfoldable pub copy_ip : List ℕ → M (List ℕ)
copy_ip ip = if ltb 45 (length ip) then (λ w. crash) else pure ip

-- `str[0 .. len - 1]`, empty where `len` is not positive.
unfoldable pub drop_last : List ℕ → List ℕ
drop_last [] = []
drop_last (x ∷ []) = []
drop_last (x ∷ y ∷ rest) = x ∷ drop_last (y ∷ rest)

-- `str += 1; len -= 2`: the text without its brackets.
unfoldable pub unbracket : List ℕ → List ℕ
unfolding drop_last
unbracket [] = []
unbracket (c ∷ rest) = drop_last rest

-- What the switch on the type of an argument does: how many references it found, the text, its
-- type. `none` is the return of nil.
unfoldable pub pure_ip : IpType → List ℕ → Option (ℕ × List ℕ × IpType)
unfolding unbracket
pure_ip no_ip str = none
pure_ip ipv6_reference str = some (1, unbracket str, ipv6)
pure_ip ipv4 str = some (0, str, ipv4)
pure_ip ipv6 str = some (0, str, ipv6)

abbrev pub is_true : Value → Bool
is_true qtrue = true
is_true _ = false

abbrev pub to_rb : Bool → Value
to_rb true = qtrue
to_rb false = qfalse

unfoldable pub from_ntop : Option (List ℕ) → ℕ → M Value
from_ntop none port = λ w. crash
from_ntop (some ip) port = pure (address ip port)

module _ (env : Env) where
  unfoldable pub compare_by_type : IpType → List ℕ → List ℕ → Bool
  unfolding same_address
  compare_by_type ipv4 ip1 ip2 = same_address (env.inet_pton4 ip1) (env.inet_pton4 ip2)
  compare_by_type ipv6 ip1 ip2 = same_address (env.inet_pton6 ip1) (env.inet_pton6 ip2)
  compare_by_type _ ip1 ip2 = false

  unfoldable pub compare_pure_ips : List ℕ → IpType → List ℕ → IpType → M Bool
  unfolding copy_ip compare_by_type
  compare_pure_ips ip1 ip1_type ip2 ip2_type =
      if not (same_type ip1_type ip2_type)
      then pure false
      else (do a ← copy_ip ip1; b ← copy_ip ip2; pure (compare_by_type ip1_type a b))

  -- The comparison of what the two switches left.
  unfoldable pub compare_parts :
      Bool → Option (ℕ × List ℕ × IpType) → Option (ℕ × List ℕ × IpType) → M Value
  unfolding compare_pure_ips
  compare_parts allow none second = pure qnil
  compare_parts allow (some (r1, s1, t1)) none = pure qnil
  compare_parts allow (some (r1, s1, t1)) (some (r2, s2, t2)) =
      if (r1 + r2 == 1) && not allow
      then pure qfalse
      else (do same ← compare_pure_ips s1 t1 s2 t2; pure (to_rb same))

  -- IpUtils.compare_ips. The second text is parsed only if the first is an IP, with no other effect.
  unfoldable pub ip_utils_compare_ips : List Value → M Value
  unfolding check_num_args pure_ip compare_parts
  ip_utils_compare_ips argv = do
    check_num_args 2 3 argv
    str1 ← string_arg (argument argv 0) (type_error "first and second arguments must be String")
    str2 ← string_arg (argument argv 1) (type_error "first and second arguments must be String")
    compare_parts ((length argv == 3) && is_true (argument argv 2))
        (pure_ip (parse_string str1) str1) (pure_ip (parse_string str2) str2)

  -- The default branch asserts a text, which is never false, and goes on with what memory holds.
  unfoldable pub ae_ip_utils_get_ip_port : Sockaddr → IpType → M Value
  unfolding from_ntop
  ae_ip_utils_get_ip_port addr ipv4 =
      from_ntop (env.inet_ntop4 addr.sin_addr) (env.htons addr.sin_port)
  ae_ip_utils_get_ip_port addr ipv6 =
      from_ntop (env.inet_ntop6 addr.sin_addr) (env.htons addr.sin_port)
  ae_ip_utils_get_ip_port addr _ = let (ip, port) = env.memory_address in pure (address ip port)
