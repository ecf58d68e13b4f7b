-- ===== src/Examples/Lengths.antt =====
-- The theorems on the lengths of texts at the longest addresses.
use async_engine.Base.{
  ltb, ◌&&◌, Bool, List, [], arith, false, length, refl, true, ℕ, ◌++◌, ◌<◌, ◌∷◌, ◌≡◌,
}
use async_engine.IpParser.Lengths.Buffers.{
  Accepted, ae_ip_parser_execute_length, ip_utils_compare_ips-returns,
}
use async_engine.IpParser.Lengths.Bound.{Bytes}
use async_engine.Ruby.{Value, ascii, ipv6, ipv6_reference, string, qtrue}
use async_engine.IpParser.{ae_ip_parser_execute}
use async_engine.Examples.{calm_env, example_world}
use async_engine.IpUtils.{ip_utils_compare_ips}
use async_engine.World.Monad.{ok}
use async_engine.IpParser.Lengths.Swapped.{ip_utils_compare_ips-swap}

-- "1111:2222:3333:4444:5555:6666:123.123.123.123", the digits at the end the same.
abbrev group : ℕ → List ℕ
group d = d ∷ d ∷ d ∷ d ∷ 58 ∷ []

abbrev longest : List ℕ
longest =
    group 49
    ++ group 50
    ++ group 51
    ++ group 52
    ++ group 53
    ++ group 54
    ++ (49 ∷ 50 ∷ 51 ∷ 46 ∷ 49 ∷ 50 ∷ 51 ∷ 46 ∷ 49 ∷ 50 ∷ 51 ∷ 46 ∷ 49 ∷ 50 ∷ 51 ∷ [])

abbrev longest_reference : List ℕ
longest_reference = 91 ∷ (longest ++ (93 ∷ []))

unfoldable all_below : List ℕ → Bool
all_below [] = true
all_below (c ∷ rest) = ltb c 256 && all_below rest

first_part : (x y : Bool) → x && y ≡ true → (x ≡ true) × (y ≡ true)
first_part true y h = (refl, h)
first_part false y h = cc

less : (c : ℕ) → ltb c 256 ≡ true → c < 256
less c h = ground arith

all_below-Bytes : (str : List ℕ) → all_below str ≡ true → Bytes str
unfolding all_below
all_below-Bytes [] h = tt
all_below-Bytes (c ∷ rest) h =
    let (k, l) = first_part (ltb c 256) _ h in (less c k, all_below-Bytes rest l)

longest-Bytes : Bytes longest
unfolding all_below
longest-Bytes = all_below-Bytes longest refl

longest_reference-Bytes : Bytes longest_reference
unfolding all_below
longest_reference-Bytes = all_below-Bytes longest_reference refl

longest_type : ae_ip_parser_execute longest ≡ ipv6
unfolding ae_ip_parser_execute
longest_type = refl

longest_reference_type : ae_ip_parser_execute longest_reference ≡ ipv6_reference
unfolding ae_ip_parser_execute
longest_reference_type = refl

ae_ip_parser_execute_length_example :
    Accepted (length longest_reference) (ae_ip_parser_execute longest_reference)
ae_ip_parser_execute_length_example =
    ae_ip_parser_execute_length longest_reference longest_reference-Bytes

ip_utils_compare_ips-returns_example :
    (answer : Value) × (ip_utils_compare_ips calm_env
        (string ascii longest ∷ string ascii longest_reference ∷ qtrue ∷ [])
        example_world
      ≡ ok answer example_world)
ip_utils_compare_ips-returns_example =
    ip_utils_compare_ips-returns calm_env ascii ascii longest longest_reference (qtrue ∷ [])
      example_world longest-Bytes longest_reference-Bytes (omega arith) (omega arith) (omega arith)

ip_utils_compare_ips-swap_example :
    ip_utils_compare_ips calm_env
      (string ascii longest ∷ string ascii longest_reference ∷ qtrue ∷ [])
      example_world
    ≡ ip_utils_compare_ips calm_env
        (string ascii longest_reference ∷ string ascii longest ∷ qtrue ∷ [])
        example_world
ip_utils_compare_ips-swap_example =
    ip_utils_compare_ips-swap calm_env ascii ascii longest longest_reference (qtrue ∷ [])
      example_world longest-Bytes longest_reference-Bytes (omega arith) (omega arith) (omega arith)
