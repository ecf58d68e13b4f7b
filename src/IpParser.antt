-- ===== src/IpParser.antt =====
-- ext/asyncengine/ip_parser.c, ae_ip_parser_execute: the run of the generated machine over the bytes of
-- a text. The machine itself is IpMachine.
pub mod Tests
pub mod OpenEnd
pub mod Dotted
pub mod Octets
pub mod Lengths
use async_engine.Base.{
  ℕ, List, [], ◌∷◌, Option, none, some, ◌==◌, if◌then◌else◌, ◌%◌, length, ltb, take,
}
use async_engine.Ruby.{IpType, no_ip}
use async_engine.IpMachine.{cases, find_case}

-- `ip_type`, as the transition leaves it.
abbrev pub set_type : Option IpType → IpType → IpType
set_type none ip_type = ip_type
set_type (some t) ip_type = t

-- From the state `cs`. In the error state the machine stops before the end, and `len != p-str`.
unfoldable pub execute_from : ℕ → IpType → List ℕ → IpType
execute_from cs ip_type [] = ip_type
execute_from cs ip_type (c ∷ rest) =
    let (action, next) = find_case cs cases c in
    if next == 0 then no_ip else execute_from next (set_type action ip_type) rest

unfoldable pub ae_ip_parser_execute : List ℕ → IpType
unfolding execute_from find_case cases
ae_ip_parser_execute str = execute_from 1 no_ip str

-- A call with the bytes of a Ruby string and its length: RSTRING_LEN is a long, and becomes an int. With a
-- negative int the machine goes on to its error state, and `len != p-str`.
unfoldable pub parse_string : List ℕ → IpType
unfolding ae_ip_parser_execute
parse_string str =
    let len = length str % 4294967296 in
    if ltb len 2147483648 then ae_ip_parser_execute (take len str) else no_ip
