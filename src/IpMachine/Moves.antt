-- ===== src/IpMachine/Moves.antt =====
-- ext/asyncengine/ip_parser.c: what a state of the machine does with a byte. Bytes above 127 fail every
-- test of the machine that leads to a state, as the negative chars of C do.
use async_engine.Base.{ℕ, Bool, ◌&&◌, Option, none, some, leb}
use async_engine.Ruby.{IpType}

-- The type that the transition sets, if it does, and the state it leads to; 0 is the error.
abbrev pub Goto : Type 0
Goto = Option IpType × ℕ

-- `goto stN`.
abbrev pub st : ℕ → Goto
st n = (none, n)

-- `goto trN`, where the label sets `ip_type` and goes on to a state.
abbrev pub tr : IpType → ℕ → Goto
tr t n = (some t, n)

abbrev pub between : ℕ → ℕ → ℕ → Bool
between lo hi c = leb lo c && leb c hi
