-- ===== src/Arguments.antt =====
-- How a method reads its arguments: the macros of ext/asyncengine/rb_utilities.h, and the
-- conversions of Ruby's C interface that the methods call. `argv` lists the arguments, `block` is
-- the block given with the call.
pub mod Delays
pub mod Keeps
use async_engine.Base.{
  ℕ, zero, suc, ◌+◌, ◌-◌, ◌*◌, ◌/◌, Bool, true, false, not, ◌&&◌, List, [], ◌∷◌, Option, none, some,
  ltb, leb, ◌==◌, if◌then◌else◌, length,
}
use async_engine.Base.Int.{ℤ, pos, negsuc}
use async_engine.Ruby.{
  Exn, type_error, arg_error, range_error, Value, qnil, fixnum, float, string, proc,
}
use async_engine.World.Monad.{M, pure, raise, ◌>>=◌}

-- AE_RB_CHECK_NUM_ARGS.
unfoldable pub check_num_args : ℕ → ℕ → List Value → M (Unit {0})
check_num_args min max argv =
    if leb min (length argv) && leb (length argv) max
    then pure tt
    else raise (arg_error "wrong number of arguments")

-- argv[i], read only where the number of arguments allows it.
abbrev pub argument : List Value → ℕ → Value
argument [] i = qnil
argument (v ∷ vs) zero = v
argument (v ∷ vs) (suc i) = argument vs i

-- NIL_P.
abbrev pub is_nil : Value → Bool
is_nil qnil = true
is_nil _ = false

-- rb_obj_is_proc.
abbrev pub is_proc : Value → Bool
is_proc (proc p) = true
is_proc _ = false

-- FIXNUM_P.
abbrev pub is_fixnum : Value → Bool
is_fixnum (fixnum z) = true
is_fixnum _ = false

-- AE_RB_GET_BLOCK_OR_PROC.
unfoldable pub get_block_or_proc : ℕ → List Value → Option Value → M Value
get_block_or_proc num_arg argv (some block) = pure block
get_block_or_proc num_arg argv none =
    if leb num_arg (length argv)
    then (if not (is_proc (argument argv (num_arg - 1)))
        then raise (type_error "argument is not a Proc")
        else pure (argument argv (num_arg - 1)))
    else pure qnil

-- AE_RB_ENSURE_BLOCK_OR_PROC.
unfoldable pub ensure_block_or_proc : ℕ → List Value → Option Value → M Value
unfolding get_block_or_proc
ensure_block_or_proc num_arg argv block = do
  save_to ← get_block_or_proc num_arg argv block
  if is_nil save_to then raise (arg_error "no block or proc given") else pure save_to

-- RB_TYPE_P(v, T_STRING), with RSTRING_PTR and RSTRING_LEN.
abbrev pub string_arg : Value → Exn → M (List ℕ)
string_arg (string enc bytes) e = pure bytes
string_arg _ e = raise e

has_null : List ℕ → Bool
has_null [] = false
has_null (b ∷ bs) = let rest = has_null bs in if b == 0 then true else rest

-- StringValueCStr.
unfoldable pub string_value_cstr : List ℕ → M (List ℕ)
unfolding has_null
string_value_cstr bytes =
    if has_null bytes then raise (arg_error "string contains null byte") else pure bytes

-- FIX2INT, which refuses what is no int.
unfoldable pub fix2int : Value → M ℤ
fix2int (fixnum (pos n)) =
    if ltb n 2147483648
    then pure (pos n)
    else raise (range_error "integer too big to convert to `int'")
fix2int (fixnum (negsuc n)) =
    if ltb n 2147483648
    then pure (negsuc n)
    else raise (range_error "integer too small to convert to `int'")
fix2int _ = pure (pos 0)

-- `FIXNUM_P` and `FIX2INT` together, with the error of the first.
unfoldable pub int_arg : Value → Exn → M ℤ
unfolding fix2int
int_arg v e = if is_fixnum v then fix2int v else raise e

-- (long)(x * 1000) for x in units of 10⁻⁶: the conversion drops the fraction.
truncate_millis : ℤ → ℤ
truncate_millis (pos n) = pos (n / 1000)
truncate_millis (negsuc n) = if suc n / 1000 == 0 then pos 0 else negsuc (suc n / 1000 - 1)

-- (long)(NUM2DBL(v) * 1000).
unfoldable pub millis : Value → M ℤ
unfolding truncate_millis
millis (fixnum (pos n)) = pure (pos (n * 1000))
millis (fixnum (negsuc n)) = pure (negsuc (n * 1000 + 999))
millis (float z) = pure (truncate_millis z)
millis _ = raise (type_error "can't convert into Float")

-- if (delay < 1) delay = 1;
unfoldable pub at_least_one : ℤ → ℕ
at_least_one (pos n) = if ltb n 1 then 1 else n
at_least_one (negsuc n) = 1

-- A delay or an interval in seconds, as the timers read it.
unfoldable pub delay_arg : Value → M ℕ
unfolding millis at_least_one
delay_arg v = do delay ← millis v; pure (at_least_one delay)
