-- ===== src/Arguments/Keeps.antt =====
-- Reading the arguments of a method changes nothing: it keeps every invariant.
use async_engine.Ruby.{Exn, Value, fixnum, string, IpType, ipv4, ipv6}
use async_engine.World.Keeps.{Keeps-bind, Keeps-pure, Keeps-raise, Leads, keeps_rules, Leads-pure}
use async_engine.Base.{List, Option, none, some, ℕ}
use async_engine.World.{World, Sockaddr}
use async_engine.Arguments.{
  check_num_args, delay_arg, ensure_block_or_proc, fix2int, get_block_or_proc, millis, string_arg,
  string_value_cstr, int_arg,
}
use async_engine.Base.Int.{negsuc, pos}
use async_engine.IpUtils.{port_arg, ae_ip_utils_get_ip_port, from_ntop}
use async_engine.World.Monad.{Env}

module _ {C : Type 0} {P : World → Type 0} where
  pub check_num_args-Keeps :
      (min max : ℕ) (argv : List Value) → Leads C P P P (check_num_args min max argv)
  unfolding check_num_args
  check_num_args-Keeps min max argv = search keeps_rules

  pub get_block_or_proc-Keeps :
      (n : ℕ) (argv : List Value) (block : Option Value)
      → Leads C P P P (get_block_or_proc n argv block)
  unfolding get_block_or_proc
  get_block_or_proc-Keeps n argv (some b) = search keeps_rules
  get_block_or_proc-Keeps n argv none = search keeps_rules

  pub ensure_block_or_proc-Keeps :
      (n : ℕ) (argv : List Value) (block : Option Value)
      → Leads C P P P (ensure_block_or_proc n argv block)
  unfolding ensure_block_or_proc
  ensure_block_or_proc-Keeps n argv block =
      Keeps-bind _ _ (get_block_or_proc-Keeps n argv block) (λ v. search keeps_rules)

  pub string_arg-Keeps : (v : Value) (e : Exn) → Leads C P P P (string_arg v e)
  string_arg-Keeps (string enc bytes) e = Keeps-pure bytes
  string_arg-Keeps _ e = Keeps-raise e

  pub string_value_cstr-Keeps : (bytes : List ℕ) → Leads C P P P (string_value_cstr bytes)
  unfolding string_value_cstr
  string_value_cstr-Keeps bytes = search keeps_rules

  fix2int-Keeps : (v : Value) → Leads C P P P (fix2int v)
  unfolding fix2int
  fix2int-Keeps (fixnum (pos n)) = search keeps_rules
  fix2int-Keeps (fixnum (negsuc n)) = search keeps_rules
  fix2int-Keeps _ = search keeps_rules

  pub int_arg-Keeps : (v : Value) (e : Exn) → Leads C P P P (int_arg v e)
  unfolding int_arg
  int_arg-Keeps v e = search (keeps_rules, fix2int-Keeps)

  pub port_arg-Keeps : (v : Value) (e f : Exn) → Leads C P P P (port_arg v e f)
  unfolding port_arg
  port_arg-Keeps v e f = search (keeps_rules, fix2int-Keeps)

  millis-Keeps : (v : Value) → Leads C P P P (millis v)
  unfolding millis
  millis-Keeps (fixnum (pos n)) = search keeps_rules
  millis-Keeps (fixnum (negsuc n)) = search keeps_rules
  millis-Keeps _ = search keeps_rules

  pub delay_arg-Keeps : (v : Value) → Leads C P P P (delay_arg v)
  unfolding delay_arg
  delay_arg-Keeps v = Keeps-bind _ _ (millis-Keeps v) (λ d. Keeps-pure _)

pub ruleset argument_rules = (
  check_num_args-Keeps, get_block_or_proc-Keeps, ensure_block_or_proc-Keeps, string_arg-Keeps,
  string_value_cstr-Keeps, port_arg-Keeps, delay_arg-Keeps,
)

module _ {P : World → Type 0} (env : Env) where
  from_ntop-Leads :
      {E : World → Type 0} (ip : Option (List ℕ)) (port : ℕ) → Leads Unit E P P (from_ntop ip port)
  unfolding from_ntop
  from_ntop-Leads none port = record { at = λ w h. tt }
  from_ntop-Leads (some ip) port = Leads-pure _ (λ w h. h)

  -- So does the reading of an address that libuv gave.
  pub get_ip_port-Keeps :
      (addr : Sockaddr) (t : IpType) → Leads Unit P P P (ae_ip_utils_get_ip_port env addr t)
  unfolding ae_ip_utils_get_ip_port
  get_ip_port-Keeps addr ipv4 = from_ntop-Leads _ _
  get_ip_port-Keeps addr ipv6 = from_ntop-Leads _ _
  get_ip_port-Keeps addr _ = Keeps-pure _
