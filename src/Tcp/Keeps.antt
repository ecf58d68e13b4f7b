-- ===== src/Tcp/Keeps.antt =====
-- ext/asyncengine/ae_tcp.c: reading the arguments of TCPSocket.new changes nothing.
use async_engine.Ruby.{IpType, Value, no_ip, qnil, string, arg_error, type_error}
use async_engine.World.Keeps.{Keeps-bind, Keeps-pure, Keeps-raise, Leads, Leads-if}
use async_engine.Base.{List, Option, is_some, leb, length, none, not, some, ℕ, ◌&&◌, ◌==◌}
use async_engine.World.{World}
use async_engine.IpParser.{parse_string}
use async_engine.Arguments.{argument}
use async_engine.Tcp.{bind_args, bind_ip_arg, bind_port_arg, check_bind_ip}
use async_engine.Arguments.Keeps.{port_arg-Keeps, string_value_cstr-Keeps}
use async_engine.IpUtils.{same_type}

module _ {P : World → Type 0} where
  bind_ip_arg-Keeps : (v : Value) → Leads Unit P P P (bind_ip_arg v)
  unfolding bind_ip_arg
  bind_ip_arg-Keeps (string enc bytes) =
      Keeps-bind _ _ (string_value_cstr-Keeps bytes) λ _. Keeps-pure _
  bind_ip_arg-Keeps qnil = Keeps-pure _
  bind_ip_arg-Keeps _ = Keeps-raise _

  bind_port_arg-Keeps : (v : Value) → Leads Unit P P P (bind_port_arg v)
  unfolding bind_port_arg
  bind_port_arg-Keeps qnil = Keeps-pure _
  bind_port_arg-Keeps v =
      port_arg-Keeps v (type_error "bind port must be a Fixnum")
        (arg_error "invalid bind port value")

  pub bind_args-Keeps : (argv : List Value) → Leads Unit P P P (bind_args argv)
  unfolding bind_args
  bind_args-Keeps argv =
      Leads-if (leb 3 (length argv)) _ _
        (λ _. Keeps-bind _ _ (bind_ip_arg-Keeps (argument argv 2)) λ ip.
          Keeps-bind _ _
            (Leads-if (is_some ip && (length argv == 4)) _ _
              (λ _. bind_port_arg-Keeps (argument argv 3)) (λ _. Keeps-pure _))
            λ _. Keeps-pure _)
        (λ _. Keeps-pure _)

  pub check_bind_ip-Keeps :
      (t : IpType) (bind_ip : Option (List ℕ)) → Leads Unit P P P (check_bind_ip t bind_ip)
  unfolding check_bind_ip
  check_bind_ip-Keeps t none = Keeps-pure _
  check_bind_ip-Keeps t (some ip) =
      Leads-if (same_type (parse_string ip) no_ip) _ _ (λ _. Keeps-raise _)
        λ _.
          Leads-if (not (same_type (parse_string ip) t)) _ _ (λ _. Keeps-raise _) λ _. Keeps-pure _
