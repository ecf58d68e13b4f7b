-- ===== src/Examples/Addresses.antt =====
-- The theorems on addresses at concrete inputs.
use async_engine.IpParser.{ae_ip_parser_execute}
use async_engine.IpParser.Dotted.{dotted}
use async_engine.IpParser.Octets.{ae_ip_parser_execute-dotted}
use async_engine.IpParser.OpenEnd.{ae_ip_parser_execute-open_end, open_end}
use async_engine.Base.{arith, ◌≡◌}
use async_engine.Ruby.{ipv6, no_ip}

ae_ip_parser_execute-dotted_example : ae_ip_parser_execute (dotted 192 168 0 256) ≡ no_ip
ae_ip_parser_execute-dotted_example =
    ae_ip_parser_execute-dotted 192 168 0 256 (omega arith) (omega arith) (omega arith)
      (omega arith)

ae_ip_parser_execute-open_end_example : ae_ip_parser_execute (open_end 7) ≡ ipv6
ae_ip_parser_execute-open_end_example = ae_ip_parser_execute-open_end 7 (omega arith)
