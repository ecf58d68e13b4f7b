-- ===== src/IpParser/Tests.antt =====
-- ext/asyncengine/ip_parser.c: runs of the machine.
use async_engine.Base.{◌≡◌, refl, ◌∷◌, []}
use async_engine.Ruby.{ipv4, ipv6}
use async_engine.IpParser.{ae_ip_parser_execute}

-- A dotted quad.
dotted : ae_ip_parser_execute (b'1' ∷ b'.' ∷ b'2' ∷ b'.' ∷ b'3' ∷ b'.' ∷ b'4' ∷ []) ≡ ipv4
unfolding ae_ip_parser_execute
dotted = refl

-- A text that ends with a colon is accepted.
loose : ae_ip_parser_execute (b':' ∷ b':' ∷ b'1' ∷ b':' ∷ []) ≡ ipv6
unfolding ae_ip_parser_execute
loose = refl
