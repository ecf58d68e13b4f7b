-- ===== src/IpMachine/Cases20.antt =====
-- ext/asyncengine/ip_parser.c, lines 5405 to 5615: the states of the generated machine, each the body of
-- its `case`.
use async_engine.Base.{ℕ, List, [], ◌∷◌, ltb, leb, ◌==◌, if◌then◌else◌}
use async_engine.Ruby.{ipv6_reference}
use async_engine.IpMachine.Moves.{Goto, st, tr, between}

unfoldable pub cases_39 : List (ℕ × (ℕ → Goto))
cases_39 =
    (
      225,
      λ c.
          if c == 58
          then st 228
          else if c == 93
          then tr ipv6_reference 237
          else if ltb c 65
          then (if between 48 57 c then st 226 else st 0)
          else if ltb 70 c
          then (if between 97 102 c then st 226 else st 0)
          else st 226,
    )
    ∷ (
      226,
      λ c.
          if c == 58
          then st 228
          else if c == 93
          then tr ipv6_reference 237
          else if ltb c 65
          then (if between 48 57 c then st 227 else st 0)
          else if ltb 70 c
          then (if between 97 102 c then st 227 else st 0)
          else st 227,
    )
    ∷ (227, λ c. if c == 58 then st 228 else if c == 93 then tr ipv6_reference 237 else st 0)
    ∷ (
      228,
      λ c.
          if c == 48
          then st 209
          else if c == 49
          then st 214
          else if c == 50
          then st 217
          else if ltb c 65
          then (if between 51 57 c then st 220 else st 0)
          else if ltb 70 c
          then (if between 97 102 c then st 221 else st 0)
          else st 221,
    )
    ∷ (
      229,
      λ c.
          if c == 46
          then st 118
          else if c == 58
          then st 228
          else if c == 93
          then tr ipv6_reference 237
          else if ltb c 65
          then (if between 48 57 c then st 230 else st 0)
          else if ltb 70 c
          then (if between 97 102 c then st 225 else st 0)
          else st 225,
    )
    ∷ (
      230,
      λ c.
          if c == 46
          then st 118
          else if c == 58
          then st 228
          else if c == 93
          then tr ipv6_reference 237
          else if ltb c 65
          then (if between 48 57 c then st 231 else st 0)
          else if ltb 70 c
          then (if between 97 102 c then st 226 else st 0)
          else st 226,
    )
    ∷ (
      231,
      λ c.
          if c == 46
          then st 118
          else if c == 58
          then st 228
          else if c == 93
          then tr ipv6_reference 237
          else if ltb c 65
          then (if between 48 57 c then st 227 else st 0)
          else if ltb 70 c
          then (if between 97 102 c then st 227 else st 0)
          else st 227,
    )
    ∷ (
      232,
      λ c.
          if c == 46
          then st 118
          else if c == 53
          then st 233
          else if c == 58
          then st 228
          else if c == 93
          then tr ipv6_reference 237
          else if ltb c 54
          then (if between 48 52 c then st 230 else st 0)
          else if ltb 57 c
          then (if ltb 70 c
              then (if between 97 102 c then st 225 else st 0)
              else if leb 65 c
              then st 225
              else st 0)
          else st 234,
    )
    ∷ []

unfoldable pub cases_40 : List (ℕ × (ℕ → Goto))
cases_40 =
    (
      233,
      λ c.
          if c == 46
          then st 118
          else if c == 58
          then st 228
          else if c == 93
          then tr ipv6_reference 237
          else if ltb c 54
          then (if between 48 53 c then st 231 else st 0)
          else if ltb 57 c
          then (if ltb 70 c
              then (if between 97 102 c then st 226 else st 0)
              else if leb 65 c
              then st 226
              else st 0)
          else st 226,
    )
    ∷ (
      234,
      λ c.
          if c == 46
          then st 118
          else if c == 58
          then st 228
          else if c == 93
          then tr ipv6_reference 237
          else if ltb c 65
          then (if between 48 57 c then st 226 else st 0)
          else if ltb 70 c
          then (if between 97 102 c then st 226 else st 0)
          else st 226,
    )
    ∷ (
      235,
      λ c.
          if c == 46
          then st 118
          else if c == 58
          then st 228
          else if c == 93
          then tr ipv6_reference 237
          else if ltb c 65
          then (if between 48 57 c then st 234 else st 0)
          else if ltb 70 c
          then (if between 97 102 c then st 225 else st 0)
          else st 225,
    )
    ∷ (
      236,
      λ c.
          if c == 58
          then st 228
          else if c == 93
          then tr ipv6_reference 237
          else if ltb c 65
          then (if between 48 57 c then st 225 else st 0)
          else if ltb 70 c
          then (if between 97 102 c then st 225 else st 0)
          else st 225,
    )
    ∷ []
