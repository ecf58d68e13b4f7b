-- ===== src/IpMachine/Cases19.antt =====
-- ext/asyncengine/ip_parser.c, lines 5132 to 5404: the states of the generated machine, each the body of
-- its `case`.
use async_engine.Base.{ℕ, List, [], ◌∷◌, ltb, leb, ◌==◌, if◌then◌else◌}
use async_engine.Ruby.{ipv6_reference}
use async_engine.IpMachine.Moves.{Goto, st, tr, between}

unfoldable pub cases_37 : List (ℕ × (ℕ → Goto))
cases_37 =
    (
      209,
      λ c.
          if c == 46
          then st 118
          else if c == 58
          then st 213
          else if c == 93
          then tr ipv6_reference 237
          else if ltb c 65
          then (if between 48 57 c then st 210 else st 0)
          else if ltb 70 c
          then (if between 97 102 c then st 210 else st 0)
          else st 210,
    )
    ∷ (
      210,
      λ c.
          if c == 58
          then st 213
          else if c == 93
          then tr ipv6_reference 237
          else if ltb c 65
          then (if between 48 57 c then st 211 else st 0)
          else if ltb 70 c
          then (if between 97 102 c then st 211 else st 0)
          else st 211,
    )
    ∷ (
      211,
      λ c.
          if c == 58
          then st 213
          else if c == 93
          then tr ipv6_reference 237
          else if ltb c 65
          then (if between 48 57 c then st 212 else st 0)
          else if ltb 70 c
          then (if between 97 102 c then st 212 else st 0)
          else st 212,
    )
    ∷ (212, λ c. if c == 58 then st 213 else if c == 93 then tr ipv6_reference 237 else st 0)
    ∷ (
      213,
      λ c.
          if c == 48
          then st 195
          else if c == 49
          then st 200
          else if c == 50
          then st 203
          else if ltb c 65
          then (if between 51 57 c then st 206 else st 0)
          else if ltb 70 c
          then (if between 97 102 c then st 207 else st 0)
          else st 207,
    )
    ∷ (
      214,
      λ c.
          if c == 46
          then st 118
          else if c == 58
          then st 213
          else if c == 93
          then tr ipv6_reference 237
          else if ltb c 65
          then (if between 48 57 c then st 215 else st 0)
          else if ltb 70 c
          then (if between 97 102 c then st 210 else st 0)
          else st 210,
    )
    ∷ (
      215,
      λ c.
          if c == 46
          then st 118
          else if c == 58
          then st 213
          else if c == 93
          then tr ipv6_reference 237
          else if ltb c 65
          then (if between 48 57 c then st 216 else st 0)
          else if ltb 70 c
          then (if between 97 102 c then st 211 else st 0)
          else st 211,
    )
    ∷ (
      216,
      λ c.
          if c == 46
          then st 118
          else if c == 58
          then st 213
          else if c == 93
          then tr ipv6_reference 237
          else if ltb c 65
          then (if between 48 57 c then st 212 else st 0)
          else if ltb 70 c
          then (if between 97 102 c then st 212 else st 0)
          else st 212,
    )
    ∷ []

unfoldable pub cases_38 : List (ℕ × (ℕ → Goto))
cases_38 =
    (
      217,
      λ c.
          if c == 46
          then st 118
          else if c == 53
          then st 218
          else if c == 58
          then st 213
          else if c == 93
          then tr ipv6_reference 237
          else if ltb c 54
          then (if between 48 52 c then st 215 else st 0)
          else if ltb 57 c
          then (if ltb 70 c
              then (if between 97 102 c then st 210 else st 0)
              else if leb 65 c
              then st 210
              else st 0)
          else st 219,
    )
    ∷ (
      218,
      λ c.
          if c == 46
          then st 118
          else if c == 58
          then st 213
          else if c == 93
          then tr ipv6_reference 237
          else if ltb c 54
          then (if between 48 53 c then st 216 else st 0)
          else if ltb 57 c
          then (if ltb 70 c
              then (if between 97 102 c then st 211 else st 0)
              else if leb 65 c
              then st 211
              else st 0)
          else st 211,
    )
    ∷ (
      219,
      λ c.
          if c == 46
          then st 118
          else if c == 58
          then st 213
          else if c == 93
          then tr ipv6_reference 237
          else if ltb c 65
          then (if between 48 57 c then st 211 else st 0)
          else if ltb 70 c
          then (if between 97 102 c then st 211 else st 0)
          else st 211,
    )
    ∷ (
      220,
      λ c.
          if c == 46
          then st 118
          else if c == 58
          then st 213
          else if c == 93
          then tr ipv6_reference 237
          else if ltb c 65
          then (if between 48 57 c then st 219 else st 0)
          else if ltb 70 c
          then (if between 97 102 c then st 210 else st 0)
          else st 210,
    )
    ∷ (
      221,
      λ c.
          if c == 58
          then st 213
          else if c == 93
          then tr ipv6_reference 237
          else if ltb c 65
          then (if between 48 57 c then st 210 else st 0)
          else if ltb 70 c
          then (if between 97 102 c then st 210 else st 0)
          else st 210,
    )
    ∷ (222, λ c. if c == 58 then st 223 else st 0)
    ∷ (
      223,
      λ c.
          if c == 48
          then st 224
          else if c == 49
          then st 229
          else if c == 50
          then st 232
          else if c == 93
          then tr ipv6_reference 237
          else if ltb c 65
          then (if between 51 57 c then st 235 else st 0)
          else if ltb 70 c
          then (if between 97 102 c then st 236 else st 0)
          else st 236,
    )
    ∷ (
      224,
      λ c.
          if c == 46
          then st 118
          else if c == 58
          then st 228
          else if c == 93
          then tr ipv6_reference 237
          else if ltb c 65
          then (if between 48 57 c then st 225 else st 0)
          else if ltb 70 c
          then (if between 97 102 c then st 225 else st 0)
          else st 225,
    )
    ∷ []
