-- ===== src/IpMachine/Cases6.antt =====
-- ext/asyncengine/ip_parser.c, lines 1451 to 1721: the states of the generated machine, each the body of
-- its `case`.
use async_engine.Base.{ℕ, List, [], ◌∷◌, ltb, leb, ◌==◌, if◌then◌else◌}
use async_engine.Ruby.{ipv6}
use async_engine.IpMachine.Moves.{Goto, st, tr, between}

unfoldable pub cases_11 : List (ℕ × (ℕ → Goto))
cases_11 =
    (
      261,
      λ c.
          if c == 46
          then st 46
          else if c == 58
          then st 71
          else if ltb c 65
          then (if between 48 57 c then tr ipv6 260 else st 0)
          else if ltb 70 c
          then (if between 97 102 c then tr ipv6 252 else st 0)
          else tr ipv6 252,
    )
    ∷ (
      262,
      λ c.
          if c == 58
          then st 71
          else (if ltb c 65
              then (if between 48 57 c then tr ipv6 252 else st 0)
              else if ltb 70 c
              then (if between 97 102 c then tr ipv6 252 else st 0)
              else tr ipv6 252),
    )
    ∷ (
      263,
      λ c.
          if c == 48
          then tr ipv6 264
          else if c == 49
          then tr ipv6 268
          else if c == 50
          then tr ipv6 271
          else if ltb c 65
          then (if between 51 57 c then tr ipv6 274 else st 0)
          else if ltb 70 c
          then (if between 97 102 c then tr ipv6 275 else st 0)
          else tr ipv6 275,
    )
    ∷ (
      264,
      λ c.
          if c == 46
          then st 46
          else if c == 58
          then st 72
          else if ltb c 65
          then (if between 48 57 c then tr ipv6 265 else st 0)
          else if ltb 70 c
          then (if between 97 102 c then tr ipv6 265 else st 0)
          else tr ipv6 265,
    )
    ∷ (
      265,
      λ c.
          if c == 58
          then st 72
          else (if ltb c 65
              then (if between 48 57 c then tr ipv6 266 else st 0)
              else if ltb 70 c
              then (if between 97 102 c then tr ipv6 266 else st 0)
              else tr ipv6 266),
    )
    ∷ (
      266,
      λ c.
          if c == 58
          then st 72
          else (if ltb c 65
              then (if between 48 57 c then tr ipv6 267 else st 0)
              else if ltb 70 c
              then (if between 97 102 c then tr ipv6 267 else st 0)
              else tr ipv6 267),
    )
    ∷ []

unfoldable pub cases_12 : List (ℕ × (ℕ → Goto))
cases_12 =
    (267, λ c. if c == 58 then st 72 else st 0)
    ∷ (
      72,
      λ c.
          if c == 48
          then tr ipv6 251
          else if c == 49
          then tr ipv6 255
          else if c == 50
          then tr ipv6 258
          else if ltb c 65
          then (if between 51 57 c then tr ipv6 261 else st 0)
          else if ltb 70 c
          then (if between 97 102 c then tr ipv6 262 else st 0)
          else tr ipv6 262,
    )
    ∷ (
      268,
      λ c.
          if c == 46
          then st 46
          else if c == 58
          then st 72
          else if ltb c 65
          then (if between 48 57 c then tr ipv6 269 else st 0)
          else if ltb 70 c
          then (if between 97 102 c then tr ipv6 265 else st 0)
          else tr ipv6 265,
    )
    ∷ (
      269,
      λ c.
          if c == 46
          then st 46
          else if c == 58
          then st 72
          else if ltb c 65
          then (if between 48 57 c then tr ipv6 270 else st 0)
          else if ltb 70 c
          then (if between 97 102 c then tr ipv6 266 else st 0)
          else tr ipv6 266,
    )
    ∷ (
      270,
      λ c.
          if c == 46
          then st 46
          else if c == 58
          then st 72
          else if ltb c 65
          then (if between 48 57 c then tr ipv6 267 else st 0)
          else if ltb 70 c
          then (if between 97 102 c then tr ipv6 267 else st 0)
          else tr ipv6 267,
    )
    ∷ (
      271,
      λ c.
          if c == 46
          then st 46
          else if c == 53
          then tr ipv6 272
          else if c == 58
          then st 72
          else if ltb c 54
          then (if between 48 52 c then tr ipv6 269 else st 0)
          else if ltb 57 c
          then (if ltb 70 c
              then (if between 97 102 c then tr ipv6 265 else st 0)
              else if leb 65 c
              then tr ipv6 265
              else st 0)
          else tr ipv6 273,
    )
    ∷ []
