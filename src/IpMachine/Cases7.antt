-- ===== src/IpMachine/Cases7.antt =====
-- ext/asyncengine/ip_parser.c, lines 1722 to 2015: the states of the generated machine, each the body of
-- its `case`.
use async_engine.Base.{ℕ, List, [], ◌∷◌, ltb, leb, ◌==◌, if◌then◌else◌}
use async_engine.Ruby.{ipv6}
use async_engine.IpMachine.Moves.{Goto, st, tr, between}

unfoldable pub cases_13 : List (ℕ × (ℕ → Goto))
cases_13 =
    (
      272,
      λ c.
          if c == 46
          then st 46
          else if c == 58
          then st 72
          else if ltb c 54
          then (if between 48 53 c then tr ipv6 270 else st 0)
          else if ltb 57 c
          then (if ltb 70 c
              then (if between 97 102 c then tr ipv6 266 else st 0)
              else if leb 65 c
              then tr ipv6 266
              else st 0)
          else tr ipv6 266,
    )
    ∷ (
      273,
      λ c.
          if c == 46
          then st 46
          else if c == 58
          then st 72
          else if ltb c 65
          then (if between 48 57 c then tr ipv6 266 else st 0)
          else if ltb 70 c
          then (if between 97 102 c then tr ipv6 266 else st 0)
          else tr ipv6 266,
    )
    ∷ (
      274,
      λ c.
          if c == 46
          then st 46
          else if c == 58
          then st 72
          else if ltb c 65
          then (if between 48 57 c then tr ipv6 273 else st 0)
          else if ltb 70 c
          then (if between 97 102 c then tr ipv6 265 else st 0)
          else tr ipv6 265,
    )
    ∷ (
      275,
      λ c.
          if c == 58
          then st 72
          else (if ltb c 65
              then (if between 48 57 c then tr ipv6 265 else st 0)
              else if ltb 70 c
              then (if between 97 102 c then tr ipv6 265 else st 0)
              else tr ipv6 265),
    )
    ∷ (
      276,
      λ c.
          if c == 48
          then tr ipv6 277
          else if c == 49
          then tr ipv6 281
          else if c == 50
          then tr ipv6 284
          else if ltb c 65
          then (if between 51 57 c then tr ipv6 287 else st 0)
          else if ltb 70 c
          then (if between 97 102 c then tr ipv6 288 else st 0)
          else tr ipv6 288,
    )
    ∷ (
      277,
      λ c.
          if c == 46
          then st 46
          else if c == 58
          then st 73
          else if ltb c 65
          then (if between 48 57 c then tr ipv6 278 else st 0)
          else if ltb 70 c
          then (if between 97 102 c then tr ipv6 278 else st 0)
          else tr ipv6 278,
    )
    ∷ []

unfoldable pub cases_14 : List (ℕ × (ℕ → Goto))
cases_14 =
    (
      278,
      λ c.
          if c == 58
          then st 73
          else (if ltb c 65
              then (if between 48 57 c then tr ipv6 279 else st 0)
              else if ltb 70 c
              then (if between 97 102 c then tr ipv6 279 else st 0)
              else tr ipv6 279),
    )
    ∷ (
      279,
      λ c.
          if c == 58
          then st 73
          else (if ltb c 65
              then (if between 48 57 c then tr ipv6 280 else st 0)
              else if ltb 70 c
              then (if between 97 102 c then tr ipv6 280 else st 0)
              else tr ipv6 280),
    )
    ∷ (280, λ c. if c == 58 then st 73 else st 0)
    ∷ (
      73,
      λ c.
          if c == 48
          then tr ipv6 264
          else if c == 49
          then tr ipv6 268
          else if c == 50
          then tr ipv6 271
          else if ltb c 65
          then (if between 51 57 c then tr ipv6 274 else st 0)
          else if ltb 70 c
          then (if between 97 102 c then tr ipv6 275 else st 0)
          else tr ipv6 275,
    )
    ∷ (
      281,
      λ c.
          if c == 46
          then st 46
          else if c == 58
          then st 73
          else if ltb c 65
          then (if between 48 57 c then tr ipv6 282 else st 0)
          else if ltb 70 c
          then (if between 97 102 c then tr ipv6 278 else st 0)
          else tr ipv6 278,
    )
    ∷ (
      282,
      λ c.
          if c == 46
          then st 46
          else if c == 58
          then st 73
          else if ltb c 65
          then (if between 48 57 c then tr ipv6 283 else st 0)
          else if ltb 70 c
          then (if between 97 102 c then tr ipv6 279 else st 0)
          else tr ipv6 279,
    )
    ∷ (
      283,
      λ c.
          if c == 46
          then st 46
          else if c == 58
          then st 73
          else if ltb c 65
          then (if between 48 57 c then tr ipv6 280 else st 0)
          else if ltb 70 c
          then (if between 97 102 c then tr ipv6 280 else st 0)
          else tr ipv6 280,
    )
    ∷ []
