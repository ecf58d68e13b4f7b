-- ===== src/IpMachine/Cases8.antt =====
-- ext/asyncengine/ip_parser.c, lines 2016 to 2313: the states of the generated machine, each the body of
-- its `case`.
use async_engine.Base.{ℕ, List, [], ◌∷◌, ltb, leb, ◌==◌, if◌then◌else◌}
use async_engine.Ruby.{ipv6}
use async_engine.IpMachine.Moves.{Goto, st, tr, between}

unfoldable pub cases_15 : List (ℕ × (ℕ → Goto))
cases_15 =
    (
      284,
      λ c.
          if c == 46
          then st 46
          else if c == 53
          then tr ipv6 285
          else if c == 58
          then st 73
          else if ltb c 54
          then (if between 48 52 c then tr ipv6 282 else st 0)
          else if ltb 57 c
          then (if ltb 70 c
              then (if between 97 102 c then tr ipv6 278 else st 0)
              else if leb 65 c
              then tr ipv6 278
              else st 0)
          else tr ipv6 286,
    )
    ∷ (
      285,
      λ c.
          if c == 46
          then st 46
          else if c == 58
          then st 73
          else if ltb c 54
          then (if between 48 53 c then tr ipv6 283 else st 0)
          else if ltb 57 c
          then (if ltb 70 c
              then (if between 97 102 c then tr ipv6 279 else st 0)
              else if leb 65 c
              then tr ipv6 279
              else st 0)
          else tr ipv6 279,
    )
    ∷ (
      286,
      λ c.
          if c == 46
          then st 46
          else if c == 58
          then st 73
          else if ltb c 65
          then (if between 48 57 c then tr ipv6 279 else st 0)
          else if ltb 70 c
          then (if between 97 102 c then tr ipv6 279 else st 0)
          else tr ipv6 279,
    )
    ∷ (
      287,
      λ c.
          if c == 46
          then st 46
          else if c == 58
          then st 73
          else if ltb c 65
          then (if between 48 57 c then tr ipv6 286 else st 0)
          else if ltb 70 c
          then (if between 97 102 c then tr ipv6 278 else st 0)
          else tr ipv6 278,
    )
    ∷ (
      288,
      λ c.
          if c == 58
          then st 73
          else (if ltb c 65
              then (if between 48 57 c then tr ipv6 278 else st 0)
              else if ltb 70 c
              then (if between 97 102 c then tr ipv6 278 else st 0)
              else tr ipv6 278),
    )
    ∷ (
      289,
      λ c.
          if c == 48
          then tr ipv6 290
          else if c == 49
          then tr ipv6 294
          else if c == 50
          then tr ipv6 297
          else if ltb c 65
          then (if between 51 57 c then tr ipv6 300 else st 0)
          else if ltb 70 c
          then (if between 97 102 c then tr ipv6 301 else st 0)
          else tr ipv6 301,
    )
    ∷ []

unfoldable pub cases_16 : List (ℕ × (ℕ → Goto))
cases_16 =
    (
      290,
      λ c.
          if c == 46
          then st 46
          else if c == 58
          then st 74
          else if ltb c 65
          then (if between 48 57 c then tr ipv6 291 else st 0)
          else if ltb 70 c
          then (if between 97 102 c then tr ipv6 291 else st 0)
          else tr ipv6 291,
    )
    ∷ (
      291,
      λ c.
          if c == 58
          then st 74
          else (if ltb c 65
              then (if between 48 57 c then tr ipv6 292 else st 0)
              else if ltb 70 c
              then (if between 97 102 c then tr ipv6 292 else st 0)
              else tr ipv6 292),
    )
    ∷ (
      292,
      λ c.
          if c == 58
          then st 74
          else (if ltb c 65
              then (if between 48 57 c then tr ipv6 293 else st 0)
              else if ltb 70 c
              then (if between 97 102 c then tr ipv6 293 else st 0)
              else tr ipv6 293),
    )
    ∷ (293, λ c. if c == 58 then st 74 else st 0)
    ∷ (
      74,
      λ c.
          if c == 48
          then tr ipv6 277
          else if c == 49
          then tr ipv6 281
          else if c == 50
          then tr ipv6 284
          else if ltb c 65
          then (if between 51 57 c then tr ipv6 287 else st 0)
          else if ltb 70 c
          then (if between 97 102 c then tr ipv6 288 else st 0)
          else tr ipv6 288,
    )
    ∷ (
      294,
      λ c.
          if c == 46
          then st 46
          else if c == 58
          then st 74
          else if ltb c 65
          then (if between 48 57 c then tr ipv6 295 else st 0)
          else if ltb 70 c
          then (if between 97 102 c then tr ipv6 291 else st 0)
          else tr ipv6 291,
    )
    ∷ (
      295,
      λ c.
          if c == 46
          then st 46
          else if c == 58
          then st 74
          else if ltb c 65
          then (if between 48 57 c then tr ipv6 296 else st 0)
          else if ltb 70 c
          then (if between 97 102 c then tr ipv6 292 else st 0)
          else tr ipv6 292,
    )
    ∷ []
