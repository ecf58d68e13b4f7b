-- ===== src/IpMachine/Cases9.antt =====
-- ext/asyncengine/ip_parser.c, lines 2314 to 2611: the states of the generated machine, each the body of
-- its `case`.
use async_engine.Base.{ℕ, List, [], ◌∷◌, ltb, leb, ◌==◌, if◌then◌else◌}
use async_engine.Ruby.{ipv6}
use async_engine.IpMachine.Moves.{Goto, st, tr, between}

unfoldable pub cases_17 : List (ℕ × (ℕ → Goto))
cases_17 =
    (
      296,
      λ c.
          if c == 46
          then st 46
          else if c == 58
          then st 74
          else if ltb c 65
          then (if between 48 57 c then tr ipv6 293 else st 0)
          else if ltb 70 c
          then (if between 97 102 c then tr ipv6 293 else st 0)
          else tr ipv6 293,
    )
    ∷ (
      297,
      λ c.
          if c == 46
          then st 46
          else if c == 53
          then tr ipv6 298
          else if c == 58
          then st 74
          else if ltb c 54
          then (if between 48 52 c then tr ipv6 295 else st 0)
          else if ltb 57 c
          then (if ltb 70 c
              then (if between 97 102 c then tr ipv6 291 else st 0)
              else if leb 65 c
              then tr ipv6 291
              else st 0)
          else tr ipv6 299,
    )
    ∷ (
      298,
      λ c.
          if c == 46
          then st 46
          else if c == 58
          then st 74
          else if ltb c 54
          then (if between 48 53 c then tr ipv6 296 else st 0)
          else if ltb 57 c
          then (if ltb 70 c
              then (if between 97 102 c then tr ipv6 292 else st 0)
              else if leb 65 c
              then tr ipv6 292
              else st 0)
          else tr ipv6 292,
    )
    ∷ (
      299,
      λ c.
          if c == 46
          then st 46
          else if c == 58
          then st 74
          else if ltb c 65
          then (if between 48 57 c then tr ipv6 292 else st 0)
          else if ltb 70 c
          then (if between 97 102 c then tr ipv6 292 else st 0)
          else tr ipv6 292,
    )
    ∷ (
      300,
      λ c.
          if c == 46
          then st 46
          else if c == 58
          then st 74
          else if ltb c 65
          then (if between 48 57 c then tr ipv6 299 else st 0)
          else if ltb 70 c
          then (if between 97 102 c then tr ipv6 291 else st 0)
          else tr ipv6 291,
    )
    ∷ (
      301,
      λ c.
          if c == 58
          then st 74
          else (if ltb c 65
              then (if between 48 57 c then tr ipv6 291 else st 0)
              else if ltb 70 c
              then (if between 97 102 c then tr ipv6 291 else st 0)
              else tr ipv6 291),
    )
    ∷ []

unfoldable pub cases_18 : List (ℕ × (ℕ → Goto))
cases_18 =
    (
      302,
      λ c.
          if c == 48
          then tr ipv6 303
          else if c == 49
          then tr ipv6 307
          else if c == 50
          then tr ipv6 310
          else if ltb c 65
          then (if between 51 57 c then tr ipv6 313 else st 0)
          else if ltb 70 c
          then (if between 97 102 c then tr ipv6 314 else st 0)
          else tr ipv6 314,
    )
    ∷ (
      303,
      λ c.
          if c == 46
          then st 46
          else if c == 58
          then st 75
          else if ltb c 65
          then (if between 48 57 c then tr ipv6 304 else st 0)
          else if ltb 70 c
          then (if between 97 102 c then tr ipv6 304 else st 0)
          else tr ipv6 304,
    )
    ∷ (
      304,
      λ c.
          if c == 58
          then st 75
          else (if ltb c 65
              then (if between 48 57 c then tr ipv6 305 else st 0)
              else if ltb 70 c
              then (if between 97 102 c then tr ipv6 305 else st 0)
              else tr ipv6 305),
    )
    ∷ (
      305,
      λ c.
          if c == 58
          then st 75
          else (if ltb c 65
              then (if between 48 57 c then tr ipv6 306 else st 0)
              else if ltb 70 c
              then (if between 97 102 c then tr ipv6 306 else st 0)
              else tr ipv6 306),
    )
    ∷ (306, λ c. if c == 58 then st 75 else st 0)
    ∷ (
      75,
      λ c.
          if c == 48
          then tr ipv6 290
          else if c == 49
          then tr ipv6 294
          else if c == 50
          then tr ipv6 297
          else if ltb c 65
          then (if between 51 57 c then tr ipv6 300 else st 0)
          else if ltb 70 c
          then (if between 97 102 c then tr ipv6 301 else st 0)
          else tr ipv6 301,
    )
    ∷ (
      307,
      λ c.
          if c == 46
          then st 46
          else if c == 58
          then st 75
          else if ltb c 65
          then (if between 48 57 c then tr ipv6 308 else st 0)
          else if ltb 70 c
          then (if between 97 102 c then tr ipv6 304 else st 0)
          else tr ipv6 304,
    )
    ∷ []
