-- ===== src/IpMachine/Cases10.antt =====
-- ext/asyncengine/ip_parser.c, lines 2612 to 2876: the states of the generated machine, each the body of
-- its `case`.
use async_engine.Base.{ℕ, List, [], ◌∷◌, ltb, leb, ◌==◌, if◌then◌else◌}
use async_engine.Ruby.{ipv6}
use async_engine.IpMachine.Moves.{Goto, st, tr, between}

unfoldable pub cases_19 : List (ℕ × (ℕ → Goto))
cases_19 =
    (
      308,
      λ c.
          if c == 46
          then st 46
          else if c == 58
          then st 75
          else if ltb c 65
          then (if between 48 57 c then tr ipv6 309 else st 0)
          else if ltb 70 c
          then (if between 97 102 c then tr ipv6 305 else st 0)
          else tr ipv6 305,
    )
    ∷ (
      309,
      λ c.
          if c == 46
          then st 46
          else if c == 58
          then st 75
          else if ltb c 65
          then (if between 48 57 c then tr ipv6 306 else st 0)
          else if ltb 70 c
          then (if between 97 102 c then tr ipv6 306 else st 0)
          else tr ipv6 306,
    )
    ∷ (
      310,
      λ c.
          if c == 46
          then st 46
          else if c == 53
          then tr ipv6 311
          else if c == 58
          then st 75
          else if ltb c 54
          then (if between 48 52 c then tr ipv6 308 else st 0)
          else if ltb 57 c
          then (if ltb 70 c
              then (if between 97 102 c then tr ipv6 304 else st 0)
              else if leb 65 c
              then tr ipv6 304
              else st 0)
          else tr ipv6 312,
    )
    ∷ (
      311,
      λ c.
          if c == 46
          then st 46
          else if c == 58
          then st 75
          else if ltb c 54
          then (if between 48 53 c then tr ipv6 309 else st 0)
          else if ltb 57 c
          then (if ltb 70 c
              then (if between 97 102 c then tr ipv6 305 else st 0)
              else if leb 65 c
              then tr ipv6 305
              else st 0)
          else tr ipv6 305,
    )
    ∷ (
      312,
      λ c.
          if c == 46
          then st 46
          else if c == 58
          then st 75
          else if ltb c 65
          then (if between 48 57 c then tr ipv6 305 else st 0)
          else if ltb 70 c
          then (if between 97 102 c then tr ipv6 305 else st 0)
          else tr ipv6 305,
    )
    ∷ []

unfoldable pub cases_20 : List (ℕ × (ℕ → Goto))
cases_20 =
    (
      313,
      λ c.
          if c == 46
          then st 46
          else if c == 58
          then st 75
          else if ltb c 65
          then (if between 48 57 c then tr ipv6 312 else st 0)
          else if ltb 70 c
          then (if between 97 102 c then tr ipv6 304 else st 0)
          else tr ipv6 304,
    )
    ∷ (
      314,
      λ c.
          if c == 58
          then st 75
          else (if ltb c 65
              then (if between 48 57 c then tr ipv6 304 else st 0)
              else if ltb 70 c
              then (if between 97 102 c then tr ipv6 304 else st 0)
              else tr ipv6 304),
    )
    ∷ (
      76,
      λ c.
          if c == 46
          then st 3
          else if c == 58
          then st 19
          else if ltb c 65
          then (if between 48 57 c then st 77 else st 0)
          else if ltb 70 c
          then (if between 97 102 c then st 16 else st 0)
          else st 16,
    )
    ∷ (
      77,
      λ c.
          if c == 46
          then st 3
          else if c == 58
          then st 19
          else if ltb c 65
          then (if between 48 57 c then st 78 else st 0)
          else if ltb 70 c
          then (if between 97 102 c then st 17 else st 0)
          else st 17,
    )
    ∷ (
      78,
      λ c.
          if c == 46
          then st 3
          else if c == 58
          then st 19
          else if ltb c 65
          then (if between 48 57 c then st 18 else st 0)
          else if ltb 70 c
          then (if between 97 102 c then st 18 else st 0)
          else st 18,
    )
    ∷ (
      79,
      λ c.
          if c == 46
          then st 3
          else if c == 53
          then st 80
          else if c == 58
          then st 19
          else if ltb c 54
          then (if between 48 52 c then st 77 else st 0)
          else if ltb 57 c
          then (if ltb 70 c
              then (if between 97 102 c then st 16 else st 0)
              else if leb 65 c
              then st 16
              else st 0)
          else st 81,
    )
    ∷ (
      80,
      λ c.
          if c == 46
          then st 3
          else if c == 58
          then st 19
          else if ltb c 54
          then (if between 48 53 c then st 78 else st 0)
          else if ltb 57 c
          then (if ltb 70 c
              then (if between 97 102 c then st 17 else st 0)
              else if leb 65 c
              then st 17
              else st 0)
          else st 17,
    )
    ∷ []
