-- ===== src/IpMachine/Cases4.antt =====
-- ext/asyncengine/ip_parser.c, lines 907 to 1179: the states of the generated machine, each the body of
-- its `case`.
use async_engine.Base.{ℕ, List, [], ◌∷◌, ltb, leb, ◌==◌, if◌then◌else◌}
use async_engine.Ruby.{ipv6}
use async_engine.IpMachine.Moves.{Goto, st, tr, between}

unfoldable pub cases_7 : List (ℕ × (ℕ → Goto))
cases_7 =
    (
      59,
      λ c.
          if c == 58
          then st 62
          else (if ltb c 65
              then (if between 48 57 c then st 60 else st 0)
              else if ltb 70 c
              then (if between 97 102 c then st 60 else st 0)
              else st 60),
    )
    ∷ (
      60,
      λ c.
          if c == 58
          then st 62
          else (if ltb c 65
              then (if between 48 57 c then st 61 else st 0)
              else if ltb 70 c
              then (if between 97 102 c then st 61 else st 0)
              else st 61),
    )
    ∷ (61, λ c. if c == 58 then st 62 else st 0)
    ∷ (
      62,
      λ c.
          if c == 58
          then tr ipv6 237
          else (if ltb c 65
              then (if between 48 57 c then tr ipv6 246 else st 0)
              else if ltb 70 c
              then (if between 97 102 c then tr ipv6 246 else st 0)
              else tr ipv6 246),
    )
    ∷ (
      246,
      λ c.
          if ltb c 65
          then (if between 48 57 c then tr ipv6 247 else st 0)
          else if ltb 70 c
          then (if between 97 102 c then tr ipv6 247 else st 0)
          else tr ipv6 247,
    )
    ∷ (
      247,
      λ c.
          if ltb c 65
          then (if between 48 57 c then tr ipv6 248 else st 0)
          else if ltb 70 c
          then (if between 97 102 c then tr ipv6 248 else st 0)
          else tr ipv6 248,
    )
    ∷ (
      248,
      λ c.
          if ltb c 65
          then (if between 48 57 c then tr ipv6 237 else st 0)
          else if ltb 70 c
          then (if between 97 102 c then tr ipv6 237 else st 0)
          else tr ipv6 237,
    )
    ∷ (
      63,
      λ c.
          if c == 46
          then st 46
          else if c == 58
          then st 62
          else if ltb c 65
          then (if between 48 57 c then st 64 else st 0)
          else if ltb 70 c
          then (if between 97 102 c then st 59 else st 0)
          else st 59,
    )
    ∷ (
      64,
      λ c.
          if c == 46
          then st 46
          else if c == 58
          then st 62
          else if ltb c 65
          then (if between 48 57 c then st 65 else st 0)
          else if ltb 70 c
          then (if between 97 102 c then st 60 else st 0)
          else st 60,
    )
    ∷ []

unfoldable pub cases_8 : List (ℕ × (ℕ → Goto))
cases_8 =
    (
      65,
      λ c.
          if c == 46
          then st 46
          else if c == 58
          then st 62
          else if ltb c 65
          then (if between 48 57 c then st 61 else st 0)
          else if ltb 70 c
          then (if between 97 102 c then st 61 else st 0)
          else st 61,
    )
    ∷ (
      66,
      λ c.
          if c == 46
          then st 46
          else if c == 53
          then st 67
          else if c == 58
          then st 62
          else if ltb c 54
          then (if between 48 52 c then st 64 else st 0)
          else if ltb 57 c
          then (if ltb 70 c
              then (if between 97 102 c then st 59 else st 0)
              else if leb 65 c
              then st 59
              else st 0)
          else st 68,
    )
    ∷ (
      67,
      λ c.
          if c == 46
          then st 46
          else if c == 58
          then st 62
          else if ltb c 54
          then (if between 48 53 c then st 65 else st 0)
          else if ltb 57 c
          then (if ltb 70 c
              then (if between 97 102 c then st 60 else st 0)
              else if leb 65 c
              then st 60
              else st 0)
          else st 60,
    )
    ∷ (
      68,
      λ c.
          if c == 46
          then st 46
          else if c == 58
          then st 62
          else if ltb c 65
          then (if between 48 57 c then st 60 else st 0)
          else if ltb 70 c
          then (if between 97 102 c then st 60 else st 0)
          else st 60,
    )
    ∷ (
      69,
      λ c.
          if c == 46
          then st 46
          else if c == 58
          then st 62
          else if ltb c 65
          then (if between 48 57 c then st 68 else st 0)
          else if ltb 70 c
          then (if between 97 102 c then st 59 else st 0)
          else st 59,
    )
    ∷ (
      249,
      λ c.
          if ltb c 65
          then (if between 48 57 c then tr ipv6 246 else st 0)
          else if ltb 70 c
          then (if between 97 102 c then tr ipv6 246 else st 0)
          else tr ipv6 246,
    )
    ∷ (
      70,
      λ c.
          if c == 58
          then st 62
          else (if ltb c 65
              then (if between 48 57 c then st 59 else st 0)
              else if ltb 70 c
              then (if between 97 102 c then st 59 else st 0)
              else st 59),
    )
    ∷ []
