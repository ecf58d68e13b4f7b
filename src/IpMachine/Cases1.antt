-- ===== src/IpMachine/Cases1.antt =====
-- ext/asyncengine/ip_parser.c, lines 51 to 335: the states of the generated machine, each the body of
-- its `case`.
use async_engine.Base.{ℕ, List, [], ◌∷◌, ltb, leb, ◌==◌, if◌then◌else◌}
use async_engine.Ruby.{ipv4}
use async_engine.IpMachine.Moves.{Goto, st, tr, between}

unfoldable pub cases_1 : List (ℕ × (ℕ → Goto))
cases_1 =
    (
      1,
      λ c.
          if c == 48
          then st 2
          else if c == 49
          then st 76
          else if c == 50
          then st 79
          else if c == 58
          then st 83
          else if c == 91
          then st 86
          else if ltb c 65
          then (if between 51 57 c then st 82 else st 0)
          else if ltb 70 c
          then (if between 97 102 c then st 85 else st 0)
          else st 85,
    )
    ∷ (
      2,
      λ c.
          if c == 46
          then st 3
          else if c == 58
          then st 19
          else if ltb c 65
          then (if between 48 57 c then st 16 else st 0)
          else if ltb 70 c
          then (if between 97 102 c then st 16 else st 0)
          else st 16,
    )
    ∷ (
      3,
      λ c.
          if c == 48
          then st 4
          else if c == 49
          then st 12
          else if c == 50
          then st 14
          else if between 51 57 c
          then st 13
          else st 0,
    )
    ∷ (4, λ c. if c == 46 then st 5 else st 0)
    ∷ (
      5,
      λ c.
          if c == 48
          then st 6
          else if c == 49
          then st 8
          else if c == 50
          then st 10
          else if between 51 57 c
          then st 9
          else st 0,
    )
    ∷ (6, λ c. if c == 46 then st 7 else st 0)
    ∷ (
      7,
      λ c.
          if c == 48
          then tr ipv4 237
          else if c == 49
          then tr ipv4 238
          else if c == 50
          then tr ipv4 240
          else if between 51 57 c
          then tr ipv4 239
          else st 0,
    )
    ∷ (237, λ c. st 0)
    ∷ (238, λ c. if between 48 57 c then tr ipv4 239 else st 0)
    ∷ (239, λ c. if between 48 57 c then tr ipv4 237 else st 0)
    ∷ []

unfoldable pub cases_2 : List (ℕ × (ℕ → Goto))
cases_2 =
    (
      240,
      λ c.
          if c == 53
          then tr ipv4 241
          else (if ltb 52 c
              then (if between 54 57 c then tr ipv4 237 else st 0)
              else if leb 48 c
              then tr ipv4 239
              else st 0),
    )
    ∷ (241, λ c. if between 48 53 c then tr ipv4 237 else st 0)
    ∷ (8, λ c. if c == 46 then st 7 else (if between 48 57 c then st 9 else st 0))
    ∷ (9, λ c. if c == 46 then st 7 else (if between 48 57 c then st 6 else st 0))
    ∷ (
      10,
      λ c.
          if c == 46
          then st 7
          else if c == 53
          then st 11
          else if ltb 52 c
          then (if between 54 57 c then st 6 else st 0)
          else if leb 48 c
          then st 9
          else st 0,
    )
    ∷ (11, λ c. if c == 46 then st 7 else (if between 48 53 c then st 6 else st 0))
    ∷ (12, λ c. if c == 46 then st 5 else (if between 48 57 c then st 13 else st 0))
    ∷ (13, λ c. if c == 46 then st 5 else (if between 48 57 c then st 4 else st 0))
    ∷ (
      14,
      λ c.
          if c == 46
          then st 5
          else if c == 53
          then st 15
          else if ltb 52 c
          then (if between 54 57 c then st 4 else st 0)
          else if leb 48 c
          then st 13
          else st 0,
    )
    ∷ (15, λ c. if c == 46 then st 5 else (if between 48 53 c then st 4 else st 0))
    ∷ (
      16,
      λ c.
          if c == 58
          then st 19
          else (if ltb c 65
              then (if between 48 57 c then st 17 else st 0)
              else if ltb 70 c
              then (if between 97 102 c then st 17 else st 0)
              else st 17),
    )
    ∷ (
      17,
      λ c.
          if c == 58
          then st 19
          else (if ltb c 65
              then (if between 48 57 c then st 18 else st 0)
              else if ltb 70 c
              then (if between 97 102 c then st 18 else st 0)
              else st 18),
    )
    ∷ []
