-- ===== src/IpMachine/Cases3.antt =====
-- ext/asyncengine/ip_parser.c, lines 626 to 906: the states of the generated machine, each the body of
-- its `case`.
use async_engine.Base.{ℕ, List, [], ◌∷◌, ltb, leb, ◌==◌, if◌then◌else◌}
use async_engine.Ruby.{ipv6}
use async_engine.IpMachine.Moves.{Goto, st, tr, between}

unfoldable pub cases_5 : List (ℕ × (ℕ → Goto))
cases_5 =
    (
      40,
      λ c.
          if c == 58
          then st 44
          else (if ltb c 65
              then (if between 48 57 c then st 41 else st 0)
              else if ltb 70 c
              then (if between 97 102 c then st 41 else st 0)
              else st 41),
    )
    ∷ (
      41,
      λ c.
          if c == 58
          then st 44
          else (if ltb c 65
              then (if between 48 57 c then st 42 else st 0)
              else if ltb 70 c
              then (if between 97 102 c then st 42 else st 0)
              else st 42),
    )
    ∷ (
      42,
      λ c.
          if c == 58
          then st 44
          else (if ltb c 65
              then (if between 48 57 c then st 43 else st 0)
              else if ltb 70 c
              then (if between 97 102 c then st 43 else st 0)
              else st 43),
    )
    ∷ (43, λ c. if c == 58 then st 44 else st 0)
    ∷ (
      44,
      λ c.
          if c == 48
          then st 45
          else if c == 49
          then st 63
          else if c == 50
          then st 66
          else if c == 58
          then tr ipv6 249
          else if ltb c 65
          then (if between 51 57 c then st 69 else st 0)
          else if ltb 70 c
          then (if between 97 102 c then st 70 else st 0)
          else st 70,
    )
    ∷ (
      45,
      λ c.
          if c == 46
          then st 46
          else if c == 58
          then st 62
          else if ltb c 65
          then (if between 48 57 c then st 59 else st 0)
          else if ltb 70 c
          then (if between 97 102 c then st 59 else st 0)
          else st 59,
    )
    ∷ (
      46,
      λ c.
          if c == 48
          then st 47
          else if c == 49
          then st 55
          else if c == 50
          then st 57
          else if between 51 57 c
          then st 56
          else st 0,
    )
    ∷ (47, λ c. if c == 46 then st 48 else st 0)
    ∷ (
      48,
      λ c.
          if c == 48
          then st 49
          else if c == 49
          then st 51
          else if c == 50
          then st 53
          else if between 51 57 c
          then st 52
          else st 0,
    )
    ∷ (49, λ c. if c == 46 then st 50 else st 0)
    ∷ (
      50,
      λ c.
          if c == 48
          then tr ipv6 237
          else if c == 49
          then tr ipv6 242
          else if c == 50
          then tr ipv6 244
          else if between 51 57 c
          then tr ipv6 243
          else st 0,
    )
    ∷ []

unfoldable pub cases_6 : List (ℕ × (ℕ → Goto))
cases_6 =
    (242, λ c. if between 48 57 c then tr ipv6 243 else st 0)
    ∷ (243, λ c. if between 48 57 c then tr ipv6 237 else st 0)
    ∷ (
      244,
      λ c.
          if c == 53
          then tr ipv6 245
          else (if ltb 52 c
              then (if between 54 57 c then tr ipv6 237 else st 0)
              else if leb 48 c
              then tr ipv6 243
              else st 0),
    )
    ∷ (245, λ c. if between 48 53 c then tr ipv6 237 else st 0)
    ∷ (51, λ c. if c == 46 then st 50 else (if between 48 57 c then st 52 else st 0))
    ∷ (52, λ c. if c == 46 then st 50 else (if between 48 57 c then st 49 else st 0))
    ∷ (
      53,
      λ c.
          if c == 46
          then st 50
          else if c == 53
          then st 54
          else if ltb 52 c
          then (if between 54 57 c then st 49 else st 0)
          else if leb 48 c
          then st 52
          else st 0,
    )
    ∷ (54, λ c. if c == 46 then st 50 else (if between 48 53 c then st 49 else st 0))
    ∷ (55, λ c. if c == 46 then st 48 else (if between 48 57 c then st 56 else st 0))
    ∷ (56, λ c. if c == 46 then st 48 else (if between 48 57 c then st 47 else st 0))
    ∷ (
      57,
      λ c.
          if c == 46
          then st 48
          else if c == 53
          then st 58
          else if ltb 52 c
          then (if between 54 57 c then st 47 else st 0)
          else if leb 48 c
          then st 56
          else st 0,
    )
    ∷ (58, λ c. if c == 46 then st 48 else (if between 48 53 c then st 47 else st 0))
    ∷ []
