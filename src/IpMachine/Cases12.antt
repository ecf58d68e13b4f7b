-- ===== src/IpMachine/Cases12.antt =====
-- ext/asyncengine/ip_parser.c, lines 3170 to 3455: the states of the generated machine, each the body of
-- its `case`.
use async_engine.Base.{ℕ, List, [], ◌∷◌, ltb, ◌==◌, if◌then◌else◌}
use async_engine.Ruby.{ipv6}
use async_engine.IpMachine.Moves.{Goto, st, tr, between}

unfoldable pub cases_23 : List (ℕ × (ℕ → Goto))
cases_23 =
    (
      325,
      λ c.
          if c == 46
          then st 46
          else if c == 58
          then st 84
          else if ltb c 65
          then (if between 48 57 c then tr ipv6 318 else st 0)
          else if ltb 70 c
          then (if between 97 102 c then tr ipv6 318 else st 0)
          else tr ipv6 318,
    )
    ∷ (
      326,
      λ c.
          if c == 46
          then st 46
          else if c == 58
          then st 84
          else if ltb c 65
          then (if between 48 57 c then tr ipv6 325 else st 0)
          else if ltb 70 c
          then (if between 97 102 c then tr ipv6 317 else st 0)
          else tr ipv6 317,
    )
    ∷ (
      327,
      λ c.
          if c == 58
          then st 84
          else (if ltb c 65
              then (if between 48 57 c then tr ipv6 317 else st 0)
              else if ltb 70 c
              then (if between 97 102 c then tr ipv6 317 else st 0)
              else tr ipv6 317),
    )
    ∷ (
      85,
      λ c.
          if c == 58
          then st 19
          else (if ltb c 65
              then (if between 48 57 c then st 16 else st 0)
              else if ltb 70 c
              then (if between 97 102 c then st 16 else st 0)
              else st 16),
    )
    ∷ (
      86,
      λ c.
          if c == 58
          then st 222
          else (if ltb c 65
              then (if between 48 57 c then st 87 else st 0)
              else if ltb 70 c
              then (if between 97 102 c then st 87 else st 0)
              else st 87),
    )
    ∷ (
      87,
      λ c.
          if c == 58
          then st 91
          else (if ltb c 65
              then (if between 48 57 c then st 88 else st 0)
              else if ltb 70 c
              then (if between 97 102 c then st 88 else st 0)
              else st 88),
    )
    ∷ (
      88,
      λ c.
          if c == 58
          then st 91
          else (if ltb c 65
              then (if between 48 57 c then st 89 else st 0)
              else if ltb 70 c
              then (if between 97 102 c then st 89 else st 0)
              else st 89),
    )
    ∷ (
      89,
      λ c.
          if c == 58
          then st 91
          else (if ltb c 65
              then (if between 48 57 c then st 90 else st 0)
              else if ltb 70 c
              then (if between 97 102 c then st 90 else st 0)
              else st 90),
    )
    ∷ []

unfoldable pub cases_24 : List (ℕ × (ℕ → Goto))
cases_24 =
    (90, λ c. if c == 58 then st 91 else st 0)
    ∷ (
      91,
      λ c.
          if c == 58
          then st 208
          else (if ltb c 65
              then (if between 48 57 c then st 92 else st 0)
              else if ltb 70 c
              then (if between 97 102 c then st 92 else st 0)
              else st 92),
    )
    ∷ (
      92,
      λ c.
          if c == 58
          then st 96
          else (if ltb c 65
              then (if between 48 57 c then st 93 else st 0)
              else if ltb 70 c
              then (if between 97 102 c then st 93 else st 0)
              else st 93),
    )
    ∷ (
      93,
      λ c.
          if c == 58
          then st 96
          else (if ltb c 65
              then (if between 48 57 c then st 94 else st 0)
              else if ltb 70 c
              then (if between 97 102 c then st 94 else st 0)
              else st 94),
    )
    ∷ (
      94,
      λ c.
          if c == 58
          then st 96
          else (if ltb c 65
              then (if between 48 57 c then st 95 else st 0)
              else if ltb 70 c
              then (if between 97 102 c then st 95 else st 0)
              else st 95),
    )
    ∷ (95, λ c. if c == 58 then st 96 else st 0)
    ∷ (
      96,
      λ c.
          if c == 58
          then st 194
          else (if ltb c 65
              then (if between 48 57 c then st 97 else st 0)
              else if ltb 70 c
              then (if between 97 102 c then st 97 else st 0)
              else st 97),
    )
    ∷ (
      97,
      λ c.
          if c == 58
          then st 101
          else (if ltb c 65
              then (if between 48 57 c then st 98 else st 0)
              else if ltb 70 c
              then (if between 97 102 c then st 98 else st 0)
              else st 98),
    )
    ∷ (
      98,
      λ c.
          if c == 58
          then st 101
          else (if ltb c 65
              then (if between 48 57 c then st 99 else st 0)
              else if ltb 70 c
              then (if between 97 102 c then st 99 else st 0)
              else st 99),
    )
    ∷ (
      99,
      λ c.
          if c == 58
          then st 101
          else (if ltb c 65
              then (if between 48 57 c then st 100 else st 0)
              else if ltb 70 c
              then (if between 97 102 c then st 100 else st 0)
              else st 100),
    )
    ∷ (100, λ c. if c == 58 then st 101 else st 0)
    ∷ []
