-- ===== src/IpMachine/Cases2.antt =====
-- ext/asyncengine/ip_parser.c, lines 336 to 625: the states of the generated machine, each the body of
-- its `case`.
use async_engine.Base.{ℕ, List, [], ◌∷◌, ltb, ◌==◌, if◌then◌else◌}
use async_engine.Ruby.{ipv6}
use async_engine.IpMachine.Moves.{Goto, st, tr, between}

unfoldable pub cases_3 : List (ℕ × (ℕ → Goto))
cases_3 =
    (18, λ c. if c == 58 then st 19 else st 0)
    ∷ (
      19,
      λ c.
          if c == 58
          then tr ipv6 302
          else (if ltb c 65
              then (if between 48 57 c then st 20 else st 0)
              else if ltb 70 c
              then (if between 97 102 c then st 20 else st 0)
              else st 20),
    )
    ∷ (
      20,
      λ c.
          if c == 58
          then st 24
          else (if ltb c 65
              then (if between 48 57 c then st 21 else st 0)
              else if ltb 70 c
              then (if between 97 102 c then st 21 else st 0)
              else st 21),
    )
    ∷ (
      21,
      λ c.
          if c == 58
          then st 24
          else (if ltb c 65
              then (if between 48 57 c then st 22 else st 0)
              else if ltb 70 c
              then (if between 97 102 c then st 22 else st 0)
              else st 22),
    )
    ∷ (
      22,
      λ c.
          if c == 58
          then st 24
          else (if ltb c 65
              then (if between 48 57 c then st 23 else st 0)
              else if ltb 70 c
              then (if between 97 102 c then st 23 else st 0)
              else st 23),
    )
    ∷ (23, λ c. if c == 58 then st 24 else st 0)
    ∷ (
      24,
      λ c.
          if c == 58
          then tr ipv6 289
          else (if ltb c 65
              then (if between 48 57 c then st 25 else st 0)
              else if ltb 70 c
              then (if between 97 102 c then st 25 else st 0)
              else st 25),
    )
    ∷ (
      25,
      λ c.
          if c == 58
          then st 29
          else (if ltb c 65
              then (if between 48 57 c then st 26 else st 0)
              else if ltb 70 c
              then (if between 97 102 c then st 26 else st 0)
              else st 26),
    )
    ∷ (
      26,
      λ c.
          if c == 58
          then st 29
          else (if ltb c 65
              then (if between 48 57 c then st 27 else st 0)
              else if ltb 70 c
              then (if between 97 102 c then st 27 else st 0)
              else st 27),
    )
    ∷ (
      27,
      λ c.
          if c == 58
          then st 29
          else (if ltb c 65
              then (if between 48 57 c then st 28 else st 0)
              else if ltb 70 c
              then (if between 97 102 c then st 28 else st 0)
              else st 28),
    )
    ∷ (28, λ c. if c == 58 then st 29 else st 0)
    ∷ []

unfoldable pub cases_4 : List (ℕ × (ℕ → Goto))
cases_4 =
    (
      29,
      λ c.
          if c == 58
          then tr ipv6 276
          else (if ltb c 65
              then (if between 48 57 c then st 30 else st 0)
              else if ltb 70 c
              then (if between 97 102 c then st 30 else st 0)
              else st 30),
    )
    ∷ (
      30,
      λ c.
          if c == 58
          then st 34
          else (if ltb c 65
              then (if between 48 57 c then st 31 else st 0)
              else if ltb 70 c
              then (if between 97 102 c then st 31 else st 0)
              else st 31),
    )
    ∷ (
      31,
      λ c.
          if c == 58
          then st 34
          else (if ltb c 65
              then (if between 48 57 c then st 32 else st 0)
              else if ltb 70 c
              then (if between 97 102 c then st 32 else st 0)
              else st 32),
    )
    ∷ (
      32,
      λ c.
          if c == 58
          then st 34
          else (if ltb c 65
              then (if between 48 57 c then st 33 else st 0)
              else if ltb 70 c
              then (if between 97 102 c then st 33 else st 0)
              else st 33),
    )
    ∷ (33, λ c. if c == 58 then st 34 else st 0)
    ∷ (
      34,
      λ c.
          if c == 58
          then tr ipv6 263
          else (if ltb c 65
              then (if between 48 57 c then st 35 else st 0)
              else if ltb 70 c
              then (if between 97 102 c then st 35 else st 0)
              else st 35),
    )
    ∷ (
      35,
      λ c.
          if c == 58
          then st 39
          else (if ltb c 65
              then (if between 48 57 c then st 36 else st 0)
              else if ltb 70 c
              then (if between 97 102 c then st 36 else st 0)
              else st 36),
    )
    ∷ (
      36,
      λ c.
          if c == 58
          then st 39
          else (if ltb c 65
              then (if between 48 57 c then st 37 else st 0)
              else if ltb 70 c
              then (if between 97 102 c then st 37 else st 0)
              else st 37),
    )
    ∷ (
      37,
      λ c.
          if c == 58
          then st 39
          else (if ltb c 65
              then (if between 48 57 c then st 38 else st 0)
              else if ltb 70 c
              then (if between 97 102 c then st 38 else st 0)
              else st 38),
    )
    ∷ (38, λ c. if c == 58 then st 39 else st 0)
    ∷ (
      39,
      λ c.
          if c == 58
          then tr ipv6 250
          else (if ltb c 65
              then (if between 48 57 c then st 40 else st 0)
              else if ltb 70 c
              then (if between 97 102 c then st 40 else st 0)
              else st 40),
    )
    ∷ []
