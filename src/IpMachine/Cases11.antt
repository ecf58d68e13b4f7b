-- ===== src/IpMachine/Cases11.antt =====
-- ext/asyncengine/ip_parser.c, lines 2877 to 3169: the states of the generated machine, each the body of
-- its `case`.
use async_engine.Base.{ℕ, List, [], ◌∷◌, ltb, leb, ◌==◌, if◌then◌else◌}
use async_engine.Ruby.{ipv6}
use async_engine.IpMachine.Moves.{Goto, st, tr, between}

unfoldable pub cases_21 : List (ℕ × (ℕ → Goto))
cases_21 =
    (
      81,
      λ c.
          if c == 46
          then st 3
          else if c == 58
          then st 19
          else if ltb c 65
          then (if between 48 57 c then st 17 else st 0)
          else if ltb 70 c
          then (if between 97 102 c then st 17 else st 0)
          else st 17,
    )
    ∷ (
      82,
      λ c.
          if c == 46
          then st 3
          else if c == 58
          then st 19
          else if ltb c 65
          then (if between 48 57 c then st 81 else st 0)
          else if ltb 70 c
          then (if between 97 102 c then st 16 else st 0)
          else st 16,
    )
    ∷ (83, λ c. if c == 58 then tr ipv6 315 else st 0)
    ∷ (
      315,
      λ c.
          if c == 48
          then tr ipv6 316
          else if c == 49
          then tr ipv6 320
          else if c == 50
          then tr ipv6 323
          else if ltb c 65
          then (if between 51 57 c then tr ipv6 326 else st 0)
          else if ltb 70 c
          then (if between 97 102 c then tr ipv6 327 else st 0)
          else tr ipv6 327,
    )
    ∷ (
      316,
      λ c.
          if c == 46
          then st 46
          else if c == 58
          then st 84
          else if ltb c 65
          then (if between 48 57 c then tr ipv6 317 else st 0)
          else if ltb 70 c
          then (if between 97 102 c then tr ipv6 317 else st 0)
          else tr ipv6 317,
    )
    ∷ (
      317,
      λ c.
          if c == 58
          then st 84
          else (if ltb c 65
              then (if between 48 57 c then tr ipv6 318 else st 0)
              else if ltb 70 c
              then (if between 97 102 c then tr ipv6 318 else st 0)
              else tr ipv6 318),
    )
    ∷ (
      318,
      λ c.
          if c == 58
          then st 84
          else (if ltb c 65
              then (if between 48 57 c then tr ipv6 319 else st 0)
              else if ltb 70 c
              then (if between 97 102 c then tr ipv6 319 else st 0)
              else tr ipv6 319),
    )
    ∷ (319, λ c. if c == 58 then st 84 else st 0)
    ∷ []

unfoldable pub cases_22 : List (ℕ × (ℕ → Goto))
cases_22 =
    (
      84,
      λ c.
          if c == 48
          then tr ipv6 303
          else if c == 49
          then tr ipv6 307
          else if c == 50
          then tr ipv6 310
          else if ltb c 65
          then (if between 51 57 c then tr ipv6 313 else st 0)
          else if ltb 70 c
          then (if between 97 102 c then tr ipv6 314 else st 0)
          else tr ipv6 314,
    )
    ∷ (
      320,
      λ c.
          if c == 46
          then st 46
          else if c == 58
          then st 84
          else if ltb c 65
          then (if between 48 57 c then tr ipv6 321 else st 0)
          else if ltb 70 c
          then (if between 97 102 c then tr ipv6 317 else st 0)
          else tr ipv6 317,
    )
    ∷ (
      321,
      λ c.
          if c == 46
          then st 46
          else if c == 58
          then st 84
          else if ltb c 65
          then (if between 48 57 c then tr ipv6 322 else st 0)
          else if ltb 70 c
          then (if between 97 102 c then tr ipv6 318 else st 0)
          else tr ipv6 318,
    )
    ∷ (
      322,
      λ c.
          if c == 46
          then st 46
          else if c == 58
          then st 84
          else if ltb c 65
          then (if between 48 57 c then tr ipv6 319 else st 0)
          else if ltb 70 c
          then (if between 97 102 c then tr ipv6 319 else st 0)
          else tr ipv6 319,
    )
    ∷ (
      323,
      λ c.
          if c == 46
          then st 46
          else if c == 53
          then tr ipv6 324
          else if c == 58
          then st 84
          else if ltb c 54
          then (if between 48 52 c then tr ipv6 321 else st 0)
          else if ltb 57 c
          then (if ltb 70 c
              then (if between 97 102 c then tr ipv6 317 else st 0)
              else if leb 65 c
              then tr ipv6 317
              else st 0)
          else tr ipv6 325,
    )
    ∷ (
      324,
      λ c.
          if c == 46
          then st 46
          else if c == 58
          then st 84
          else if ltb c 54
          then (if between 48 53 c then tr ipv6 322 else st 0)
          else if ltb 57 c
          then (if ltb 70 c
              then (if between 97 102 c then tr ipv6 318 else st 0)
              else if leb 65 c
              then tr ipv6 318
              else st 0)
          else tr ipv6 318,
    )
    ∷ []
