-- ===== src/IpMachine/Cases5.antt =====
-- ext/asyncengine/ip_parser.c, lines 1180 to 1450: the states of the generated machine, each the body of
-- its `case`.
use async_engine.Base.{ℕ, List, [], ◌∷◌, ltb, leb, ◌==◌, if◌then◌else◌}
use async_engine.Ruby.{ipv6}
use async_engine.IpMachine.Moves.{Goto, st, tr, between}

unfoldable pub cases_9 : List (ℕ × (ℕ → Goto))
cases_9 =
    (
      250,
      λ c.
          if c == 48
          then tr ipv6 251
          else if c == 49
          then tr ipv6 255
          else if c == 50
          then tr ipv6 258
          else if ltb c 65
          then (if between 51 57 c then tr ipv6 261 else st 0)
          else if ltb 70 c
          then (if between 97 102 c then tr ipv6 262 else st 0)
          else tr ipv6 262,
    )
    ∷ (
      251,
      λ c.
          if c == 46
          then st 46
          else if c == 58
          then st 71
          else if ltb c 65
          then (if between 48 57 c then tr ipv6 252 else st 0)
          else if ltb 70 c
          then (if between 97 102 c then tr ipv6 252 else st 0)
          else tr ipv6 252,
    )
    ∷ (
      252,
      λ c.
          if c == 58
          then st 71
          else (if ltb c 65
              then (if between 48 57 c then tr ipv6 253 else st 0)
              else if ltb 70 c
              then (if between 97 102 c then tr ipv6 253 else st 0)
              else tr ipv6 253),
    )
    ∷ (
      253,
      λ c.
          if c == 58
          then st 71
          else (if ltb c 65
              then (if between 48 57 c then tr ipv6 254 else st 0)
              else if ltb 70 c
              then (if between 97 102 c then tr ipv6 254 else st 0)
              else tr ipv6 254),
    )
    ∷ (254, λ c. if c == 58 then st 71 else st 0)
    ∷ (
      71,
      λ c.
          if ltb c 65
          then (if between 48 57 c then tr ipv6 246 else st 0)
          else if ltb 70 c
          then (if between 97 102 c then tr ipv6 246 else st 0)
          else tr ipv6 246,
    )
    ∷ (
      255,
      λ c.
          if c == 46
          then st 46
          else if c == 58
          then st 71
          else if ltb c 65
          then (if between 48 57 c then tr ipv6 256 else st 0)
          else if ltb 70 c
          then (if between 97 102 c then tr ipv6 252 else st 0)
          else tr ipv6 252,
    )
    ∷ []

unfoldable pub cases_10 : List (ℕ × (ℕ → Goto))
cases_10 =
    (
      256,
      λ c.
          if c == 46
          then st 46
          else if c == 58
          then st 71
          else if ltb c 65
          then (if between 48 57 c then tr ipv6 257 else st 0)
          else if ltb 70 c
          then (if between 97 102 c then tr ipv6 253 else st 0)
          else tr ipv6 253,
    )
    ∷ (
      257,
      λ c.
          if c == 46
          then st 46
          else if c == 58
          then st 71
          else if ltb c 65
          then (if between 48 57 c then tr ipv6 254 else st 0)
          else if ltb 70 c
          then (if between 97 102 c then tr ipv6 254 else st 0)
          else tr ipv6 254,
    )
    ∷ (
      258,
      λ c.
          if c == 46
          then st 46
          else if c == 53
          then tr ipv6 259
          else if c == 58
          then st 71
          else if ltb c 54
          then (if between 48 52 c then tr ipv6 256 else st 0)
          else if ltb 57 c
          then (if ltb 70 c
              then (if between 97 102 c then tr ipv6 252 else st 0)
              else if leb 65 c
              then tr ipv6 252
              else st 0)
          else tr ipv6 260,
    )
    ∷ (
      259,
      λ c.
          if c == 46
          then st 46
          else if c == 58
          then st 71
          else if ltb c 54
          then (if between 48 53 c then tr ipv6 257 else st 0)
          else if ltb 57 c
          then (if ltb 70 c
              then (if between 97 102 c then tr ipv6 253 else st 0)
              else if leb 65 c
              then tr ipv6 253
              else st 0)
          else tr ipv6 253,
    )
    ∷ (
      260,
      λ c.
          if c == 46
          then st 46
          else if c == 58
          then st 71
          else if ltb c 65
          then (if between 48 57 c then tr ipv6 253 else st 0)
          else if ltb 70 c
          then (if between 97 102 c then tr ipv6 253 else st 0)
          else tr ipv6 253,
    )
    ∷ []
