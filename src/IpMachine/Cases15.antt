-- ===== src/IpMachine/Cases15.antt =====
-- ext/asyncengine/ip_parser.c, lines 4021 to 4294: the states of the generated machine, each the body of
-- its `case`.
use async_engine.Base.{ℕ, List, [], ◌∷◌, ltb, leb, ◌==◌, if◌then◌else◌}
use async_engine.Ruby.{ipv6_reference}
use async_engine.IpMachine.Moves.{Goto, st, tr, between}

unfoldable pub cases_29 : List (ℕ × (ℕ → Goto))
cases_29 =
    (
      146,
      λ c.
          if c == 46
          then st 118
          else if c == 53
          then st 147
          else if c == 58
          then st 139
          else if ltb c 54
          then (if between 48 52 c then st 144 else st 0)
          else if ltb 57 c
          then (if ltb 70 c
              then (if between 97 102 c then st 136 else st 0)
              else if leb 65 c
              then st 136
              else st 0)
          else st 148,
    )
    ∷ (
      147,
      λ c.
          if c == 46
          then st 118
          else if c == 58
          then st 139
          else if ltb c 54
          then (if between 48 53 c then st 145 else st 0)
          else if ltb 57 c
          then (if ltb 70 c
              then (if between 97 102 c then st 137 else st 0)
              else if leb 65 c
              then st 137
              else st 0)
          else st 137,
    )
    ∷ (
      148,
      λ c.
          if c == 46
          then st 118
          else if c == 58
          then st 139
          else if ltb c 65
          then (if between 48 57 c then st 137 else st 0)
          else if ltb 70 c
          then (if between 97 102 c then st 137 else st 0)
          else st 137,
    )
    ∷ (
      149,
      λ c.
          if c == 46
          then st 118
          else if c == 58
          then st 139
          else if ltb c 65
          then (if between 48 57 c then st 148 else st 0)
          else if ltb 70 c
          then (if between 97 102 c then st 136 else st 0)
          else st 136,
    )
    ∷ (
      150,
      λ c.
          if c == 93
          then tr ipv6_reference 237
          else (if ltb c 65
              then (if between 48 57 c then st 140 else st 0)
              else if ltb 70 c
              then (if between 97 102 c then st 140 else st 0)
              else st 140),
    )
    ∷ (
      151,
      λ c.
          if c == 58
          then st 139
          else (if ltb c 65
              then (if between 48 57 c then st 136 else st 0)
              else if ltb 70 c
              then (if between 97 102 c then st 136 else st 0)
              else st 136),
    )
    ∷ (
      152,
      λ c.
          if c == 48
          then st 153
          else if c == 49
          then st 158
          else if c == 50
          then st 161
          else if c == 93
          then tr ipv6_reference 237
          else if ltb c 65
          then (if between 51 57 c then st 164 else st 0)
          else if ltb 70 c
          then (if between 97 102 c then st 165 else st 0)
          else st 165,
    )
    ∷ (
      153,
      λ c.
          if c == 46
          then st 118
          else if c == 58
          then st 157
          else if c == 93
          then tr ipv6_reference 237
          else if ltb c 65
          then (if between 48 57 c then st 154 else st 0)
          else if ltb 70 c
          then (if between 97 102 c then st 154 else st 0)
          else st 154,
    )
    ∷ []

unfoldable pub cases_30 : List (ℕ × (ℕ → Goto))
cases_30 =
    (
      154,
      λ c.
          if c == 58
          then st 157
          else if c == 93
          then tr ipv6_reference 237
          else if ltb c 65
          then (if between 48 57 c then st 155 else st 0)
          else if ltb 70 c
          then (if between 97 102 c then st 155 else st 0)
          else st 155,
    )
    ∷ (
      155,
      λ c.
          if c == 58
          then st 157
          else if c == 93
          then tr ipv6_reference 237
          else if ltb c 65
          then (if between 48 57 c then st 156 else st 0)
          else if ltb 70 c
          then (if between 97 102 c then st 156 else st 0)
          else st 156,
    )
    ∷ (156, λ c. if c == 58 then st 157 else if c == 93 then tr ipv6_reference 237 else st 0)
    ∷ (
      157,
      λ c.
          if ltb c 65
          then (if between 48 57 c then st 140 else st 0)
          else if ltb 70 c
          then (if between 97 102 c then st 140 else st 0)
          else st 140,
    )
    ∷ (
      158,
      λ c.
          if c == 46
          then st 118
          else if c == 58
          then st 157
          else if c == 93
          then tr ipv6_reference 237
          else if ltb c 65
          then (if between 48 57 c then st 159 else st 0)
          else if ltb 70 c
          then (if between 97 102 c then st 154 else st 0)
          else st 154,
    )
    ∷ (
      159,
      λ c.
          if c == 46
          then st 118
          else if c == 58
          then st 157
          else if c == 93
          then tr ipv6_reference 237
          else if ltb c 65
          then (if between 48 57 c then st 160 else st 0)
          else if ltb 70 c
          then (if between 97 102 c then st 155 else st 0)
          else st 155,
    )
    ∷ (
      160,
      λ c.
          if c == 46
          then st 118
          else if c == 58
          then st 157
          else if c == 93
          then tr ipv6_reference 237
          else if ltb c 65
          then (if between 48 57 c then st 156 else st 0)
          else if ltb 70 c
          then (if between 97 102 c then st 156 else st 0)
          else st 156,
    )
    ∷ (
      161,
      λ c.
          if c == 46
          then st 118
          else if c == 53
          then st 162
          else if c == 58
          then st 157
          else if c == 93
          then tr ipv6_reference 237
          else if ltb c 54
          then (if between 48 52 c then st 159 else st 0)
          else if ltb 57 c
          then (if ltb 70 c
              then (if between 97 102 c then st 154 else st 0)
              else if leb 65 c
              then st 154
              else st 0)
          else st 163,
    )
    ∷ []
