-- ===== src/IpMachine/Cases16.antt =====
-- ext/asyncengine/ip_parser.c, lines 4295 to 4581: the states of the generated machine, each the body of
-- its `case`.
use async_engine.Base.{ℕ, List, [], ◌∷◌, ltb, leb, ◌==◌, if◌then◌else◌}
use async_engine.Ruby.{ipv6_reference}
use async_engine.IpMachine.Moves.{Goto, st, tr, between}

unfoldable pub cases_31 : List (ℕ × (ℕ → Goto))
cases_31 =
    (
      162,
      λ c.
          if c == 46
          then st 118
          else if c == 58
          then st 157
          else if c == 93
          then tr ipv6_reference 237
          else if ltb c 54
          then (if between 48 53 c then st 160 else st 0)
          else if ltb 57 c
          then (if ltb 70 c
              then (if between 97 102 c then st 155 else st 0)
              else if leb 65 c
              then st 155
              else st 0)
          else st 155,
    )
    ∷ (
      163,
      λ c.
          if c == 46
          then st 118
          else if c == 58
          then st 157
          else if c == 93
          then tr ipv6_reference 237
          else if ltb c 65
          then (if between 48 57 c then st 155 else st 0)
          else if ltb 70 c
          then (if between 97 102 c then st 155 else st 0)
          else st 155,
    )
    ∷ (
      164,
      λ c.
          if c == 46
          then st 118
          else if c == 58
          then st 157
          else if c == 93
          then tr ipv6_reference 237
          else if ltb c 65
          then (if between 48 57 c then st 163 else st 0)
          else if ltb 70 c
          then (if between 97 102 c then st 154 else st 0)
          else st 154,
    )
    ∷ (
      165,
      λ c.
          if c == 58
          then st 157
          else if c == 93
          then tr ipv6_reference 237
          else if ltb c 65
          then (if between 48 57 c then st 154 else st 0)
          else if ltb 70 c
          then (if between 97 102 c then st 154 else st 0)
          else st 154,
    )
    ∷ (
      166,
      λ c.
          if c == 48
          then st 167
          else if c == 49
          then st 172
          else if c == 50
          then st 175
          else if c == 93
          then tr ipv6_reference 237
          else if ltb c 65
          then (if between 51 57 c then st 178 else st 0)
          else if ltb 70 c
          then (if between 97 102 c then st 179 else st 0)
          else st 179,
    )
    ∷ (
      167,
      λ c.
          if c == 46
          then st 118
          else if c == 58
          then st 171
          else if c == 93
          then tr ipv6_reference 237
          else if ltb c 65
          then (if between 48 57 c then st 168 else st 0)
          else if ltb 70 c
          then (if between 97 102 c then st 168 else st 0)
          else st 168,
    )
    ∷ (
      168,
      λ c.
          if c == 58
          then st 171
          else if c == 93
          then tr ipv6_reference 237
          else if ltb c 65
          then (if between 48 57 c then st 169 else st 0)
          else if ltb 70 c
          then (if between 97 102 c then st 169 else st 0)
          else st 169,
    )
    ∷ (
      169,
      λ c.
          if c == 58
          then st 171
          else if c == 93
          then tr ipv6_reference 237
          else if ltb c 65
          then (if between 48 57 c then st 170 else st 0)
          else if ltb 70 c
          then (if between 97 102 c then st 170 else st 0)
          else st 170,
    )
    ∷ []

unfoldable pub cases_32 : List (ℕ × (ℕ → Goto))
cases_32 =
    (170, λ c. if c == 58 then st 171 else if c == 93 then tr ipv6_reference 237 else st 0)
    ∷ (
      171,
      λ c.
          if c == 48
          then st 153
          else if c == 49
          then st 158
          else if c == 50
          then st 161
          else if ltb c 65
          then (if between 51 57 c then st 164 else st 0)
          else if ltb 70 c
          then (if between 97 102 c then st 165 else st 0)
          else st 165,
    )
    ∷ (
      172,
      λ c.
          if c == 46
          then st 118
          else if c == 58
          then st 171
          else if c == 93
          then tr ipv6_reference 237
          else if ltb c 65
          then (if between 48 57 c then st 173 else st 0)
          else if ltb 70 c
          then (if between 97 102 c then st 168 else st 0)
          else st 168,
    )
    ∷ (
      173,
      λ c.
          if c == 46
          then st 118
          else if c == 58
          then st 171
          else if c == 93
          then tr ipv6_reference 237
          else if ltb c 65
          then (if between 48 57 c then st 174 else st 0)
          else if ltb 70 c
          then (if between 97 102 c then st 169 else st 0)
          else st 169,
    )
    ∷ (
      174,
      λ c.
          if c == 46
          then st 118
          else if c == 58
          then st 171
          else if c == 93
          then tr ipv6_reference 237
          else if ltb c 65
          then (if between 48 57 c then st 170 else st 0)
          else if ltb 70 c
          then (if between 97 102 c then st 170 else st 0)
          else st 170,
    )
    ∷ (
      175,
      λ c.
          if c == 46
          then st 118
          else if c == 53
          then st 176
          else if c == 58
          then st 171
          else if c == 93
          then tr ipv6_reference 237
          else if ltb c 54
          then (if between 48 52 c then st 173 else st 0)
          else if ltb 57 c
          then (if ltb 70 c
              then (if between 97 102 c then st 168 else st 0)
              else if leb 65 c
              then st 168
              else st 0)
          else st 177,
    )
    ∷ (
      176,
      λ c.
          if c == 46
          then st 118
          else if c == 58
          then st 171
          else if c == 93
          then tr ipv6_reference 237
          else if ltb c 54
          then (if between 48 53 c then st 174 else st 0)
          else if ltb 57 c
          then (if ltb 70 c
              then (if between 97 102 c then st 169 else st 0)
              else if leb 65 c
              then st 169
              else st 0)
          else st 169,
    )
    ∷ (
      177,
      λ c.
          if c == 46
          then st 118
          else if c == 58
          then st 171
          else if c == 93
          then tr ipv6_reference 237
          else if ltb c 65
          then (if between 48 57 c then st 169 else st 0)
          else if ltb 70 c
          then (if between 97 102 c then st 169 else st 0)
          else st 169,
    )
    ∷ []
