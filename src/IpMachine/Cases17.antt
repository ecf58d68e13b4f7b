-- ===== src/IpMachine/Cases17.antt =====
-- ext/asyncengine/ip_parser.c, lines 4582 to 4864: the states of the generated machine, each the body of
-- its `case`.
use async_engine.Base.{ℕ, List, [], ◌∷◌, ltb, leb, ◌==◌, if◌then◌else◌}
use async_engine.Ruby.{ipv6_reference}
use async_engine.IpMachine.Moves.{Goto, st, tr, between}

unfoldable pub cases_33 : List (ℕ × (ℕ → Goto))
cases_33 =
    (
      178,
      λ c.
          if c == 46
          then st 118
          else if c == 58
          then st 171
          else if c == 93
          then tr ipv6_reference 237
          else if ltb c 65
          then (if between 48 57 c then st 177 else st 0)
          else if ltb 70 c
          then (if between 97 102 c then st 168 else st 0)
          else st 168,
    )
    ∷ (
      179,
      λ c.
          if c == 58
          then st 171
          else if c == 93
          then tr ipv6_reference 237
          else if ltb c 65
          then (if between 48 57 c then st 168 else st 0)
          else if ltb 70 c
          then (if between 97 102 c then st 168 else st 0)
          else st 168,
    )
    ∷ (
      180,
      λ c.
          if c == 48
          then st 181
          else if c == 49
          then st 186
          else if c == 50
          then st 189
          else if c == 93
          then tr ipv6_reference 237
          else if ltb c 65
          then (if between 51 57 c then st 192 else st 0)
          else if ltb 70 c
          then (if between 97 102 c then st 193 else st 0)
          else st 193,
    )
    ∷ (
      181,
      λ c.
          if c == 46
          then st 118
          else if c == 58
          then st 185
          else if c == 93
          then tr ipv6_reference 237
          else if ltb c 65
          then (if between 48 57 c then st 182 else st 0)
          else if ltb 70 c
          then (if between 97 102 c then st 182 else st 0)
          else st 182,
    )
    ∷ (
      182,
      λ c.
          if c == 58
          then st 185
          else if c == 93
          then tr ipv6_reference 237
          else if ltb c 65
          then (if between 48 57 c then st 183 else st 0)
          else if ltb 70 c
          then (if between 97 102 c then st 183 else st 0)
          else st 183,
    )
    ∷ (
      183,
      λ c.
          if c == 58
          then st 185
          else if c == 93
          then tr ipv6_reference 237
          else if ltb c 65
          then (if between 48 57 c then st 184 else st 0)
          else if ltb 70 c
          then (if between 97 102 c then st 184 else st 0)
          else st 184,
    )
    ∷ (184, λ c. if c == 58 then st 185 else if c == 93 then tr ipv6_reference 237 else st 0)
    ∷ (
      185,
      λ c.
          if c == 48
          then st 167
          else if c == 49
          then st 172
          else if c == 50
          then st 175
          else if ltb c 65
          then (if between 51 57 c then st 178 else st 0)
          else if ltb 70 c
          then (if between 97 102 c then st 179 else st 0)
          else st 179,
    )
    ∷ []

unfoldable pub cases_34 : List (ℕ × (ℕ → Goto))
cases_34 =
    (
      186,
      λ c.
          if c == 46
          then st 118
          else if c == 58
          then st 185
          else if c == 93
          then tr ipv6_reference 237
          else if ltb c 65
          then (if between 48 57 c then st 187 else st 0)
          else if ltb 70 c
          then (if between 97 102 c then st 182 else st 0)
          else st 182,
    )
    ∷ (
      187,
      λ c.
          if c == 46
          then st 118
          else if c == 58
          then st 185
          else if c == 93
          then tr ipv6_reference 237
          else if ltb c 65
          then (if between 48 57 c then st 188 else st 0)
          else if ltb 70 c
          then (if between 97 102 c then st 183 else st 0)
          else st 183,
    )
    ∷ (
      188,
      λ c.
          if c == 46
          then st 118
          else if c == 58
          then st 185
          else if c == 93
          then tr ipv6_reference 237
          else if ltb c 65
          then (if between 48 57 c then st 184 else st 0)
          else if ltb 70 c
          then (if between 97 102 c then st 184 else st 0)
          else st 184,
    )
    ∷ (
      189,
      λ c.
          if c == 46
          then st 118
          else if c == 53
          then st 190
          else if c == 58
          then st 185
          else if c == 93
          then tr ipv6_reference 237
          else if ltb c 54
          then (if between 48 52 c then st 187 else st 0)
          else if ltb 57 c
          then (if ltb 70 c
              then (if between 97 102 c then st 182 else st 0)
              else if leb 65 c
              then st 182
              else st 0)
          else st 191,
    )
    ∷ (
      190,
      λ c.
          if c == 46
          then st 118
          else if c == 58
          then st 185
          else if c == 93
          then tr ipv6_reference 237
          else if ltb c 54
          then (if between 48 53 c then st 188 else st 0)
          else if ltb 57 c
          then (if ltb 70 c
              then (if between 97 102 c then st 183 else st 0)
              else if leb 65 c
              then st 183
              else st 0)
          else st 183,
    )
    ∷ (
      191,
      λ c.
          if c == 46
          then st 118
          else if c == 58
          then st 185
          else if c == 93
          then tr ipv6_reference 237
          else if ltb c 65
          then (if between 48 57 c then st 183 else st 0)
          else if ltb 70 c
          then (if between 97 102 c then st 183 else st 0)
          else st 183,
    )
    ∷ (
      192,
      λ c.
          if c == 46
          then st 118
          else if c == 58
          then st 185
          else if c == 93
          then tr ipv6_reference 237
          else if ltb c 65
          then (if between 48 57 c then st 191 else st 0)
          else if ltb 70 c
          then (if between 97 102 c then st 182 else st 0)
          else st 182,
    )
    ∷ (
      193,
      λ c.
          if c == 58
          then st 185
          else if c == 93
          then tr ipv6_reference 237
          else if ltb c 65
          then (if between 48 57 c then st 182 else st 0)
          else if ltb 70 c
          then (if between 97 102 c then st 182 else st 0)
          else st 182,
    )
    ∷ []
