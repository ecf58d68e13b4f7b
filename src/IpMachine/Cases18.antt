-- ===== src/IpMachine/Cases18.antt =====
-- ext/asyncengine/ip_parser.c, lines 4865 to 5131: the states of the generated machine, each the body of
-- its `case`.
use async_engine.Base.{ℕ, List, [], ◌∷◌, ltb, leb, ◌==◌, if◌then◌else◌}
use async_engine.Ruby.{ipv6_reference}
use async_engine.IpMachine.Moves.{Goto, st, tr, between}

unfoldable pub cases_35 : List (ℕ × (ℕ → Goto))
cases_35 =
    (
      194,
      λ c.
          if c == 48
          then st 195
          else if c == 49
          then st 200
          else if c == 50
          then st 203
          else if c == 93
          then tr ipv6_reference 237
          else if ltb c 65
          then (if between 51 57 c then st 206 else st 0)
          else if ltb 70 c
          then (if between 97 102 c then st 207 else st 0)
          else st 207,
    )
    ∷ (
      195,
      λ c.
          if c == 46
          then st 118
          else if c == 58
          then st 199
          else if c == 93
          then tr ipv6_reference 237
          else if ltb c 65
          then (if between 48 57 c then st 196 else st 0)
          else if ltb 70 c
          then (if between 97 102 c then st 196 else st 0)
          else st 196,
    )
    ∷ (
      196,
      λ c.
          if c == 58
          then st 199
          else if c == 93
          then tr ipv6_reference 237
          else if ltb c 65
          then (if between 48 57 c then st 197 else st 0)
          else if ltb 70 c
          then (if between 97 102 c then st 197 else st 0)
          else st 197,
    )
    ∷ (
      197,
      λ c.
          if c == 58
          then st 199
          else if c == 93
          then tr ipv6_reference 237
          else if ltb c 65
          then (if between 48 57 c then st 198 else st 0)
          else if ltb 70 c
          then (if between 97 102 c then st 198 else st 0)
          else st 198,
    )
    ∷ (198, λ c. if c == 58 then st 199 else if c == 93 then tr ipv6_reference 237 else st 0)
    ∷ (
      199,
      λ c.
          if c == 48
          then st 181
          else if c == 49
          then st 186
          else if c == 50
          then st 189
          else if ltb c 65
          then (if between 51 57 c then st 192 else st 0)
          else if ltb 70 c
          then (if between 97 102 c then st 193 else st 0)
          else st 193,
    )
    ∷ (
      200,
      λ c.
          if c == 46
          then st 118
          else if c == 58
          then st 199
          else if c == 93
          then tr ipv6_reference 237
          else if ltb c 65
          then (if between 48 57 c then st 201 else st 0)
          else if ltb 70 c
          then (if between 97 102 c then st 196 else st 0)
          else st 196,
    )
    ∷ (
      201,
      λ c.
          if c == 46
          then st 118
          else if c == 58
          then st 199
          else if c == 93
          then tr ipv6_reference 237
          else if ltb c 65
          then (if between 48 57 c then st 202 else st 0)
          else if ltb 70 c
          then (if between 97 102 c then st 197 else st 0)
          else st 197,
    )
    ∷ []

unfoldable pub cases_36 : List (ℕ × (ℕ → Goto))
cases_36 =
    (
      202,
      λ c.
          if c == 46
          then st 118
          else if c == 58
          then st 199
          else if c == 93
          then tr ipv6_reference 237
          else if ltb c 65
          then (if between 48 57 c then st 198 else st 0)
          else if ltb 70 c
          then (if between 97 102 c then st 198 else st 0)
          else st 198,
    )
    ∷ (
      203,
      λ c.
          if c == 46
          then st 118
          else if c == 53
          then st 204
          else if c == 58
          then st 199
          else if c == 93
          then tr ipv6_reference 237
          else if ltb c 54
          then (if between 48 52 c then st 201 else st 0)
          else if ltb 57 c
          then (if ltb 70 c
              then (if between 97 102 c then st 196 else st 0)
              else if leb 65 c
              then st 196
              else st 0)
          else st 205,
    )
    ∷ (
      204,
      λ c.
          if c == 46
          then st 118
          else if c == 58
          then st 199
          else if c == 93
          then tr ipv6_reference 237
          else if ltb c 54
          then (if between 48 53 c then st 202 else st 0)
          else if ltb 57 c
          then (if ltb 70 c
              then (if between 97 102 c then st 197 else st 0)
              else if leb 65 c
              then st 197
              else st 0)
          else st 197,
    )
    ∷ (
      205,
      λ c.
          if c == 46
          then st 118
          else if c == 58
          then st 199
          else if c == 93
          then tr ipv6_reference 237
          else if ltb c 65
          then (if between 48 57 c then st 197 else st 0)
          else if ltb 70 c
          then (if between 97 102 c then st 197 else st 0)
          else st 197,
    )
    ∷ (
      206,
      λ c.
          if c == 46
          then st 118
          else if c == 58
          then st 199
          else if c == 93
          then tr ipv6_reference 237
          else if ltb c 65
          then (if between 48 57 c then st 205 else st 0)
          else if ltb 70 c
          then (if between 97 102 c then st 196 else st 0)
          else st 196,
    )
    ∷ (
      207,
      λ c.
          if c == 58
          then st 199
          else if c == 93
          then tr ipv6_reference 237
          else if ltb c 65
          then (if between 48 57 c then st 196 else st 0)
          else if ltb 70 c
          then (if between 97 102 c then st 196 else st 0)
          else st 196,
    )
    ∷ (
      208,
      λ c.
          if c == 48
          then st 209
          else if c == 49
          then st 214
          else if c == 50
          then st 217
          else if c == 93
          then tr ipv6_reference 237
          else if ltb c 65
          then (if between 51 57 c then st 220 else st 0)
          else if ltb 70 c
          then (if between 97 102 c then st 221 else st 0)
          else st 221,
    )
    ∷ []
