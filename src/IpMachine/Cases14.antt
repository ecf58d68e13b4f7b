-- ===== src/IpMachine/Cases14.antt =====
-- ext/asyncengine/ip_parser.c, lines 3750 to 4020: the states of the generated machine, each the body of
-- its `case`.
use async_engine.Base.{ℕ, List, [], ◌∷◌, ltb, leb, ◌==◌, if◌then◌else◌}
use async_engine.Ruby.{ipv6_reference}
use async_engine.IpMachine.Moves.{Goto, st, tr, between}

unfoldable pub cases_27 : List (ℕ × (ℕ → Goto))
cases_27 =
    (
      124,
      λ c. if c == 93 then tr ipv6_reference 237 else (if between 48 57 c then st 125 else st 0),
    )
    ∷ (
      125,
      λ c. if c == 93 then tr ipv6_reference 237 else (if between 48 57 c then st 123 else st 0),
    )
    ∷ (
      126,
      λ c.
          if c == 53
          then st 127
          else if c == 93
          then tr ipv6_reference 237
          else if ltb 52 c
          then (if between 54 57 c then st 123 else st 0)
          else if leb 48 c
          then st 125
          else st 0,
    )
    ∷ (
      127,
      λ c. if c == 93 then tr ipv6_reference 237 else (if between 48 53 c then st 123 else st 0),
    )
    ∷ (128, λ c. if c == 46 then st 122 else (if between 48 57 c then st 129 else st 0))
    ∷ (129, λ c. if c == 46 then st 122 else (if between 48 57 c then st 121 else st 0))
    ∷ (
      130,
      λ c.
          if c == 46
          then st 122
          else if c == 53
          then st 131
          else if ltb 52 c
          then (if between 54 57 c then st 121 else st 0)
          else if leb 48 c
          then st 129
          else st 0,
    )
    ∷ (131, λ c. if c == 46 then st 122 else (if between 48 53 c then st 121 else st 0))
    ∷ (132, λ c. if c == 46 then st 120 else (if between 48 57 c then st 133 else st 0))
    ∷ (133, λ c. if c == 46 then st 120 else (if between 48 57 c then st 119 else st 0))
    ∷ (
      134,
      λ c.
          if c == 46
          then st 120
          else if c == 53
          then st 135
          else if ltb 52 c
          then (if between 54 57 c then st 119 else st 0)
          else if leb 48 c
          then st 133
          else st 0,
    )
    ∷ (135, λ c. if c == 46 then st 120 else (if between 48 53 c then st 119 else st 0))
    ∷ (
      136,
      λ c.
          if c == 58
          then st 139
          else (if ltb c 65
              then (if between 48 57 c then st 137 else st 0)
              else if ltb 70 c
              then (if between 97 102 c then st 137 else st 0)
              else st 137),
    )
    ∷ []

unfoldable pub cases_28 : List (ℕ × (ℕ → Goto))
cases_28 =
    (
      137,
      λ c.
          if c == 58
          then st 139
          else (if ltb c 65
              then (if between 48 57 c then st 138 else st 0)
              else if ltb 70 c
              then (if between 97 102 c then st 138 else st 0)
              else st 138),
    )
    ∷ (138, λ c. if c == 58 then st 139 else st 0)
    ∷ (
      139,
      λ c.
          if c == 58
          then st 123
          else (if ltb c 65
              then (if between 48 57 c then st 140 else st 0)
              else if ltb 70 c
              then (if between 97 102 c then st 140 else st 0)
              else st 140),
    )
    ∷ (
      140,
      λ c.
          if c == 93
          then tr ipv6_reference 237
          else (if ltb c 65
              then (if between 48 57 c then st 141 else st 0)
              else if ltb 70 c
              then (if between 97 102 c then st 141 else st 0)
              else st 141),
    )
    ∷ (
      141,
      λ c.
          if c == 93
          then tr ipv6_reference 237
          else (if ltb c 65
              then (if between 48 57 c then st 142 else st 0)
              else if ltb 70 c
              then (if between 97 102 c then st 142 else st 0)
              else st 142),
    )
    ∷ (
      142,
      λ c.
          if c == 93
          then tr ipv6_reference 237
          else (if ltb c 65
              then (if between 48 57 c then st 123 else st 0)
              else if ltb 70 c
              then (if between 97 102 c then st 123 else st 0)
              else st 123),
    )
    ∷ (
      143,
      λ c.
          if c == 46
          then st 118
          else if c == 58
          then st 139
          else if ltb c 65
          then (if between 48 57 c then st 144 else st 0)
          else if ltb 70 c
          then (if between 97 102 c then st 136 else st 0)
          else st 136,
    )
    ∷ (
      144,
      λ c.
          if c == 46
          then st 118
          else if c == 58
          then st 139
          else if ltb c 65
          then (if between 48 57 c then st 145 else st 0)
          else if ltb 70 c
          then (if between 97 102 c then st 137 else st 0)
          else st 137,
    )
    ∷ (
      145,
      λ c.
          if c == 46
          then st 118
          else if c == 58
          then st 139
          else if ltb c 65
          then (if between 48 57 c then st 138 else st 0)
          else if ltb 70 c
          then (if between 97 102 c then st 138 else st 0)
          else st 138,
    )
    ∷ []
