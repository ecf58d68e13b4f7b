-- ===== src/IpMachine/Cases13.antt =====
-- ext/asyncengine/ip_parser.c, lines 3456 to 3749: the states of the generated machine, each the body of
-- its `case`.
use async_engine.Base.{ℕ, List, [], ◌∷◌, ltb, ◌==◌, if◌then◌else◌}
use async_engine.Ruby.{ipv6_reference}
use async_engine.IpMachine.Moves.{Goto, st, tr, between}

unfoldable pub cases_25 : List (ℕ × (ℕ → Goto))
cases_25 =
    (
      101,
      λ c.
          if c == 58
          then st 180
          else (if ltb c 65
              then (if between 48 57 c then st 102 else st 0)
              else if ltb 70 c
              then (if between 97 102 c then st 102 else st 0)
              else st 102),
    )
    ∷ (
      102,
      λ c.
          if c == 58
          then st 106
          else (if ltb c 65
              then (if between 48 57 c then st 103 else st 0)
              else if ltb 70 c
              then (if between 97 102 c then st 103 else st 0)
              else st 103),
    )
    ∷ (
      103,
      λ c.
          if c == 58
          then st 106
          else (if ltb c 65
              then (if between 48 57 c then st 104 else st 0)
              else if ltb 70 c
              then (if between 97 102 c then st 104 else st 0)
              else st 104),
    )
    ∷ (
      104,
      λ c.
          if c == 58
          then st 106
          else (if ltb c 65
              then (if between 48 57 c then st 105 else st 0)
              else if ltb 70 c
              then (if between 97 102 c then st 105 else st 0)
              else st 105),
    )
    ∷ (105, λ c. if c == 58 then st 106 else st 0)
    ∷ (
      106,
      λ c.
          if c == 58
          then st 166
          else (if ltb c 65
              then (if between 48 57 c then st 107 else st 0)
              else if ltb 70 c
              then (if between 97 102 c then st 107 else st 0)
              else st 107),
    )
    ∷ (
      107,
      λ c.
          if c == 58
          then st 111
          else (if ltb c 65
              then (if between 48 57 c then st 108 else st 0)
              else if ltb 70 c
              then (if between 97 102 c then st 108 else st 0)
              else st 108),
    )
    ∷ (
      108,
      λ c.
          if c == 58
          then st 111
          else (if ltb c 65
              then (if between 48 57 c then st 109 else st 0)
              else if ltb 70 c
              then (if between 97 102 c then st 109 else st 0)
              else st 109),
    )
    ∷ (
      109,
      λ c.
          if c == 58
          then st 111
          else (if ltb c 65
              then (if between 48 57 c then st 110 else st 0)
              else if ltb 70 c
              then (if between 97 102 c then st 110 else st 0)
              else st 110),
    )
    ∷ (110, λ c. if c == 58 then st 111 else st 0)
    ∷ (
      111,
      λ c.
          if c == 58
          then st 152
          else (if ltb c 65
              then (if between 48 57 c then st 112 else st 0)
              else if ltb 70 c
              then (if between 97 102 c then st 112 else st 0)
              else st 112),
    )
    ∷ []

unfoldable pub cases_26 : List (ℕ × (ℕ → Goto))
cases_26 =
    (
      112,
      λ c.
          if c == 58
          then st 116
          else (if ltb c 65
              then (if between 48 57 c then st 113 else st 0)
              else if ltb 70 c
              then (if between 97 102 c then st 113 else st 0)
              else st 113),
    )
    ∷ (
      113,
      λ c.
          if c == 58
          then st 116
          else (if ltb c 65
              then (if between 48 57 c then st 114 else st 0)
              else if ltb 70 c
              then (if between 97 102 c then st 114 else st 0)
              else st 114),
    )
    ∷ (
      114,
      λ c.
          if c == 58
          then st 116
          else (if ltb c 65
              then (if between 48 57 c then st 115 else st 0)
              else if ltb 70 c
              then (if between 97 102 c then st 115 else st 0)
              else st 115),
    )
    ∷ (115, λ c. if c == 58 then st 116 else st 0)
    ∷ (
      116,
      λ c.
          if c == 48
          then st 117
          else if c == 49
          then st 143
          else if c == 50
          then st 146
          else if c == 58
          then st 150
          else if ltb c 65
          then (if between 51 57 c then st 149 else st 0)
          else if ltb 70 c
          then (if between 97 102 c then st 151 else st 0)
          else st 151,
    )
    ∷ (
      117,
      λ c.
          if c == 46
          then st 118
          else if c == 58
          then st 139
          else if ltb c 65
          then (if between 48 57 c then st 136 else st 0)
          else if ltb 70 c
          then (if between 97 102 c then st 136 else st 0)
          else st 136,
    )
    ∷ (
      118,
      λ c.
          if c == 48
          then st 119
          else if c == 49
          then st 132
          else if c == 50
          then st 134
          else if between 51 57 c
          then st 133
          else st 0,
    )
    ∷ (119, λ c. if c == 46 then st 120 else st 0)
    ∷ (
      120,
      λ c.
          if c == 48
          then st 121
          else if c == 49
          then st 128
          else if c == 50
          then st 130
          else if between 51 57 c
          then st 129
          else st 0,
    )
    ∷ (121, λ c. if c == 46 then st 122 else st 0)
    ∷ (
      122,
      λ c.
          if c == 48
          then st 123
          else if c == 49
          then st 124
          else if c == 50
          then st 126
          else if between 51 57 c
          then st 125
          else st 0,
    )
    ∷ (123, λ c. if c == 93 then tr ipv6_reference 237 else st 0)
    ∷ []
