-- ===== src/IpParser/Lengths/Weight.antt =====
-- ext/asyncengine/ip_parser.c: how many bytes the machine still reads from a state at most. After an
-- opening bracket 100 is added. The weight is looked up by halving the range of the states.
use async_engine.Base.{
  Bool, List, Option, [], if◌then◌else◌, leb, ltb, none, some, true, ℕ, ◌&&◌, ◌++◌, ◌==◌, ◌||◌, ◌∷◌,
  ◌≡◌, false,
}
use async_engine.IpMachine.Moves.{Goto}
use async_engine.Ruby.{IpType, ipv6_reference}
use async_engine.IpParser.OpenEnd.{below}

unfoldable pub weight : ℕ → ℕ
weight n =
    (if ltb n 154
      then (if ltb n 76
          then (if ltb n 38
              then (if ltb n 19
                  then (if ltb n 9
                      then (if ltb n 4
                          then (if ltb n 2
                              then (if ltb n 1 then 0 else 47)
                              else (if ltb n 3 then 44 else 11))
                          else (if ltb n 6
                              then (if ltb n 5 then 8 else 7)
                              else (if ltb n 7 then 4 else (if ltb n 8 then 3 else 6))))
                      else (if ltb n 14
                          then (if ltb n 11
                              then (if ltb n 10 then 5 else 6)
                              else (if ltb n 12 then 5 else (if ltb n 13 then 10 else 9)))
                          else (if ltb n 16
                              then (if ltb n 15 then 10 else 9)
                              else (if ltb n 17 then 43 else (if ltb n 18 then 42 else 41)))))
                  else (if ltb n 28
                      then (if ltb n 23
                          then (if ltb n 21
                              then (if ltb n 20 then 40 else 39)
                              else (if ltb n 22 then 38 else 37))
                          else (if ltb n 25
                              then (if ltb n 24 then 36 else 35)
                              else (if ltb n 26 then 34 else (if ltb n 27 then 33 else 32))))
                      else (if ltb n 33
                          then (if ltb n 30
                              then (if ltb n 29 then 31 else 30)
                              else (if ltb n 31 then 29 else (if ltb n 32 then 28 else 27)))
                          else (if ltb n 35
                              then (if ltb n 34 then 26 else 25)
                              else (if ltb n 36 then 24 else (if ltb n 37 then 23 else 22))))))
              else (if ltb n 57
                  then (if ltb n 47
                      then (if ltb n 42
                          then (if ltb n 40
                              then (if ltb n 39 then 21 else 20)
                              else (if ltb n 41 then 19 else 18))
                          else (if ltb n 44
                              then (if ltb n 43 then 17 else 16)
                              else (if ltb n 45 then 15 else (if ltb n 46 then 12 else 11))))
                      else (if ltb n 52
                          then (if ltb n 49
                              then (if ltb n 48 then 8 else 7)
                              else (if ltb n 50 then 4 else (if ltb n 51 then 3 else 6)))
                          else (if ltb n 54
                              then (if ltb n 53 then 5 else 6)
                              else (if ltb n 55 then 5 else (if ltb n 56 then 10 else 9)))))
                  else (if ltb n 66
                      then (if ltb n 61
                          then (if ltb n 59
                              then (if ltb n 58 then 10 else 9)
                              else (if ltb n 60 then 7 else 6))
                          else (if ltb n 63
                              then (if ltb n 62 then 5 else 4)
                              else (if ltb n 64 then 14 else (if ltb n 65 then 13 else 12))))
                      else (if ltb n 71
                          then (if ltb n 68
                              then (if ltb n 67 then 14 else 13)
                              else (if ltb n 69 then 12 else (if ltb n 70 then 13 else 8)))
                          else (if ltb n 73
                              then (if ltb n 72 then 4 else 15)
                              else (if ltb n 74 then 20 else (if ltb n 75 then 25 else 30)))))))
          else (if ltb n 115
              then (if ltb n 96
                  then (if ltb n 86
                      then (if ltb n 80
                          then (if ltb n 78
                              then (if ltb n 77 then 44 else 43)
                              else (if ltb n 79 then 42 else 44))
                          else (if ltb n 83
                              then (if ltb n 82 then 43 else 44)
                              else (if ltb n 84 then 41 else (if ltb n 85 then 35 else 44))))
                      else (if ltb n 91
                          then (if ltb n 88
                              then (if ltb n 87 then 146 else 145)
                              else (if ltb n 89 then 144 else (if ltb n 90 then 143 else 142)))
                          else (if ltb n 93
                              then (if ltb n 92 then 141 else 140)
                              else (if ltb n 94 then 139 else (if ltb n 95 then 138 else 137)))))
                  else (if ltb n 105
                      then (if ltb n 100
                          then (if ltb n 98
                              then (if ltb n 97 then 136 else 135)
                              else (if ltb n 99 then 134 else 133))
                          else (if ltb n 102
                              then (if ltb n 101 then 132 else 131)
                              else (if ltb n 103 then 130 else (if ltb n 104 then 129 else 128))))
                      else (if ltb n 110
                          then (if ltb n 107
                              then (if ltb n 106 then 127 else 126)
                              else (if ltb n 108 then 125 else (if ltb n 109 then 124 else 123)))
                          else (if ltb n 112
                              then (if ltb n 111 then 122 else 121)
                              else (if ltb n 113 then 120 else (if ltb n 114 then 119 else 118))))))
              else (if ltb n 134
                  then (if ltb n 124
                      then (if ltb n 119
                          then (if ltb n 117
                              then (if ltb n 116 then 117 else 116)
                              else (if ltb n 118 then 113 else 112))
                          else (if ltb n 121
                              then (if ltb n 120 then 109 else 108)
                              else (if ltb n 122 then 105 else (if ltb n 123 then 104 else 101))))
                      else (if ltb n 129
                          then (if ltb n 126
                              then (if ltb n 125 then 103 else 102)
                              else (if ltb n 127 then 103 else (if ltb n 128 then 102 else 107)))
                          else (if ltb n 131
                              then (if ltb n 130 then 106 else 107)
                              else (if ltb n 132 then 106 else (if ltb n 133 then 111 else 110)))))
                  else (if ltb n 144
                      then (if ltb n 139
                          then (if ltb n 136
                              then (if ltb n 135 then 111 else 110)
                              else (if ltb n 137 then 108 else (if ltb n 138 then 107 else 106)))
                          else (if ltb n 141
                              then (if ltb n 140 then 105 else 104)
                              else (if ltb n 142 then 103 else (if ltb n 143 then 102 else 115))))
                      else (if ltb n 149
                          then (if ltb n 146
                              then (if ltb n 145 then 114 else 113)
                              else (if ltb n 147 then 115 else (if ltb n 148 then 114 else 113)))
                          else (if ltb n 151
                              then (if ltb n 150 then 114 else 105)
                              else (if ltb n 152
                                  then 109
                                  else (if ltb n 153 then 116 else 113))))))))
      else (if ltb n 241
          then (if ltb n 196
              then (if ltb n 173
                  then (if ltb n 163
                      then (if ltb n 158
                          then (if ltb n 156
                              then (if ltb n 155 then 108 else 107)
                              else (if ltb n 157 then 106 else 105))
                          else (if ltb n 160
                              then (if ltb n 159 then 115 else 114)
                              else (if ltb n 161 then 113 else (if ltb n 162 then 115 else 114))))
                      else (if ltb n 168
                          then (if ltb n 165
                              then (if ltb n 164 then 113 else 114)
                              else (if ltb n 166 then 109 else (if ltb n 167 then 121 else 120)))
                          else (if ltb n 170
                              then (if ltb n 169 then 119 else 118)
                              else (if ltb n 171 then 117 else (if ltb n 172 then 116 else 120)))))
                  else (if ltb n 184
                      then (if ltb n 178
                          then (if ltb n 175
                              then (if ltb n 174 then 119 else 118)
                              else (if ltb n 176 then 120 else 119))
                          else (if ltb n 181
                              then (if ltb n 180 then 120 else 126)
                              else (if ltb n 182 then 125 else (if ltb n 183 then 124 else 123))))
                      else (if ltb n 189
                          then (if ltb n 186
                              then (if ltb n 185 then 122 else 121)
                              else (if ltb n 187 then 125 else (if ltb n 188 then 124 else 123)))
                          else (if ltb n 192
                              then (if ltb n 190 then 125 else 124)
                              else (if ltb n 194 then 125 else (if ltb n 195 then 131 else 130))))))
              else (if ltb n 217
                  then (if ltb n 206
                      then (if ltb n 200
                          then (if ltb n 198
                              then (if ltb n 197 then 129 else 128)
                              else (if ltb n 199 then 127 else 126))
                          else (if ltb n 202
                              then (if ltb n 201 then 130 else 129)
                              else (if ltb n 203 then 128 else (if ltb n 204 then 130 else 129))))
                      else (if ltb n 212
                          then (if ltb n 209
                              then (if ltb n 208 then 130 else 136)
                              else (if ltb n 210 then 135 else (if ltb n 211 then 134 else 133)))
                          else (if ltb n 214
                              then (if ltb n 213 then 132 else 131)
                              else (if ltb n 215 then 135 else (if ltb n 216 then 134 else 133)))))
                  else (if ltb n 229
                      then (if ltb n 224
                          then (if ltb n 220
                              then (if ltb n 218 then 135 else 134)
                              else (if ltb n 222 then 135 else (if ltb n 223 then 142 else 141)))
                          else (if ltb n 226
                              then (if ltb n 225 then 140 else 139)
                              else (if ltb n 227 then 138 else (if ltb n 228 then 137 else 136))))
                      else (if ltb n 235
                          then (if ltb n 231
                              then (if ltb n 230 then 140 else 139)
                              else (if ltb n 232 then 138 else (if ltb n 233 then 140 else 139)))
                          else (if ltb n 238
                              then (if ltb n 237 then 140 else 0)
                              else (if ltb n 239 then 2 else (if ltb n 240 then 1 else 2)))))))
          else (if ltb n 281
              then (if ltb n 260
                  then (if ltb n 250
                      then (if ltb n 245
                          then (if ltb n 243
                              then (if ltb n 242 then 1 else 2)
                              else (if ltb n 244 then 1 else 2))
                          else (if ltb n 247
                              then (if ltb n 246 then 1 else 3)
                              else (if ltb n 248 then 2 else (if ltb n 249 then 1 else 4))))
                      else (if ltb n 255
                          then (if ltb n 252
                              then (if ltb n 251 then 15 else 12)
                              else (if ltb n 253 then 7 else (if ltb n 254 then 6 else 5)))
                          else (if ltb n 257
                              then (if ltb n 256 then 14 else 13)
                              else (if ltb n 258 then 12 else (if ltb n 259 then 14 else 13)))))
                  else (if ltb n 269
                      then (if ltb n 264
                          then (if ltb n 262
                              then (if ltb n 261 then 12 else 13)
                              else (if ltb n 263 then 8 else 20))
                          else (if ltb n 266
                              then (if ltb n 265 then 19 else 18)
                              else (if ltb n 267 then 17 else (if ltb n 268 then 16 else 19))))
                      else (if ltb n 276
                          then (if ltb n 271
                              then (if ltb n 270 then 18 else 17)
                              else (if ltb n 272 then 19 else (if ltb n 274 then 18 else 19)))
                          else (if ltb n 278
                              then (if ltb n 277 then 25 else 24)
                              else (if ltb n 279 then 23 else (if ltb n 280 then 22 else 21))))))
              else (if ltb n 304
                  then (if ltb n 292
                      then (if ltb n 285
                          then (if ltb n 283
                              then (if ltb n 282 then 24 else 23)
                              else (if ltb n 284 then 22 else 24))
                          else (if ltb n 289
                              then (if ltb n 287 then 23 else 24)
                              else (if ltb n 290 then 30 else (if ltb n 291 then 29 else 28))))
                      else (if ltb n 297
                          then (if ltb n 294
                              then (if ltb n 293 then 27 else 26)
                              else (if ltb n 295 then 29 else (if ltb n 296 then 28 else 27)))
                          else (if ltb n 300
                              then (if ltb n 298 then 29 else 28)
                              else (if ltb n 302 then 29 else (if ltb n 303 then 35 else 34)))))
                  else (if ltb n 316
                      then (if ltb n 309
                          then (if ltb n 306
                              then (if ltb n 305 then 33 else 32)
                              else (if ltb n 307 then 31 else (if ltb n 308 then 34 else 33)))
                          else (if ltb n 311
                              then (if ltb n 310 then 32 else 34)
                              else (if ltb n 313 then 33 else (if ltb n 315 then 34 else 40))))
                      else (if ltb n 321
                          then (if ltb n 318
                              then (if ltb n 317 then 39 else 38)
                              else (if ltb n 319 then 37 else (if ltb n 320 then 36 else 39)))
                          else (if ltb n 323
                              then (if ltb n 322 then 38 else 37)
                              else (if ltb n 324 then 39 else (if ltb n 326 then 38 else 39)))))))))

-- A transition, from a state of weight `w` to one of weight `v`.
unfoldable pub move_fits : ℕ → Option IpType → ℕ → Bool
move_fits w none v = if ltb w 100 then ltb v w else (leb 100 v && ltb v w)
move_fits w (some ipv6_reference) v = leb 101 w && (v == 0)
move_fits w (some _) v = ltb w 100 && ltb v w

unfoldable pub fits : ℕ → Goto → Bool
fits w (action, next) = if next == 0 then true else (ltb 1 next && move_fits w action (weight next))

-- The first byte: 44 more may follow it, or 46 where it is a bracket.
unfoldable pub first_fits : Goto → Bool
first_fits (none, next) =
    if next == 0
    then true
    else (ltb 1 next && (leb (weight next) 44 || (leb 100 (weight next) && leb (weight next) 146)))
first_fits (some t, next) = next == 0

-- A state's case fits at every byte.
unfoldable pub state_fits : ℕ → (ℕ → Goto) → Bool
state_fits cs body =
    if cs == 1
    then below (λ c. first_fits (body c)) 256
    else below (λ c. fits (weight cs) (body c)) 256

unfoldable pub all_fit : List (ℕ × (ℕ → Goto)) → Bool
all_fit [] = true
all_fit ((cs, body) ∷ rest) = state_fits cs body && all_fit rest

and_then_rest : (b x y : Bool) → b && x ≡ true → (x ≡ true → y ≡ true) → b && y ≡ true
and_then_rest true x y h k = k h
and_then_rest false x y h k = h

pub all_fit-append :
    (xs ys : List (ℕ × (ℕ → Goto)))
    → all_fit xs ≡ true
    → all_fit ys ≡ true
    → all_fit (xs ++ ys) ≡ true
unfolding all_fit
all_fit-append [] ys h k = k
all_fit-append ((cs, body) ∷ xs) ys h k =
    and_then_rest (state_fits cs body) (all_fit xs) _ h (λ e. all_fit-append xs ys e k)
