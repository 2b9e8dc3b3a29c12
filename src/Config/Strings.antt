-- ===== src/Config/Strings.antt =====
-- The functions of Go's `strings` and `strconv` that the configuration calls. A separator is one
-- character, and only the values of the parsers are used.
use easycall.Base.{
  ℕ, zero, suc, ◌+◌, ◌-◌, ◌*◌, ◌^◌, Bytes, Bool, not, ◌&&◌, ◌||◌, Option, none, some, List, [], ◌∷◌,
  text, eq_bytes, ltb, leb, ◌==◌, if◌then◌else◌,
}
use easycall.Base.Int.{ℤ, pos, negsuc}

-- `strings.Index`
unfoldable pub index : ℕ → Bytes → Option ℕ
index c [] = none
index c (x ∷ xs) =
    let rest = index c xs in
    if x == c then some 0 else elim rest [ none ↦ none | some i ↦ some (suc i) ]

unfoldable pub push_front : ℕ → List Bytes → List Bytes
push_front x [] = (x ∷ []) ∷ []
push_front x (s ∷ rest) = (x ∷ s) ∷ rest

-- `strings.Split`
unfoldable pub split : ℕ → Bytes → List Bytes
split c [] = [] ∷ []
split c (x ∷ xs) = let rest = split c xs in if x == c then [] ∷ rest else push_front x rest

-- `unicode.IsSpace`
unfoldable pub is_space : ℕ → Bool
is_space c =
    (leb 9 c && leb c 13)
    || (c == 32
        || (c == 133
            || (c == 160
                || (c == 5760
                    || ((leb 8192 c && leb c 8202)
                        || (c == 8232
                            || (c == 8233 || (c == 8239 || (c == 8287 || c == 12288)))))))))

unfoldable pub trim_left : Bytes → Bytes
trim_left [] = []
trim_left (c ∷ cs) = let rest = trim_left cs in if is_space c then rest else c ∷ cs

unfoldable pub trim_right : Bytes → Bytes
trim_right [] = []
trim_right (c ∷ cs) =
    let rest = trim_right cs in
    elim rest [ [] ↦ if is_space c then [] else c ∷ [] | d ∷ ds ↦ c ∷ d ∷ ds ]

-- `strings.TrimSpace`
unfoldable pub trim_space : Bytes → Bytes
trim_space s = trim_right (trim_left s)

abbrev pub max_uint64 : ℕ
max_uint64 = 2 ^ 64 - 1

abbrev pub is_digit : ℕ → Bool
is_digit c = leb 48 c && leb c 57

-- The loop of `strconv.ParseUint`: 0 at a character that is no digit, the greatest value where the
-- number is out of range.
unfoldable pub parse_digits : ℕ → Bytes → ℕ
parse_digits n [] = n
parse_digits n (c ∷ cs) =
    let m = n * 10 + (c - 48) in
    let rest = parse_digits m cs in
    if not (is_digit c) then 0 else (if ltb max_uint64 m then max_uint64 else rest)

-- `strconv.ParseUint(s, 10, 0)`
unfoldable pub parse_uint : Bytes → ℕ
parse_uint s = parse_digits 0 s

-- The range of int64, on both sides of 0.
abbrev pub clamp_pos : ℕ → ℤ
clamp_pos n = if ltb n (2 ^ 63) then pos n else pos (2 ^ 63 - 1)

abbrev pub clamp_neg : ℕ → ℤ
clamp_neg zero = pos 0
clamp_neg (suc n) = if ltb n (2 ^ 63) then negsuc n else negsuc (2 ^ 63 - 1)

-- `strconv.ParseInt(s, 10, 0)`
unfoldable pub parse_int : Bytes → ℤ
parse_int [] = pos 0
parse_int (c ∷ cs) =
    if c == 45
    then clamp_neg (parse_uint cs)
    else (if c == 43 then clamp_pos (parse_uint cs) else clamp_pos (parse_uint (c ∷ cs)))

-- `strconv.ParseBool`
unfoldable pub parse_bool : Bytes → Bool
parse_bool s =
    eq_bytes s (text "1")
    || (eq_bytes s (text "t")
        || (eq_bytes s (text "T")
            || (eq_bytes s (text "true")
                || (eq_bytes s (text "TRUE") || eq_bytes s (text "True")))))
