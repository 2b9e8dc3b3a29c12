-- ===== src/Config/Values.antt =====
-- What the typed getters make of a value.
use easycall.Base.{
  ℕ, zero, suc, ◌+◌, ◌-◌, ◌*◌, ◌≤◌, ◌<◌, ◌≡◌, ap, ◌∙◌, Bytes, true, some, List, [], ◌∷◌, ◌++◌, map,
  lookup, bytes_key, ltb, ◌==◌, if◌then◌else◌, Bool-cases, inl, inr, arith,
}
use easycall.Base.Int.{IsInt, half64}
use easycall.Config.{EasyConfig, get_parsed, get_string_list, get_uint64}
use easycall.Config.Strings.{
  split, parse_digits, parse_uint, parse_int, clamp_pos, clamp_neg, max_uint64, is_digit,
}
use easycall.Config.Lines.{Lacks, split_one, split-append}

-- The number that decimal digits are, after a number.
abbrev pub value : ℕ → List ℕ → ℕ
value m [] = m
value m (d ∷ ds) = value (m * 10 + d) ds

abbrev pub EachIsDigit : List ℕ → Type 0
EachIsDigit [] = Unit {0}
EachIsDigit (d ∷ ds) = (d < 10) × EachIsDigit ds

abbrev pub numeral : List ℕ → Bytes
numeral ds = map (λ d. 48 + d) ds

abbrev pub clamp : ℕ → ℕ
clamp n = if ltb max_uint64 n then max_uint64 else n

value_ge : (m : ℕ) (ds : List ℕ) → m ≤ value m ds
value_ge m [] = omega arith
value_ge m (d ∷ ds) = omega (arith, value_ge (m * 10 + d) ds)

digit_back : (d : ℕ) → 48 + d - 48 ≡ d
digit_back d = omega arith

digit_is : {d : ℕ} → d < 10 → is_digit (48 + d) ≡ true
digit_is h = ground arith

parse_digits-value :
    (m : ℕ) (ds : List ℕ)
    → EachIsDigit ds
    → m ≤ max_uint64
    → parse_digits m (numeral ds) ≡ clamp (value m ds)
unfolding parse_digits
parse_digits-value m [] h le = ground arith
parse_digits-value m (d ∷ ds) (h, hs) le =
    let ge = value_ge (m * 10 + d) ds in
    elim (Bool-cases (ltb max_uint64 (m * 10 + d))) [
      | inl out ↦ rw (digit_is h, digit_back d, out) (ground (arith, ge, out))
      | inr within ↦
          rw (digit_is h, digit_back d, within)
            (parse_digits-value (m * 10 + d) ds hs (ground (arith, within)))
    ]

parse_digits-bound : (m : ℕ) (s : Bytes) → m ≤ max_uint64 → parse_digits m s ≤ max_uint64
unfolding parse_digits
parse_digits-bound m [] le = le
parse_digits-bound m (c ∷ s) le = ground (arith, parse_digits-bound (m * 10 + (c - 48)) s)

clamp_pos-IsInt : (n : ℕ) → IsInt half64 (clamp_pos n)
clamp_pos-IsInt n = ground arith

clamp_neg-IsInt : (n : ℕ) → IsInt half64 (clamp_neg n)
clamp_neg-IsInt zero = ground arith
clamp_neg-IsInt (suc n) = ground arith

-- Of any text, the parsers make a uint64 and an int64.
pub parse-bound : (s : Bytes) → (parse_uint s ≤ max_uint64) × IsInt half64 (parse_int s)
unfolding parse_uint parse_int
parse-bound [] = (parse_digits-bound 0 [] (omega arith), ground arith)
parse-bound (c ∷ s) = (
  parse_digits-bound 0 (c ∷ s) (omega arith),
  elim (Bool-cases (c == 45)) [
    | inl m ↦ rw m (clamp_neg-IsInt (parse_uint s))
    | inr m ↦ elim (Bool-cases (c == 43)) [
      | inl p ↦ rw (m, p) (clamp_pos-IsInt (parse_uint s))
      | inr p ↦ rw (m, p) (clamp_pos-IsInt (parse_uint (c ∷ s)))
    ]
  ],
)

-- A value of decimal digits, any number of them, reads as its number, or as the greatest uint64
-- where the number is greater.
pub get_uint64-numeral :
    (name : Bytes) (d : ℕ) (ds : List ℕ) (ec : EasyConfig)
    → EachIsDigit ds
    → lookup name ec.container ≡ some (numeral ds)
    → get_uint64 name d ec ≡ clamp (value 0 ds)
unfolding get_parsed parse_uint
get_uint64-numeral name d ds ec h e = rw (get_parsed, e) (parse_digits-value 0 ds h (omega arith))

abbrev pub EachLacks : ℕ → List Bytes → Type 0
EachLacks c [] = Unit {0}
EachLacks c (s ∷ ss) = Lacks c s × EachLacks c ss

abbrev pub join : ℕ → Bytes → List Bytes → Bytes
join c x [] = x
join c x (y ∷ ys) = x ++ c ∷ join c y ys

split-join :
    (c : ℕ) (x : Bytes) (xs : List Bytes)
    → Lacks c x
    → EachLacks c xs
    → split c (join c x xs) ≡ x ∷ xs
split-join c x [] h hs = split_one c x h
split-join c x (y ∷ ys) h (k, ks) =
    split-append c x (join c y ys) h ∙ ap (◌∷◌ x) (split-join c y ys k ks)

-- A list of one text or more, none with a comma, written with commas between, reads back.
pub get_string_list-join :
    (name x : Bytes) (xs : List Bytes) (ec : EasyConfig)
    → Lacks 44 x
    → EachLacks 44 xs
    → lookup name ec.container ≡ some (join 44 x xs)
    → get_string_list name ec ≡ x ∷ xs
unfolding get_parsed
get_string_list-join name x xs ec h hs e = rw (get_parsed, e) (split-join 44 x xs h hs)
