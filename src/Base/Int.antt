-- ===== src/Base/Int.antt =====
-- Go's signed integers: values in ℤ, over the native numbers, and wrap-around written out.
use native.Mathlib.Nat.{mod-eq_of_lt}
use easycall.Base.{
  Bytes, decimal, ◌∷◌, ℕ, suc, ◌+◌, ◌-◌, ◌%◌, ◌^◌, ◌≤◌, ◌<◌, ◌≡◌, ◌∙◌, Bool, arith, ltb, leb, ◌==◌,
  if◌then◌else◌, Option, none, List, get_elem?,
}

-- `negsuc n` is -(n + 1).
pub data ℤ : Type 0 where
  pos : ℕ → ℤ
  negsuc : ℕ → ℤ

abbrev pub pos_part : ℤ → ℕ
pos_part (pos n) = n
pos_part (negsuc n) = 0

abbrev pub neg_part : ℤ → ℕ
neg_part (pos n) = 0
neg_part (negsuc n) = suc n

-- a - b, as an integer.
abbrev pub sub_ℕ : ℕ → ℕ → ℤ
sub_ℕ a b = if leb b a then pos (a - b) else negsuc (b - a - 1)

infixl 65 ◌+ℤ◌ ◌-ℤ◌
infix 50 ◌≤ℤ◌ ◌<ℤ◌
unfoldable pub ◌+ℤ◌ : ℤ → ℤ → ℤ
a +ℤ b = sub_ℕ (pos_part a + pos_part b) (neg_part a + neg_part b)

unfoldable pub ◌-ℤ◌ : ℤ → ℤ → ℤ
a -ℤ b = sub_ℕ (pos_part a + neg_part b) (neg_part a + pos_part b)

abbrev pub ◌≤ℤ◌ : ℤ → ℤ → Type 0
a ≤ℤ b = pos_part a + neg_part b ≤ pos_part b + neg_part a

abbrev pub ◌<ℤ◌ : ℤ → ℤ → Type 0
a <ℤ b = pos_part a + neg_part b < pos_part b + neg_part a

abbrev pub ltb_ℤ : ℤ → ℤ → Bool
ltb_ℤ a b = ltb (pos_part a + neg_part b) (pos_part b + neg_part a)

abbrev pub leb_ℤ : ℤ → ℤ → Bool
leb_ℤ a b = leb (pos_part a + neg_part b) (pos_part b + neg_part a)

abbrev pub eq_ℤ : ℤ → ℤ → Bool
eq_ℤ a b = pos_part a + neg_part b == pos_part b + neg_part a

pub +ℤ_parts :
    (a b : ℤ)
    → pos_part (a +ℤ b) + neg_part a + neg_part b ≡ neg_part (a +ℤ b) + pos_part a + pos_part b
unfolding ◌+ℤ◌
+ℤ_parts a b = ground arith

pub eq_of_parts : (a b : ℤ) → pos_part a + neg_part b ≡ pos_part b + neg_part a → a ≡ b
eq_of_parts a b h = ground arith

-- The values of a signed integer type that reaches from -half to half - 1.
abbrev pub IsInt : ℕ → ℤ → Type 0
IsInt half z = (pos_part z < half) × (neg_part z ≤ half)

residue : ℕ → ℤ → ℕ
residue half (pos n) = n % (half + half)
residue half (negsuc n) = half + half - 1 - n % (half + half)

signed : ℕ → ℕ → ℤ
signed half w = if ltb w half then pos w else negsuc (half + half - 1 - w)

-- The value that two's complement leaves of an integer.
unfoldable pub wrap : ℕ → ℤ → ℤ
unfolding residue signed
wrap half z = signed half (residue half z)

pub wrap_lem : (half : ℕ) (z : ℤ) → IsInt half z → wrap half z ≡ z
unfolding wrap
wrap_lem half (pos n) h = ground (arith, mod-eq_of_lt {n = n} {m = half + half})
wrap_lem half (negsuc n) h = ground (arith, mod-eq_of_lt {n = n} {m = half + half})

-- int64 (and int, on a 64-bit platform) and int32.
abbrev pub half64 : ℕ
half64 = 2 ^ 63

abbrev pub half32 : ℕ
half32 = 2 ^ 31

abbrev pub add64 : ℤ → ℤ → ℤ
add64 a b = wrap half64 (a +ℤ b)

abbrev pub sub64 : ℤ → ℤ → ℤ
sub64 a b = wrap half64 (a -ℤ b)

abbrev pub add32 : ℤ → ℤ → ℤ
add32 a b = wrap half32 (a +ℤ b)

-- Go's `%`: the remainder has the sign of the dividend.
unfoldable pub rem : ℤ → ℕ → ℤ
rem (pos n) m = pos (n % m)
rem (negsuc n) m = sub_ℕ 0 (suc n % m)

-- `xs[i]` at a signed index.
abbrev pub at_index {ℓ} : {A : Type ℓ} → List A → ℤ → Option A
at_index xs (pos i) = get_elem? xs i
at_index xs (negsuc i) = none

pub add32_one : (k : ℕ) → suc k < half32 → add32 (pos k) (pos 1) ≡ pos (suc k)
unfolding ◌+ℤ◌
add32_one k h = wrap_lem half32 (pos k +ℤ pos 1) (ground arith) ∙ (ground arith)

pub add32_back : (k : ℕ) → suc k < half32 → add32 (pos (suc k)) (negsuc 0) ≡ pos k
unfolding ◌+ℤ◌
add32_back k h = wrap_lem half32 (pos (suc k) +ℤ negsuc 0) (ground arith) ∙ (ground arith)

-- `strconv.Itoa`; a number below 2^64 has at most 20 digits.
unfoldable pub itoa : ℤ → Bytes
itoa (pos n) = decimal 20 n
itoa (negsuc n) = 45 ∷ decimal 20 (suc n)
