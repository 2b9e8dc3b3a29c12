-- ===== src/Base/Member.antt =====
-- Which numbers a list has, and what two appends that are equal have in common.
use Prim.Native.Nat.{ℕ}
use mathlib.Core.Path.{◌≡◌, refl, ap}
use mathlib.Core.Bool.{Bool, false, ◌||◌}
use mathlib.Core.List.{List, [], ◌∷◌, ◌++◌}
use native.Mathlib.Omega.{arith}
use easycall.Base.Lists.{length, length-append}
use easycall.Base.Tests.{◌==◌, ==_iff}

abbrev pub has : ℕ → List ℕ → Bool
has a [] = false
has a (p ∷ ps) = (a == p) || has a ps

pub has-append : (a : ℕ) (xs ys : List ℕ) → has a (xs ++ ys) ≡ (has a xs || has a ys)
has-append a [] ys = refl
has-append a (x ∷ xs) ys = ground (arith, has-append a xs ys)

pub has-snoc : (a q : ℕ) (ps : List ℕ) → has a (ps ++ q ∷ []) ≡ (has a ps || (a == q))
has-snoc a q [] = ground arith
has-snoc a q (p ∷ ps) = ground (arith, has-snoc a q ps)

-- What stands before the last `c` of two equal lists is equal.
pub before_last :
    (c : ℕ) (s s' d d' : List ℕ)
    → has c d ≡ false
    → has c d' ≡ false
    → s ++ c ∷ d ≡ s' ++ c ∷ d'
    → s ≡ s'
before_last c [] [] d d' h h' e = refl
before_last c [] (x ∷ s') d d' h h' e =
    let tail : d ≡ s' ++ c ∷ d' = cc in ground (arith, tail, has-append c s' (c ∷ d'), ==_iff c c)
before_last c (x ∷ s) [] d d' h h' e =
    let tail : s ++ c ∷ d ≡ d' = cc in ground (arith, tail, has-append c s (c ∷ d), ==_iff c c)
before_last c (x ∷ s) (x' ∷ s') d d' h h' e =
    let head : x ≡ x' = cc in let rest : s ≡ s' = before_last c s s' d d' h h' (cc) in cc

pub append_cancel_right : (xs ys zs : List ℕ) → xs ++ zs ≡ ys ++ zs → xs ≡ ys
append_cancel_right [] [] zs e = refl
append_cancel_right [] (y ∷ ys) zs e =
    let n : length zs ≡ length (y ∷ (ys ++ zs)) = ap length e in
    absurd (omega (arith, n, length-append ys zs))
append_cancel_right (x ∷ xs) [] zs e =
    let n : length (x ∷ (xs ++ zs)) ≡ length zs = ap length e in
    absurd (omega (arith, n, length-append xs zs))
append_cancel_right (x ∷ xs) (y ∷ ys) zs e =
    let head : x ≡ y = cc in let rest : xs ≡ ys = append_cancel_right xs ys zs (cc) in cc
