-- ===== src/Base/Decimal.antt =====
-- `strconv.Itoa`.
use mathlib.Core.List.{[], ◌∷◌, ◌++◌}
use Prim.Native.Nat.{ℕ, zero, suc, ◌+◌, ◌/◌, ◌%◌}
use easycall.Base.Lists.{Bytes}
use easycall.Base.Tests.{ltb, if◌then◌else◌}

-- The decimal digits of a number, as characters; the fuel bounds their number.
unfoldable pub decimal : ℕ → ℕ → Bytes
decimal zero n = []
decimal (suc fuel) n =
    let rest = decimal fuel (n / 10) in
    if ltb n 10 then (48 + n) ∷ [] else rest ++ (48 + n % 10) ∷ []
