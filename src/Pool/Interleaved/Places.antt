-- ===== src/Pool/Interleaved/Places.antt =====
-- What a goroutine has of the size of a pool, by its place.
use easycall.Base.{
  ℕ, zero, suc, ◌+◌, ◌≤◌, ◌≡◌, ap, some, List, [], ◌∷◌, get_elem?, set, length, arith,
}
use easycall.Pool.Interleaved.{
  At, idle, entering, receiving, comparing, waiting, creating, dropping, leaving, adding, got,
  expired, holding, sending, crashed_with, shutting, stopping, draining, drained, emptying, emptied,
  crashed,
}

-- 1 where the goroutine has a resource that the size counts.
abbrev pub counted : At → ℕ
counted dropping = 1
counted leaving = 1
counted (got conn) = 1
counted (expired conn) = 1
counted (holding conn) = 1
counted (sending conn) = 1
counted (crashed_with conn) = 1
counted drained = 1
counted emptied = 1
counted _ = 0

-- 1 where the goroutine has passed the test of the size and has not raised it yet.
abbrev pub pending : At → ℕ
pending creating = 1
pending (adding conn) = 1
pending _ = 0

abbrev pub total : (At → ℕ) → List At → ℕ
total f [] = 0
total f (at ∷ ats) = f at + total f ats

-- What is left of the sum without one goroutine.
pub total-set :
    (f : At → ℕ) (ats : List At) (i : ℕ) (at : At)
    → get_elem? ats i ≡ some at
    → (rest : ℕ) × (total f ats ≡ rest + f at)
      × ((at' : At) → total f (set ats i at') ≡ rest + f at')
total-set f [] i at e = absurd (cc)
total-set f (x ∷ ats) zero at e =
    let same : f x ≡ f at = ap f (cc) in (total f ats, omega (arith, same), λ at'. omega arith)
total-set f (x ∷ ats) (suc i) at e =
    let (rest, whole, put) = total-set f ats i at e in
    (f x + rest, omega (arith, whole), λ at'. omega (arith, put at'))

pending_le : (at : At) → pending at ≤ 1
pending_le creating = omega arith
pending_le (adding conn) = omega arith
pending_le idle = omega arith
pending_le entering = omega arith
pending_le receiving = omega arith
pending_le comparing = omega arith
pending_le waiting = omega arith
pending_le dropping = omega arith
pending_le leaving = omega arith
pending_le (got conn) = omega arith
pending_le (expired conn) = omega arith
pending_le (holding conn) = omega arith
pending_le (sending conn) = omega arith
pending_le (crashed_with conn) = omega arith
pending_le shutting = omega arith
pending_le stopping = omega arith
pending_le draining = omega arith
pending_le drained = omega arith
pending_le emptying = omega arith
pending_le emptied = omega arith
pending_le crashed = omega arith

pub total_pending : (ats : List At) → total pending ats ≤ length ats
total_pending [] = omega arith
total_pending (at ∷ ats) = omega (arith, pending_le at, total_pending ats)
