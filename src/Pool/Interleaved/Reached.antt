-- ===== src/Pool/Interleaved/Reached.antt =====
-- How far the size of a pool may go, whatever its goroutines do.
use easycall.Base.{
  ℕ, zero, suc, ◌+◌, ◌≤◌, ◌≡◌, refl, ap, ◌∙◌, some, get_elem?, set, length, length-set, replicate,
  arith,
}
use easycall.Base.Int.{pos, half32}
use easycall.Pool.{GenericPool, Round}
use easycall.Pool.Interleaved.{
  At, idle, creating, Call, access, Threads, step, Reach, started, next,
}
use easycall.Pool.Interleaved.Places.{counted, pending, total, total-set, total_pending}
use easycall.Pool.Interleaved.Bounds.{access-Fits}

-- The size counts every resource once: those in the channel, and those that goroutines have. With
-- what is about to be added, it is below the greatest size plus the number of goroutines.
pub record IsFair (m n : ℕ) (t : Threads) : Type 0 where
  pub is_max : t.shared.pool.max_size ≡ pos m
  pub size : t.shared.pool.cur_size ≡ pos (length t.shared.pool.pool_chan + total counted t.places)
  pub bound :
      suc (length t.shared.pool.pool_chan + total counted t.places + total pending t.places) ≤ m + n
  pub threads : length t.places ≡ n

step-IsFair :
    (m n i : ℕ) (call : Call) (r : Round) (at : At) (t : Threads)
    → m + n ≤ half32
    → get_elem? t.places i ≡ some at
    → IsFair m n t
    → IsFair m n (step i call r at t)
unfolding step
step-IsFair m n i call r at t small e h =
    let (others, whole, put) = total-set counted t.places i at e in
    let (wait, whole', put') = total-set pending t.places i at e in
    let few : suc wait ≤ n = omega (
      arith,
      put' creating,
      total_pending (set t.places i creating),
      length-set t.places i creating,
      h.threads,
    ) in
    let f = access-Fits m n others wait few small call r at t.shared (record {
      is_max = h.is_max;
      size = h.size ∙ ap pos (omega (arith, whole));
      bound = omega (arith, h.bound, whole, whole');
    }) in
    let at' = (access call r at t.shared).1 in
    record {
      is_max = f.is_max;
      size = f.size ∙ ap pos (omega (arith, put at'));
      bound = omega (arith, f.bound, put at', put' at');
      threads = length-set t.places i at' ∙ h.threads;
    }

start_total : (f : At → ℕ) (n : ℕ) → f idle ≡ 0 → total f (replicate n idle) ≡ 0
start_total f zero z = refl
start_total f (suc n) z = omega (arith, start_total f n z, z)

length-replicate : (n : ℕ) (at : At) → length (replicate n at) ≡ n
length-replicate zero at = refl
length-replicate (suc n) at = ap suc (length-replicate n at)

Reach-IsFair :
    (m n : ℕ) (pool : GenericPool) (t : Threads)
    → pool.max_size ≡ pos m
    → pool.cur_size ≡ pos (length pool.pool_chan)
    → length pool.pool_chan ≤ m
    → suc zero ≤ n
    → m + n ≤ half32
    → Reach pool n t
    → IsFair m n t
Reach-IsFair m n pool _ is_max size le one small started =
    let no = start_total counted n refl in
    let none_waits = start_total pending n refl in
    record {
      is_max = is_max;
      size = size ∙ ap pos (omega (arith, no));
      bound = omega (arith, le, one, no, none_waits);
      threads = length-replicate n idle;
    }
Reach-IsFair m n pool _ is_max size le one small (next {t} reach i at call r e) =
    step-IsFair m n i call r at t small e (Reach-IsFair m n pool t is_max size le one small reach)

-- Let a pool hold as many idle resources as it counts, no more than its greatest size `m`, and let
-- `n` goroutines call it in any way, with `m + n` at most 2^31. In whatever order their accesses
-- come, the size counts every resource that is in the channel or that a goroutine has, and never
-- goes above `m + n - 1`.
pub sizes_fair :
    (m n : ℕ) (pool : GenericPool) (t : Threads)
    → pool.max_size ≡ pos m
    → pool.cur_size ≡ pos (length pool.pool_chan)
    → length pool.pool_chan ≤ m
    → 1 ≤ n
    → m + n ≤ half32
    → Reach pool n t
    → (k : ℕ) × (t.shared.pool.cur_size ≡ pos k)
      × (k ≡ length t.shared.pool.pool_chan + total counted t.places)
      × (suc k ≤ m + n)
sizes_fair m n pool t is_max size le one small reach =
    let h = Reach-IsFair m n pool t is_max size le one small reach in
    (length t.shared.pool.pool_chan + total counted t.places, h.size, refl, omega (arith, h.bound))
