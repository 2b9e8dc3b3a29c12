-- ===== src/Pool/Rounds.antt =====
-- When `Acquire` returns.
use easycall.Base.{
  ℕ, ◌≡◌, refl, sym, subst, ap, ◌∙◌, true, false, ◌&&◌, Option, none, some, List, [], ◌∷◌, ◌++◌,
  Bool-cases, Option-cases, inl, inr, Outcome, ok, err, panic, arith, ◌⊎◌, text,
}
use easycall.Base.Int.{ℤ, pos, leb_ℤ, ltb_ℤ, ◌+ℤ◌}
use easycall.Pool.Calls.{acquire_refused}
use easycall.Pool.{
  GenericPool, Round, create, await, from_chan, get_or_create, close, is_expired, inspect,
  acquire_loop, acquire, has_shutdown,
}

create_lifetime : (o : Outcome ℕ) (pool : GenericPool) → (create o pool).0.lifetime ≡ pool.lifetime
unfolding create
create_lifetime (ok c) pool = refl
create_lifetime (err e) pool = refl
create_lifetime panic pool = refl

await_lifetime : (o : Option ℕ) (pool : GenericPool) → (await o pool).0.lifetime ≡ pool.lifetime
unfolding await
await_lifetime none pool = refl
await_lifetime (some c) pool = refl

from_chan_lifetime :
    (chan : List ℕ) (r : Round) (pool : GenericPool)
    → (from_chan chan r pool).0.lifetime ≡ pool.lifetime
unfolding from_chan
from_chan_lifetime (c ∷ chan) r pool = refl
from_chan_lifetime [] r pool =
    ground (arith, create_lifetime r.created pool, await_lifetime r.awaited pool)

get_or_create_lifetime :
    (r : Round) (pool : GenericPool) → (get_or_create r pool).0.lifetime ≡ pool.lifetime
unfolding get_or_create
get_or_create_lifetime r pool = ground (arith, from_chan_lifetime pool.pool_chan r pool)

inspect_lifetime :
    (r : Round) (pool : GenericPool) (o : Outcome ℕ)
    → (inspect r (pool, o)).0.lifetime ≡ pool.lifetime
unfolding inspect close
inspect_lifetime r pool (err e) = refl
inspect_lifetime r pool panic = refl
inspect_lifetime r pool (ok c) = ground arith

-- The resource of the round is open and fresh.
abbrev pub IsUsable : Round → ℤ → Type 0
IsUsable r lifetime =
    (r.is_close ≡ false)
    × ((ltb_ℤ (pos 0) lifetime && ltb_ℤ (r.active_time +ℤ lifetime) r.now) ≡ false)

inspect_usable :
    (r : Round) (pool : GenericPool) (o : Outcome ℕ)
    → IsUsable r pool.lifetime
    → (inspect r (pool, o)).1 ≡ some o
unfolding inspect is_expired
inspect_usable r pool (err e) h = refl
inspect_usable r pool panic h = refl
inspect_usable r pool (ok c) (h, k) = rw (h, k) refl

acquire_loop_ends :
    (stale : List Round) (r : Round) (rest : List Round) (pool : GenericPool)
    → IsUsable r pool.lifetime
    → (out : Outcome ℕ) × ((acquire_loop (stale ++ r ∷ rest) pool).1 ≡ some out)
unfolding acquire_loop
acquire_loop_ends [] r rest pool u =
    let g = get_or_create r pool in
    let e = inspect_usable r g.0 g.1 (subst (IsUsable r) (sym (get_or_create_lifetime r pool)) u) in
    (g.1, rw (acquire_loop, e) refl)
acquire_loop_ends (s ∷ stale) r rest pool u =
    let g = get_or_create s pool in
    let l = inspect_lifetime s g.0 g.1 ∙ get_or_create_lifetime s pool in
    elim (Option-cases (inspect s g).1) [
      | inl e ↦
          let (out, k) =
            acquire_loop_ends stale r rest (inspect s g).0 (subst (IsUsable r) (sym l) u) in
          (out, rw (acquire_loop, e) k)
      | inr (out, e) ↦ (out, rw (acquire_loop, e) refl)
    ]

-- What a round may answer: a resource that is open and fresh, an error of the pool or of the
-- factory, or a panic of the factory.
abbrev pub Allowed : Round → ℤ → Outcome ℕ → Type 0
Allowed r lifetime (ok c) = IsUsable r lifetime
Allowed r lifetime (err e) =
    (e ≡ has_shutdown) ⊎ (e ≡ text "no connection available") ⊎ (r.created ≡ err e)
Allowed r lifetime panic = r.created ≡ panic

-- The loop skipped the rounds before this one, which got the answer.
abbrev pub Returned : List Round → GenericPool → Outcome ℕ → Type 0
Returned rounds pool out =
    (before : List Round) × (r : Round) × (after : List Round) × (p : GenericPool) × (rounds
      ≡ before ++ r ∷ after)
    × (acquire_loop before pool ≡ (p, none))
    × ((get_or_create r p).1 ≡ out)
    × Allowed r pool.lifetime out

-- What `getOrCreate` may answer, where its resource is not looked at yet.
abbrev Origin : Round → Outcome ℕ → Type 0
Origin r (ok c) = Unit
Origin r (err e) = Allowed r (pos 0) (err e)
Origin r panic = r.created ≡ panic

create-Origin :
    (r : Round) (o : Outcome ℕ) (pool : GenericPool) → r.created ≡ o → Origin r (create o pool).1
unfolding create
create-Origin r (ok c) pool e = tt
create-Origin r (err m) pool e = inr (inr e)
create-Origin r panic pool e = e

await-Origin : (r : Round) (o : Option ℕ) (pool : GenericPool) → Origin r (await o pool).1
unfolding await
await-Origin r none pool = inr (inl refl)
await-Origin r (some c) pool = tt

from_chan-Origin :
    (chan : List ℕ) (r : Round) (pool : GenericPool) → Origin r (from_chan chan r pool).1
unfolding from_chan
from_chan-Origin (c ∷ chan) r pool = tt
from_chan-Origin [] r pool = elim (Bool-cases (leb_ℤ pool.max_size pool.cur_size)) [
  | inl y ↦ rw y (await-Origin r r.awaited pool)
  | inr n ↦ rw n (create-Origin r r.created pool refl)
]

get_or_create-Origin : (r : Round) (pool : GenericPool) → Origin r (get_or_create r pool).1
unfolding get_or_create
get_or_create-Origin r pool = elim (Bool-cases pool.shutdown) [
  | inl y ↦ simp y (inl refl)
  | inr n ↦ simp n (from_chan-Origin pool.pool_chan r pool)
]

inspect-Allowed :
    (r : Round) (pool : GenericPool) (o out : Outcome ℕ)
    → (inspect r (pool, o)).1 ≡ some out
    → Origin r o
    → (o ≡ out) × Allowed r pool.lifetime out
unfolding inspect is_expired
inspect-Allowed r pool (err e) out h from =
    let e' : err e ≡ out = cc in (e', subst (Allowed r pool.lifetime) e' from)
inspect-Allowed r pool panic out h from =
    let e' : panic ≡ out = cc in (e', subst (Allowed r pool.lifetime) e' from)
inspect-Allowed r pool (ok c) out h from =
    let kept : (ok c ≡ out) × IsUsable r pool.lifetime = ground arith in
    (kept.0, subst (Allowed r pool.lifetime) kept.0 kept.1)

acquire_loop_skip :
    (r : Round) (rounds : List Round) (pool : GenericPool)
    → (inspect r (get_or_create r pool)).1 ≡ none
    → acquire_loop (r ∷ rounds) pool ≡ acquire_loop rounds (inspect r (get_or_create r pool)).0
unfolding acquire_loop
acquire_loop_skip r rounds pool e = rw (acquire_loop, e) refl

acquire_loop_stop :
    (r : Round) (rounds : List Round) (pool : GenericPool) (out : Outcome ℕ)
    → (inspect r (get_or_create r pool)).1 ≡ some out
    → (acquire_loop (r ∷ rounds) pool).1 ≡ some out
unfolding acquire_loop
acquire_loop_stop r rounds pool out e = rw (acquire_loop, e) refl

acquire_loop-Returned :
    (rounds : List Round) (pool : GenericPool) (out : Outcome ℕ)
    → (acquire_loop rounds pool).1 ≡ some out
    → Returned rounds pool out
acquire_loop-Returned [] pool out h = absurd (unfold acquire_loop in cc)
acquire_loop-Returned (r ∷ rounds) pool out h =
    let g = get_or_create r pool in
    let l = inspect_lifetime r g.0 g.1 ∙ get_or_create_lifetime r pool in
    elim (Option-cases (inspect r g).1) [
      | inl e ↦
          let skip = acquire_loop_skip r rounds pool e in
          let (before, r', after, p, at, skipped, got, allowed) =
            acquire_loop-Returned rounds (inspect r g).0 out (sym (ap (λ x. x.1) skip) ∙ h) in
          (
            r ∷ before,
            r',
            after,
            p,
            ap (r ∷◌) at,
            acquire_loop_skip r before pool e ∙ skipped,
            got,
            subst (λ t. Allowed r' t out) l allowed,
          )
      | inr (o, e) ↦
          let same : o ≡ out = let s = acquire_loop_stop r rounds pool o e in cc in
          let (got, allowed) =
            inspect-Allowed r g.0 g.1 out (e ∙ ap some same) (get_or_create-Origin r pool) in
          (
            [],
            r,
            rounds,
            pool,
            refl,
            unfold acquire_loop in refl,
            got,
            subst (λ t. Allowed r t out) (get_or_create_lifetime r pool) allowed,
          )
    ]

-- Let one of the rounds be such that its resource, if it gets one, is open and has not expired.
-- Whatever the rounds before it were, `Acquire` returns: on a pool that was shut down, that error; on
-- another, what one of the rounds got after the loop skipped all before it: a resource that is open
-- and has not expired in that round, the error of a pool that was shut down, of a full one or of the factory, or a
-- panic of the factory.
pub acquire_ends :
    (stale : List Round) (r : Round) (rest : List Round) (pool : GenericPool)
    → IsUsable r pool.lifetime
    → (out : Outcome ℕ) × ((acquire (stale ++ r ∷ rest) pool).1 ≡ some out)
      × (((pool.shutdown ≡ true) × (out ≡ err has_shutdown))
          ⊎ Returned (stale ++ r ∷ rest) pool out)
unfolding acquire
acquire_ends stale r rest pool u = elim (Bool-cases pool.shutdown) [
  | inl s ↦ (_, ap (λ p. p.1) (acquire_refused (stale ++ r ∷ rest) pool s), inl (s, refl))
  | inr s ↦
      let (out, e) = acquire_loop_ends stale r rest pool u in
      (out, simp (acquire, s) e, inr (acquire_loop-Returned (stale ++ r ∷ rest) pool out e))
]
