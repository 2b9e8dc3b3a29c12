-- ===== src/ServiceClient/PoolSizes.antt =====
-- No operation of a pool changes its size.
use easycall.Base.{
  ok_inj, ℕ, ◌≡◌, refl, sym, ap, ◌∙◌, Option, none, some, List, [], ◌∷◌, bytes_key, Option-cases,
  inl, inr, Outcome, ok, err, panic, arith,
}
use easycall.Base.Int.{pos, wrap, half32, ◌+ℤ◌}
use easycall.Pool.{
  GenericPool, Round, fill, new_generic_pool, create, await, from_chan, get_or_create, close,
  inspect, acquire_loop, acquire, release,
}
use easycall.ServiceClient.{pool_min_size, pool_active_time}

fill-max_size :
    (created : List (Outcome ℕ)) (pool : GenericPool) → (fill created pool).max_size ≡ pool.max_size
unfolding fill
fill-max_size [] pool = refl
fill-max_size (ok c ∷ rest) pool = fill-max_size rest _
fill-max_size (err e ∷ rest) pool = fill-max_size rest pool
fill-max_size (panic ∷ rest) pool = fill-max_size rest pool

create-max_size : (o : Outcome ℕ) (pool : GenericPool) → (create o pool).0.max_size ≡ pool.max_size
unfolding create
create-max_size (ok c) pool = refl
create-max_size (err e) pool = refl
create-max_size panic pool = refl

await-max_size : (o : Option ℕ) (pool : GenericPool) → (await o pool).0.max_size ≡ pool.max_size
unfolding await
await-max_size none pool = refl
await-max_size (some c) pool = refl

from_chan-max_size :
    (chan : List ℕ) (r : Round) (pool : GenericPool)
    → (from_chan chan r pool).0.max_size ≡ pool.max_size
unfolding from_chan
from_chan-max_size (c ∷ chan) r pool = refl
from_chan-max_size [] r pool =
    ground (arith, create-max_size r.created pool, await-max_size r.awaited pool)

get_or_create-max_size :
    (r : Round) (pool : GenericPool) → (get_or_create r pool).0.max_size ≡ pool.max_size
unfolding get_or_create
get_or_create-max_size r pool = ground (arith, from_chan-max_size pool.pool_chan r pool)

inspect-max_size :
    (r : Round) (pool : GenericPool) (o : Outcome ℕ)
    → (inspect r (pool, o)).0.max_size ≡ pool.max_size
unfolding inspect close
inspect-max_size r pool (err e) = refl
inspect-max_size r pool panic = refl
inspect-max_size r pool (ok c) = ground arith

acquire_loop-max_size :
    (rounds : List Round) (pool : GenericPool)
    → (acquire_loop rounds pool).0.max_size ≡ pool.max_size
unfolding acquire_loop
acquire_loop-max_size [] pool = refl
acquire_loop-max_size (r ∷ rest) pool =
    let g = get_or_create r pool in
    let l = inspect-max_size r g.0 g.1 ∙ get_or_create-max_size r pool in
    elim (Option-cases (inspect r g).1) [
      | inl e ↦ rw (acquire_loop, e) (acquire_loop-max_size rest (inspect r g).0 ∙ l)
      | inr (out, e) ↦ rw (acquire_loop, e) l
    ]

pub acquire-max_size :
    (rounds : List Round) (pool : GenericPool) → (acquire rounds pool).0.max_size ≡ pool.max_size
unfolding acquire
acquire-max_size rounds pool = ground (arith, acquire_loop-max_size rounds pool)

pub release-max_size :
    (conn : ℕ) (pool : GenericPool) → (release conn pool).0.max_size ≡ pool.max_size
unfolding release
release-max_size conn pool = ground arith

-- With no size given, a pool takes its least size.
pub new_generic_pool-max_size :
    (created : List (Outcome ℕ)) (pool : GenericPool)
    → new_generic_pool pool_min_size (wrap half32 (pos 0)) pool_active_time created ≡ ok pool
    → pool.max_size ≡ pool_min_size
unfolding new_generic_pool wrap ◌+ℤ◌
new_generic_pool-max_size created pool e =
    ap (λ p. p.max_size) (sym (ok_inj e)) ∙ fill-max_size created _
