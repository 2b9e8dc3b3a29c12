-- ===== src/Pool/Tests.antt =====
-- The pool at concrete inputs.
use easycall.Base.{
  ℕ, ◌⊎◌, true, ◌≡◌, refl, false, none, some, List, [], ◌∷◌, text, Outcome, ok, err, arith,
}
use easycall.Base.Int.{pos, wrap, ◌+ℤ◌}
use easycall.Pool.{
  GenericPool, Round, new_generic_pool, create, from_chan, get_or_create, close, is_expired,
  inspect, acquire_loop, acquire, released, refused, release, close_each, close_all, shutdown_pool,
}
use easycall.Pool.Balance.{IsBalanced, lent_after_round}
use easycall.Pool.Calls.{
  new_generic_pool-IsBalanced, acquire-IsBalanced, release-IsBalanced, shutdown_pool_lem,
}
use easycall.Pool.Rounds.{Returned, acquire_ends}

-- One resource idle, one lent, room for one more.
abbrev some_pool : GenericPool
some_pool = record {
  pool_chan = 7 ∷ [];
  max_size = pos 3;
  cur_size = pos 2;
  min_size = pos 1;
  shutdown = false;
  lifetime = pos 10;
  closed = [];
}

some_pool-IsBalanced : IsBalanced 1 some_pool
some_pool-IsBalanced = record {
  counted = refl;
  within = omega arith;
  half_max = omega arith;
  nonneg = refl;
}

abbrev stale : Round
stale = record {
  created = ok 8;
  awaited = none;
  is_close = false;
  active_time = pos 5;
  now = pos 20;
}

abbrev usable : Round
usable = record {
  created = ok 9;
  awaited = none;
  is_close = false;
  active_time = pos 15;
  now = pos 20;
}

-- The idle resource has expired and is closed; the factory makes another one.
acquired :
    acquire (stale ∷ usable ∷ []) some_pool
    ≡ (record some_pool { pool_chan = []; closed = 7 ∷ [] }, some (ok 9))
unfolding acquire acquire_loop get_or_create from_chan create inspect is_expired close wrap ◌+ℤ◌
acquired = refl

emptied : (close_all some_pool).closed ≡ 7 ∷ []
unfolding close_all close_each close
emptied = refl

pool_made :
    (pool : GenericPool) × (new_generic_pool (pos 2) (pos 1) (pos 10) (ok 1 ∷ err [] ∷ [])
      ≡ ok pool)
    × IsBalanced 0 pool
pool_made =
    new_generic_pool-IsBalanced 2 (pos 1) (pos 10) (ok 1 ∷ err [] ∷ []) (omega arith) (omega arith)
      refl

some_acquired :
    let (next, result) = acquire (stale ∷ usable ∷ []) some_pool in
    IsBalanced (lent_after_round 1 result) next
some_acquired =
    acquire-IsBalanced 1 (stale ∷ usable ∷ []) some_pool some_pool-IsBalanced (refl, (refl, tt))

some_released : ((release 6 some_pool).1 ≡ released) × IsBalanced 0 (release 6 some_pool).0
some_released = release-IsBalanced 0 6 some_pool some_pool-IsBalanced refl

pool_shut :
    let next = (shutdown_pool some_pool).0 in
    ((shutdown_pool some_pool).1 ≡ ok tt)
    × (next.cur_size ≡ pos 1)
    × (next.closed ≡ 7 ∷ [])
    × ((rounds : List Round)
        → acquire rounds next ≡ (next, some (err (text "pool have been shutdown"))))
    × ((conn : ℕ) → release conn next ≡ (next, refused))
pool_shut = shutdown_pool_lem 1 some_pool some_pool-IsBalanced refl

acquire_ends_example :
    (out : Outcome ℕ) × ((acquire (stale ∷ usable ∷ []) some_pool).1 ≡ some out)
    × (((some_pool.shutdown ≡ true) × (out ≡ err (text "pool have been shutdown")))
        ⊎ Returned (stale ∷ usable ∷ []) some_pool out)
unfolding ◌+ℤ◌
acquire_ends_example = acquire_ends (stale ∷ []) usable [] some_pool (refl, refl)
