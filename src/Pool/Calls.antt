-- ===== src/Pool/Calls.antt =====
-- Whole calls: what they return, and that they keep the pool balanced.
use easycall.Base.{
  ℕ, suc, ◌+◌, ◌≤◌, ◌<◌, ◌^◌, ◌≡◌, refl, sym, ap, subst, ◌∙◌, true, false, some, List, [], ◌∷◌,
  ◌++◌, length, length-append, append-nil, append_assoc, text, ◌||◌, Bool-cases, inl, inr, Outcome,
  ok, err, panic, arith,
}
use easycall.Base.Int.{
  ℤ, pos, negsuc, pos_part, neg_part, half32, wrap_lem, add32, add32_one, add32_back, ◌+ℤ◌, ltb_ℤ,
  leb_ℤ,
}
use easycall.Pool.{
  GenericPool, Round, fill, new_generic_pool, capacity, close, acquire, released, refused, release,
  close_each, shutdown_pool,
}
use easycall.Pool.Balance.{IsBalanced, lent_after_round, AwaitNone, acquire_loop-IsBalanced}

capacity_lem :
    (max_size : ℤ)
    → pos_part max_size < 2 ^ 30
    → neg_part max_size ≡ 0
    → capacity max_size ≡ pos (pos_part max_size + pos_part max_size)
capacity_lem max_size h z =
    wrap_lem half32 (max_size +ℤ max_size) (unfold ◌+ℤ◌ in ground arith)
    ∙ (unfold ◌+ℤ◌ in ground arith)

capacity_nonneg :
    (max_size : ℤ)
    → pos_part max_size < 2 ^ 30
    → neg_part max_size ≡ 0
    → ltb_ℤ (capacity max_size) (pos 0) ≡ false
capacity_nonneg max_size h z = let c = capacity_lem max_size h z in rw c (ground arith)

release_eq :
    (lent conn : ℕ) (pool : GenericPool)
    → IsBalanced (suc lent) pool
    → pool.shutdown ≡ false
    → release conn pool ≡ (record pool { pool_chan = pool.pool_chan ++ conn ∷ [] }, released)
unfolding release
release_eq lent conn pool b s =
    let c = capacity_lem pool.max_size b.half_max b.nonneg in
    let w = b.within in ground (arith, c, w, s)

-- A caller that gives back what is lent to it never waits: while the pool is open, `Release` puts
-- the resource into the channel, and afterwards one resource fewer is lent.
pub release-IsBalanced :
    (lent conn : ℕ) (pool : GenericPool)
    → IsBalanced (suc lent) pool
    → pool.shutdown ≡ false
    → ((release conn pool).1 ≡ released) × IsBalanced lent (release conn pool).0
release-IsBalanced lent conn pool b s =
    let e = release_eq lent conn pool b s in
    let l = length-append pool.pool_chan (conn ∷ []) in
    (
      ap (λ p. p.1) e,
      subst (λ p. IsBalanced lent p.0) (sym e)
          (record {
            counted = b.counted ∙ ap pos (omega (arith, l));
            within = omega (arith, b.within, l);
            half_max = b.half_max;
            nonneg = b.nonneg;
          }),
    )

fill-IsBalanced :
    (created : List (Outcome ℕ)) (pool : GenericPool)
    → IsBalanced 0 pool
    → length pool.pool_chan + length created ≤ pos_part pool.max_size
    → IsBalanced 0 (fill created pool)
unfolding fill
fill-IsBalanced [] pool b h = b
fill-IsBalanced (ok conn ∷ rest) pool b h =
    let l = length-append pool.pool_chan (conn ∷ []) in
    fill-IsBalanced rest _
      (record {
        counted =
            ap (λ c. add32 c (pos 1)) b.counted
            ∙ add32_one (length pool.pool_chan + 0) (omega (arith, b.half_max))
            ∙ ap pos (omega (arith, l));
        within = omega (arith, l);
        half_max = b.half_max;
        nonneg = b.nonneg;
      })
      (omega (arith, l))
fill-IsBalanced (err e ∷ rest) pool b h = fill-IsBalanced rest pool b (omega (arith, h))
fill-IsBalanced (panic ∷ rest) pool b h = fill-IsBalanced rest pool b (omega (arith, h))

fresh-IsBalanced :
    (m : ℕ) (top min_size lifetime : ℤ) (created : List (Outcome ℕ))
    → length created ≤ pos_part top
    → pos_part top < 2 ^ 30
    → neg_part top ≡ 0
    → IsBalanced 0 (
        fill created (record {
          pool_chan = [];
          max_size = top;
          cur_size = pos 0;
          min_size = min_size;
          shutdown = false;
          lifetime = lifetime;
          closed = [];
        }))
fresh-IsBalanced m top min_size lifetime created h lt z =
    fill-IsBalanced created _
      (record { counted = refl; within = omega arith; half_max = lt; nonneg = z })
      (omega (arith, h))

above :
    (max_size : ℤ) (m : ℕ)
    → (leb_ℤ max_size (pos 0) || ltb_ℤ max_size (pos m)) ≡ false
    → (neg_part max_size ≡ 0) × (m ≤ pos_part max_size)
above max_size m h = ground arith

-- With a minimum that is not negative, and both sizes below 2^30, a new pool is made, whatever the
-- factory answers in its rounds, and is balanced with nothing lent.
pub new_generic_pool-IsBalanced :
    (m : ℕ) (max_size lifetime : ℤ) (created : List (Outcome ℕ))
    → m < 2 ^ 30
    → pos_part max_size < 2 ^ 30
    → length created ≡ m
    → (pool : GenericPool) × (new_generic_pool (pos m) max_size lifetime created ≡ ok pool)
      × IsBalanced 0 pool
unfolding new_generic_pool
new_generic_pool-IsBalanced m max_size lifetime created h k l =
    elim (Bool-cases (leb_ℤ max_size (pos 0) || ltb_ℤ max_size (pos m))) [
      | inl e ↦ (
        _,
        rw (e, capacity_nonneg (pos m) h refl) refl,
        fresh-IsBalanced m (pos m) (pos m) lifetime created (omega (arith, l)) h refl,
      )
      | inr e ↦
          let z = above max_size m e in
          (
            _,
            rw (e, capacity_nonneg max_size k z.0) refl,
            fresh-IsBalanced m max_size (pos m) lifetime created (omega (arith, l, z.1)) k z.0,
          )
    ]

-- Whatever becomes of the resources in its rounds, `Acquire` keeps the pool balanced: with what it
-- returns, one more is lent, and else as many as before. So no more than the maximum are ever idle or lent. No other goroutine
-- releases while it waits.
pub acquire-IsBalanced :
    (lent : ℕ) (rounds : List Round) (pool : GenericPool)
    → IsBalanced lent pool
    → AwaitNone rounds
    → let (next, result) = acquire rounds pool in IsBalanced (lent_after_round lent result) next
unfolding acquire
acquire-IsBalanced lent rounds pool b w = elim (Bool-cases pool.shutdown) [
  | inl s ↦ simp (acquire, s) b
  | inr s ↦ simp (acquire, s) (acquire_loop-IsBalanced lent rounds pool b w)
]

close_each_lem :
    (lent : ℕ) (chan : List ℕ) (pool : GenericPool)
    → pool.cur_size ≡ pos (length chan + lent)
    → length chan + lent < half32
    → let next = close_each chan pool in
      (next.cur_size ≡ pos lent)
      × (next.pool_chan ≡ [])
      × (next.closed ≡ pool.closed ++ chan)
      × (next.shutdown ≡ pool.shutdown)
unfolding close_each close
close_each_lem lent [] pool e h =
    (e ∙ ap pos (omega arith), refl, sym (append-nil pool.closed), refl)
close_each_lem lent (conn ∷ rest) pool e h =
    let d =
      ap (λ c. add32 c (negsuc 0)) (e ∙ ap pos (omega arith))
      ∙ add32_back (length rest + lent) (omega arith) in
    let (a, c, k, s) = close_each_lem lent rest (close conn pool) d (omega arith) in
    (a, c, k ∙ append_assoc pool.closed (conn ∷ []) rest, s)

pub acquire_refused :
    (rounds : List Round) (pool : GenericPool)
    → pool.shutdown ≡ true
    → acquire rounds pool ≡ (pool, some (err (text "pool have been shutdown")))
unfolding acquire
acquire_refused rounds pool s = ground (arith, s)

release_refused :
    (conn : ℕ) (pool : GenericPool) → pool.shutdown ≡ true → release conn pool ≡ (pool, refused)
unfolding release
release_refused conn pool s = ground (arith, s)

shutdown_eq :
    (pool : GenericPool)
    → pool.shutdown ≡ false
    → shutdown_pool pool ≡ (close_each pool.pool_chan (record pool { shutdown = true }), ok tt)
unfolding shutdown_pool
shutdown_eq pool s = ground (arith, s)

-- Shutting a balanced open pool down closes what is idle, in its order, and only that; the size is
-- then what is lent, and from then on `Acquire` and `Release` are refused and change nothing.
pub shutdown_pool_lem :
    (lent : ℕ) (pool : GenericPool)
    → IsBalanced lent pool
    → pool.shutdown ≡ false
    → let next = (shutdown_pool pool).0 in
      ((shutdown_pool pool).1 ≡ ok tt)
      × (next.cur_size ≡ pos lent)
      × (next.closed ≡ pool.closed ++ pool.pool_chan)
      × ((rounds : List Round)
          → acquire rounds next ≡ (next, some (err (text "pool have been shutdown"))))
      × ((conn : ℕ) → release conn next ≡ (next, refused))
shutdown_pool_lem lent pool b s =
    let q = shutdown_eq pool s in
    let (a, c, k, e) =
      close_each_lem lent pool.pool_chan (record pool { shutdown = true }) b.counted
        (omega (arith, b.within, b.half_max)) in
    let f = ap (λ p. p.0.shutdown) q ∙ e in
    (
      ap (λ p. p.1) q,
      ap (λ p. p.0.cur_size) q ∙ a,
      ap (λ p. p.0.closed) q ∙ k,
      λ rounds. acquire_refused rounds _ f,
      λ conn. release_refused conn _ f,
    )
