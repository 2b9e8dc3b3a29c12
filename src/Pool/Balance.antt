-- ===== src/Pool/Balance.antt =====
-- The size of the pool counts what is idle and what is lent, and never passes its maximum.
use easycall.Base.{
  ℕ, suc, ◌+◌, ◌≤◌, ◌<◌, ◌^◌, ◌≡◌, refl, ap, subst, ◌∙◌, false, Option, none, some, List, [], ◌∷◌,
  length, Bool-cases, Option-cases, inl, inr, Outcome, ok, err, panic, arith,
}
use easycall.Base.Int.{pos, negsuc, pos_part, neg_part, add32, add32_one, add32_back, leb_ℤ}
use easycall.Pool.{
  GenericPool, Round, create, await, from_chan, get_or_create, close, is_expired, inspect,
  acquire_loop,
}

-- `lent` resources are with callers. `half_max` is where `maxSize*2` stays within int32.
pub record IsBalanced (lent : ℕ) (pool : GenericPool) : Type 0 where
  pub counted : pool.cur_size ≡ pos (length pool.pool_chan + lent)
  pub within : length pool.pool_chan + lent ≤ pos_part pool.max_size
  pub half_max : pos_part pool.max_size < 2 ^ 30
  pub nonneg : neg_part pool.max_size ≡ 0

-- How many resources are lent after a call.
abbrev pub lent_after : ℕ → Outcome ℕ → ℕ
lent_after lent (ok conn) = suc lent
lent_after lent (err e) = lent
lent_after lent panic = lent

drop_one :
    (lent : ℕ) (pool : GenericPool)
    → IsBalanced (suc lent) pool
    → IsBalanced lent (record pool { cur_size = add32 pool.cur_size (negsuc 0) })
drop_one lent pool b = record {
  counted =
      ap (λ c. add32 c (negsuc 0)) (b.counted ∙ ap pos (omega arith))
      ∙ add32_back (length pool.pool_chan + lent) (omega (arith, b.within, b.half_max));
  within = omega (arith, b.within);
  half_max = b.half_max;
  nonneg = b.nonneg;
}

shift :
    (lent conn : ℕ) (rest : List ℕ) (pool : GenericPool)
    → pool.pool_chan ≡ conn ∷ rest
    → length pool.pool_chan + lent ≡ length rest + suc lent
shift lent conn rest pool e = rw e (omega arith)

room_within :
    (lent : ℕ) (pool : GenericPool)
    → IsBalanced lent pool
    → leb_ℤ pool.max_size pool.cur_size ≡ false
    → length pool.pool_chan + lent < pos_part pool.max_size
room_within lent pool b h =
    let e = b.counted in
    let z = b.nonneg in let p = ap pos_part e in let n = ap neg_part e in ground arith

create-IsBalanced :
    (lent : ℕ) (created : Outcome ℕ) (pool : GenericPool)
    → IsBalanced lent pool
    → leb_ℤ pool.max_size pool.cur_size ≡ false
    → let (next, out) = create created pool in IsBalanced (lent_after lent out) next
unfolding create
create-IsBalanced lent (ok conn) pool b room =
    let k = length pool.pool_chan + lent in
    let less = room_within lent pool b room in
    record {
      counted =
          ap (λ c. add32 c (pos 1)) b.counted
          ∙ add32_one k (omega (arith, less, b.half_max))
          ∙ ap pos (omega arith);
      within = omega (arith, less);
      half_max = b.half_max;
      nonneg = b.nonneg;
    }
create-IsBalanced lent (err e) pool b room = b
create-IsBalanced lent panic pool b room = b

from_chan-IsBalanced :
    (lent : ℕ) (chan : List ℕ) (r : Round) (pool : GenericPool)
    → IsBalanced lent pool
    → pool.pool_chan ≡ chan
    → r.awaited ≡ none
    → let (next, out) = from_chan chan r pool in IsBalanced (lent_after lent out) next
unfolding from_chan await
from_chan-IsBalanced lent (conn ∷ rest) r pool b e w = record {
  counted = b.counted ∙ ap pos (shift lent conn rest pool e);
  within = omega (arith, b.within, shift lent conn rest pool e);
  half_max = b.half_max;
  nonneg = b.nonneg;
}
from_chan-IsBalanced lent [] r pool b e w = elim (Bool-cases (leb_ℤ pool.max_size pool.cur_size)) [
  | inl full ↦ rw (full, w) b
  | inr room ↦ rw room (create-IsBalanced lent r.created pool b room)
]

close-IsBalanced :
    (lent conn : ℕ) (pool : GenericPool)
    → IsBalanced (suc lent) pool
    → IsBalanced lent (close conn pool)
unfolding close
close-IsBalanced lent conn pool b =
    let d = drop_one lent pool b in
    record { counted = d.counted; within = d.within; half_max = d.half_max; nonneg = d.nonneg }

get_or_create-IsBalanced :
    (lent : ℕ) (r : Round) (pool : GenericPool)
    → IsBalanced lent pool
    → r.awaited ≡ none
    → let (next, out) = get_or_create r pool in IsBalanced (lent_after lent out) next
unfolding get_or_create
get_or_create-IsBalanced lent r pool b w = elim (Bool-cases pool.shutdown) [
  | inl s ↦ simp (get_or_create, s) b
  | inr s ↦ simp (get_or_create, s) (from_chan-IsBalanced lent pool.pool_chan r pool b refl w)
]

abbrev pub lent_after_round : ℕ → Option (Outcome ℕ) → ℕ
lent_after_round lent none = lent
lent_after_round lent (some out) = lent_after lent out

inspect-IsBalanced :
    (lent : ℕ) (r : Round) (pool : GenericPool) (out : Outcome ℕ)
    → IsBalanced (lent_after lent out) pool
    → let (next, result) = inspect r (pool, out) in IsBalanced (lent_after_round lent result) next
unfolding inspect
inspect-IsBalanced lent r pool (err e) b = b
inspect-IsBalanced lent r pool panic b = b
inspect-IsBalanced lent r pool (ok conn) b = elim (Bool-cases r.is_close) [
  | inl c ↦ rw c (drop_one lent pool b)
  | inr c ↦ elim (Bool-cases (is_expired r pool)) [
    | inl x ↦ rw (x, c) (close-IsBalanced lent conn pool b)
    | inr x ↦ rw (x, c) b
  ]
]

abbrev pub AwaitNone : List Round → Type 0
AwaitNone [] = Unit {0}
AwaitNone (r ∷ rest) = (r.awaited ≡ none) × AwaitNone rest

round-IsBalanced :
    (lent : ℕ) (r : Round) (pool : GenericPool)
    → IsBalanced lent pool
    → r.awaited ≡ none
    → let (next, result) = inspect r (get_or_create r pool) in
      IsBalanced (lent_after_round lent result) next
round-IsBalanced lent r pool b w =
    let (next, out) = get_or_create r pool in
    inspect-IsBalanced lent r next out (get_or_create-IsBalanced lent r pool b w)

pub acquire_loop-IsBalanced :
    (lent : ℕ) (rounds : List Round) (pool : GenericPool)
    → IsBalanced lent pool
    → AwaitNone rounds
    → let (next, result) = acquire_loop rounds pool in
      IsBalanced (lent_after_round lent result) next
unfolding acquire_loop
acquire_loop-IsBalanced lent [] pool b w = b
acquire_loop-IsBalanced lent (r ∷ rest) pool b (w, ws) =
    let c = round-IsBalanced lent r pool b w in
    elim (Option-cases (inspect r (get_or_create r pool)).1) [
      | inl e ↦
          rw (acquire_loop, e)
            (acquire_loop-IsBalanced lent rest (inspect r (get_or_create r pool)).0
              (subst
                (λ o. IsBalanced (lent_after_round lent o) (inspect r (get_or_create r pool)).0) e
                c)
              ws)
      | inr (out, e) ↦
          rw (acquire_loop, e)
            (subst (λ o. IsBalanced (lent_after_round lent o) (inspect r (get_or_create r pool)).0)
              e c)
    ]
