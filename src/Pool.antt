-- ===== src/Pool.antt =====
-- pool.go: the pool of idle resources. A resource is a number. What the factory, the clock, a
-- resource and other goroutines answer in one round of `Acquire` is a `Round`. `closed` has the
-- resources that the pool closed. A call runs to its end before the next one; Pool/Interleaved has
-- the calls of several goroutines at once.
pub mod Balance
pub mod Calls
pub mod Interleaved
pub mod Rounds
mod Tests
use easycall.Base.{
  ℕ, zero, suc, ◌+◌, ◌*◌, Bytes, Bool, true, false, ◌&&◌, ◌||◌, Option, none, some, List, [], ◌∷◌,
  ◌++◌, length, text, ltb, if◌then◌else◌, Outcome, ok, err, panic,
}
use easycall.Base.Int.{ℤ, pos, negsuc, add32, ◌+ℤ◌, ltb_ℤ, leb_ℤ}

pub record GenericPool : Type 0 where
  pub pool_chan : List ℕ
  pub max_size : ℤ
  pub cur_size : ℤ
  pub min_size : ℤ
  pub shutdown : Bool
  pub lifetime : ℤ
  pub closed : List ℕ

pub record Round : Type 0 where
  -- The factory's answer.
  pub created : Outcome ℕ
  -- What another goroutine releases while a full pool waits, before the time is over.
  pub awaited : Option ℕ
  pub is_close : Bool
  pub active_time : ℤ
  pub now : ℤ

-- The loop of `NewGenericPool`, over the factory's answers.
unfoldable pub fill : List (Outcome ℕ) → GenericPool → GenericPool
fill [] pool = pool
fill (ok conn ∷ rest) pool = fill rest (record pool {
  cur_size = add32 pool.cur_size (pos 1);
  pool_chan = pool.pool_chan ++ conn ∷ [];
})
fill (_ ∷ rest) pool = fill rest pool

-- `maxSize*2`, in int32.
abbrev pub capacity : ℤ → ℤ
capacity max_size = add32 max_size max_size

-- The factory gives an answer for each of the `min_size` rounds. `make` panics at a negative capacity.
unfoldable pub new_generic_pool : ℤ → ℤ → ℤ → List (Outcome ℕ) → Outcome GenericPool
new_generic_pool min_size max_size lifetime created =
    let max_size =
      if leb_ℤ max_size (pos 0) || ltb_ℤ max_size min_size then min_size else max_size in
    if ltb_ℤ (capacity max_size) (pos 0)
    then panic
    else ok (
        fill created (record {
          pool_chan = [];
          max_size = max_size;
          cur_size = pos 0;
          min_size = min_size;
          shutdown = false;
          lifetime = lifetime;
          closed = [];
        }))

abbrev has_shutdown : Bytes
has_shutdown = text "pool have been shutdown"

unfoldable pub create : Outcome ℕ → GenericPool → GenericPool × Outcome ℕ
create (ok conn) pool = (record pool { cur_size = add32 pool.cur_size (pos 1) }, ok conn)
create (err e) pool = (pool, err e)
create panic pool = (pool, panic)

unfoldable pub await : Option ℕ → GenericPool → GenericPool × Outcome ℕ
await none pool = (pool, err (text "no connection available"))
await (some conn) pool = (pool, ok conn)

-- What follows the first test of `getOrCreate`, where the channel holds this.
unfoldable pub from_chan : List ℕ → Round → GenericPool → GenericPool × Outcome ℕ
from_chan (conn ∷ rest) r pool = (record pool { pool_chan = rest }, ok conn)
from_chan [] r pool =
    if leb_ℤ pool.max_size pool.cur_size then await r.awaited pool else create r.created pool

unfoldable pub get_or_create : Round → GenericPool → GenericPool × Outcome ℕ
get_or_create r pool =
    if pool.shutdown then (pool, err has_shutdown) else from_chan pool.pool_chan r pool

unfoldable pub close : ℕ → GenericPool → GenericPool
close conn pool = record pool {
  closed = pool.closed ++ conn ∷ [];
  cur_size = add32 pool.cur_size (negsuc 0);
}

unfoldable pub is_expired : Round → GenericPool → Bool
is_expired r pool = ltb_ℤ (pos 0) pool.lifetime && ltb_ℤ (r.active_time +ℤ pool.lifetime) r.now

-- What a round does with what it got: the result, or `none` where the loop goes on.
unfoldable pub inspect : Round → GenericPool × Outcome ℕ → GenericPool × Option (Outcome ℕ)
inspect r (pool, err e) = (pool, some (err e))
inspect r (pool, panic) = (pool, some panic)
inspect r (pool, ok conn) =
    if r.is_close
    then (record pool { cur_size = add32 pool.cur_size (negsuc 0) }, none)
    else (if is_expired r pool then (close conn pool, none) else (pool, some (ok conn)))

-- `none` where the rounds run out.
unfoldable pub acquire_loop : List Round → GenericPool → GenericPool × Option (Outcome ℕ)
acquire_loop [] pool = (pool, none)
acquire_loop (r ∷ rest) pool =
    let (next, result) = inspect r (get_or_create r pool) in
    let later = acquire_loop rest next in elim result [ some out ↦ (next, some out) | none ↦ later ]

unfoldable pub acquire : List Round → GenericPool → GenericPool × Option (Outcome ℕ)
acquire rounds pool =
    if pool.shutdown then (pool, some (err has_shutdown)) else acquire_loop rounds pool

pub data Released : Type 0 where
  released refused blocked : Released

-- The channel holds twice `max_size` resources; a send on a full channel blocks.
unfoldable pub release : ℕ → GenericPool → GenericPool × Released
release conn pool =
    if pool.shutdown
    then (pool, refused)
    else (if ltb_ℤ (pos (length pool.pool_chan)) (capacity pool.max_size)
        then (record pool { pool_chan = pool.pool_chan ++ conn ∷ [] }, released)
        else (pool, blocked))

-- The loops that empty the channel.
unfoldable pub close_each : List ℕ → GenericPool → GenericPool
close_each [] pool = record pool { pool_chan = [] }
close_each (conn ∷ rest) pool = close_each rest (close conn pool)

unfoldable pub close_all : GenericPool → GenericPool
close_all pool = if pool.shutdown then pool else close_each pool.pool_chan pool

unfoldable pub shutdown_pool : GenericPool → GenericPool × Outcome (Unit {0})
shutdown_pool pool =
    if pool.shutdown
    then (pool, err has_shutdown)
    else (close_each pool.pool_chan (record pool { shutdown = true }), ok tt)
