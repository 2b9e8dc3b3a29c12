-- ===== src/Pool/Interleaved.antt =====
-- pool.go: the calls of several goroutines on one pool. Each goroutine has a place in the code, and
-- a step takes one of them through its next access to what they share.
pub mod Places
pub mod Bounds
pub mod Reached
pub mod Calm
mod Tests
use easycall.Base.{
  ℕ, Bytes, Bool, true, false, Option, none, some, List, [], ◌∷◌, ◌++◌, get_elem?, set, length,
  replicate, ◌≡◌, if◌then◌else◌, Outcome, ok, err, panic,
}
use easycall.Base.Int.{pos, negsuc, add32, ltb_ℤ, leb_ℤ}
use easycall.Pool.{GenericPool, Round, capacity, is_expired}

-- A closed channel still gives what is in it, and then nil.
pub record Shared : Type 0 where
  pub pool : GenericPool
  pub chan_closed : Bool

-- Where a goroutine is: in `Acquire` and `getOrCreate` from `entering` to `dropping`, in `Release` at
-- `sending`, in `Close` at `leaving`, in `Shutdown` from `shutting` to `drained`, and in `CloseAll` at
-- `emptying` and `emptied`. One that is `holding` has a resource and is in no call.
pub data At : Type 0 where
  idle entering receiving comparing waiting creating dropping leaving : At
  adding got expired holding sending crashed_with : ℕ → At
  shutting stopping draining drained emptying emptied crashed : At

-- What a goroutine outside calls, if it may: one that holds a resource may release or close it, any
-- other may call the rest.
pub data Call : Type 0 where
  acquires shuts closes_all releases closes : Call

abbrev add_size : GenericPool → GenericPool
add_size pool = record pool { cur_size = add32 pool.cur_size (pos 1) }

abbrev drop_size : GenericPool → GenericPool
drop_size pool = record pool { cur_size = add32 pool.cur_size (negsuc 0) }

abbrev close_conn : ℕ → GenericPool → GenericPool
close_conn conn pool = record pool { closed = pool.closed ++ conn ∷ [] }

abbrev pub with_pool : Shared → GenericPool → Shared
with_pool s pool = record s { pool = pool }

-- A receive: from a channel that is empty it is nil if the channel is closed, and `otherwise` is
-- what follows if it is open.
unfoldable pub receive : (ℕ → At) → At → List ℕ → Shared → Shared × At
receive give otherwise (conn ∷ rest) s =
    (with_pool s (record (s.pool) { pool_chan = rest }), give conn)
receive give otherwise [] s = if s.chan_closed then (s, crashed) else (s, otherwise)

-- The test of `shutdown` that every call but `Close` begins with.
abbrev unless_shut : Shared → At → At → Shared × At
unless_shut s back on = if s.pool.shutdown then (s, back) else (s, on)

unfoldable pub make_conn : Outcome ℕ → Shared → Shared × At
make_conn (ok conn) s = (s, adding conn)
make_conn (err e) s = (s, idle)
make_conn panic s = (s, crashed)

-- The receive in `Shutdown`, and the nil that ends its loop.
unfoldable pub drain : List ℕ → Shared → Shared × At
drain [] s = (s, idle)
drain (conn ∷ rest) s =
    (with_pool s (close_conn conn (record (s.pool) { pool_chan = rest })), drained)

-- The receive in `CloseAll`, and the close of what it gives.
unfoldable pub empty : List ℕ → Shared → Shared × At
empty [] s = if s.chan_closed then (s, crashed) else (s, idle)
empty (conn ∷ rest) s =
    (with_pool s (close_conn conn (record (s.pool) { pool_chan = rest })), emptied)

unfoldable pub enter : Call → Shared → Shared × At
enter acquires s = unless_shut s idle entering
enter shuts s = unless_shut s idle shutting
enter closes_all s = unless_shut s idle emptying
enter releases s = (s, idle)
enter closes s = (s, idle)

-- After an error of `Release` the caller still has the resource.
unfoldable pub leave : Call → ℕ → Shared → Shared × At
leave releases conn s = unless_shut s (holding conn) (sending conn)
leave closes conn s = (with_pool s (close_conn conn s.pool), leaving)
leave _ conn s = (s, holding conn)

-- The next access of a goroutine, by its place; a send on a full channel waits.
unfoldable pub access : Call → Round → At → Shared → Shared × At
access call r idle s = enter call s
access call r entering s = unless_shut s idle receiving
access call r receiving s = receive got comparing s.pool.pool_chan s
access call r comparing s =
    if leb_ℤ s.pool.max_size s.pool.cur_size then (s, waiting) else (s, creating)
access call r waiting s = receive got idle s.pool.pool_chan s
access call r creating s = make_conn r.created s
access call r (adding conn) s = (with_pool s (add_size s.pool), got conn)
access call r (got conn) s =
    if r.is_close
    then (s, dropping)
    else (if is_expired r s.pool then (s, expired conn) else (s, holding conn))
access call r (expired conn) s = (with_pool s (close_conn conn s.pool), dropping)
access call r dropping s = (with_pool s (drop_size s.pool), entering)
access call r (holding conn) s = leave call conn s
access call r (sending conn) s =
    if s.chan_closed
    then (s, crashed_with conn)
    else (if ltb_ℤ (pos (length s.pool.pool_chan)) (capacity s.pool.max_size)
        then (with_pool s (record (s.pool) { pool_chan = s.pool.pool_chan ++ conn ∷ [] }), idle)
        else (s, sending conn))
access call r leaving s = (with_pool s (drop_size s.pool), idle)
access call r shutting s = (with_pool s (record (s.pool) { shutdown = true }), stopping)
access call r stopping s =
    if s.chan_closed then (s, crashed) else (record s { chan_closed = true }, draining)
access call r draining s = drain s.pool.pool_chan s
access call r drained s = (with_pool s (drop_size s.pool), draining)
access call r emptying s = empty s.pool.pool_chan s
access call r emptied s = (with_pool s (drop_size s.pool), emptying)
access call r crashed s = (s, crashed)
access call r (crashed_with conn) s = (s, crashed_with conn)

pub record Threads : Type 0 where
  pub shared : Shared
  pub places : List At

unfoldable pub step : ℕ → Call → Round → At → Threads → Threads
step i call r at t =
    let (s, at') = access call r at t.shared in record { shared = s; places = set t.places i at' }

-- The accesses of the goroutines, in any order, from a pool that no call has touched.
pub data Reach (pool : GenericPool) (n : ℕ) : Threads → Type 0 where
  started :
      Reach pool n
        (record { shared = record { pool = pool; chan_closed = false }; places = replicate n idle })
  next :
      {t : Threads}
      → Reach pool n t
      → (i : ℕ) (at : At) (call : Call) (r : Round) → get_elem? t.places i ≡ some at
      → Reach pool n (step i call r at t)
