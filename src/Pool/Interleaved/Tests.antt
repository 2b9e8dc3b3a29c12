-- ===== src/Pool/Interleaved/Tests.antt =====
-- Two goroutines at a pool of size 1.
use easycall.Base.{
  ◌≢◌, ℕ, suc, ◌+◌, ◌≤◌, ◌≡◌, refl, false, none, some, List, [], ◌∷◌, get_elem?, length, ok, arith,
}
use easycall.Base.Int.{pos, wrap, ◌+ℤ◌}
use easycall.Pool.{GenericPool, Round, is_expired}
use easycall.Pool.Interleaved.{
  At, idle, entering, crashed_with, draining, crashed, Call, acquires, shuts, releases, Threads,
  access, enter, leave, receive, make_conn, step, Reach, started, next,
}
use easycall.Pool.Interleaved.Places.{counted, total}
use easycall.Pool.Interleaved.Calm.{Quiet, none_crashes}
use easycall.Pool.Interleaved.Reached.{sizes_fair}

abbrev pool : GenericPool
pool = record {
  pool_chan = [];
  max_size = pos 1;
  cur_size = pos 0;
  min_size = pos 0;
  shutdown = false;
  lifetime = pos 0;
  closed = [];
}

abbrev round : ℕ → Round
round conn = record {
  created = ok conn;
  awaited = none;
  is_close = false;
  active_time = pos 0;
  now = pos 1;
}

-- Some goroutines, and what each calls; each takes the access at its place.
abbrev place_of : ℕ → Threads → At
place_of i t = elim (get_elem? t.places i) [ none ↦ crashed | some at ↦ at ]

abbrev run : List (ℕ × Call) → Threads → Threads
run [] t = t
run ((i, call) ∷ rest) t = run rest (step i call (round i) (place_of i t) t)

abbrev two : Threads
two = record { shared = record { pool = pool; chan_closed = false }; places = idle ∷ idle ∷ [] }

-- Both pass the test of the size before one of them raises it.
abbrev both_pass : List (ℕ × Call)
both_pass =
    (0, acquires)
    ∷ (1, acquires)
    ∷ (0, acquires)
    ∷ (1, acquires)
    ∷ (0, acquires)
    ∷ (1, acquires)
    ∷ (0, acquires)
    ∷ (1, acquires)
    ∷ (0, acquires)
    ∷ (1, acquires)
    ∷ (0, acquires)
    ∷ (1, acquires)
    ∷ []

over_max : (run both_pass two).shared.pool.cur_size ≡ pos 2
unfolding step access enter receive make_conn wrap ◌+ℤ◌
over_max = refl

-- One is about to receive while the other shuts the pool down.
receive_crashes :
    (run
      ((0, acquires) ∷ (0, acquires) ∷ (1, shuts) ∷ (1, shuts) ∷ (1, shuts) ∷ (0, acquires) ∷ [])
      two).places
    ≡ crashed ∷ draining ∷ []
unfolding step access enter receive
receive_crashes = refl

-- Both shut the pool down: the second one closes a channel that is closed.
shutdown_crashes :
    (run
      ((0, shuts) ∷ (1, shuts) ∷ (0, shuts) ∷ (1, shuts) ∷ (0, shuts) ∷ (1, shuts) ∷ [])
      two).places
    ≡ draining ∷ crashed ∷ []
unfolding step access enter
shutdown_crashes = refl

-- One is about to send a resource back while the other shuts the pool down.
send_crashes :
    (run
      ((0, acquires)
        ∷ (0, acquires)
        ∷ (0, acquires)
        ∷ (0, acquires)
        ∷ (0, acquires)
        ∷ (0, acquires)
        ∷ (0, acquires)
        ∷ (0, releases)
        ∷ (1, shuts)
        ∷ (1, shuts)
        ∷ (1, shuts)
        ∷ (0, releases)
        ∷ [])
      two).places
    ≡ crashed_with 0 ∷ draining ∷ []
unfolding step access enter leave receive make_conn wrap ◌+ℤ◌ is_expired
send_crashes = refl

abbrev reached : Threads
reached = run ((0, acquires) ∷ (1, acquires) ∷ []) two

is_reached : Reach pool 2 reached
unfolding step access enter
is_reached = next (next started 0 idle acquires (round 0) refl) 1 idle acquires (round 1) refl

sizes_fair_example :
    (k : ℕ) × (reached.shared.pool.cur_size ≡ pos k)
    × (k ≡ length reached.shared.pool.pool_chan + total counted reached.places)
    × (suc k ≤ 1 + 2)
sizes_fair_example =
    sizes_fair 1 2 pool reached refl refl (omega arith) (omega arith) (omega arith) is_reached

reached-Quiet : Quiet is_reached
unfolding is_reached
reached-Quiet = ((λ e. cc), (λ e. cc), ((λ e. cc), (λ e. cc), tt))

none_crashes_example :
    (entering ≢ crashed)
    × (entering ≢ crashed_with 0)
    × (reached.shared.chan_closed ≡ false)
    × (reached.shared.pool.shutdown ≡ false)
unfolding step access enter
none_crashes_example = none_crashes pool 2 reached is_reached 0 entering 0 reached-Quiet refl
