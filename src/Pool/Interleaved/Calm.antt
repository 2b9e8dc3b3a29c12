-- ===== src/Pool/Interleaved/Calm.antt =====
-- A pool that nobody shuts down.
use easycall.Base.{
  ℕ, zero, suc, ◌≡◌, ◌≢◌, refl, sym, ap, ◌∙◌, Bool, true, false, some, List, [], ◌∷◌, ◌++◌,
  get_elem?, get_elem?-set_cases, length, replicate, if◌then◌else◌, Outcome, ok, err, panic, inl,
  inr,
}
use easycall.Base.Int.{pos, leb_ℤ, ltb_ℤ}
use easycall.Pool.{GenericPool, Round, capacity, is_expired}
use easycall.Pool.Interleaved.{
  Shared, At, idle, entering, receiving, comparing, waiting, creating, dropping, leaving, adding,
  got, expired, holding, sending, crashed_with, shutting, stopping, draining, drained, emptying,
  emptied, crashed, Call, acquires, shuts, closes_all, releases, closes, with_pool, receive,
  make_conn, empty, enter, leave, access, Threads, step, Reach, started, next,
}

-- A place outside of `Shutdown` where no panic has happened.
abbrev calm : At → Bool
calm crashed = false
calm (crashed_with conn) = false
calm shutting = false
calm stopping = false
calm draining = false
calm drained = false
calm _ = true

abbrev Calm : Shared → Shared × At → Type 0
Calm s (s', at) = (s'.chan_closed ≡ false) × (s'.pool.shutdown ≡ s.pool.shutdown) × (calm at ≡ true)

choose-Calm :
    (s : Shared) (b : Bool) (x y : Shared × At) → Calm s x → Calm s y → Calm s (if b then x else y)
choose-Calm s true x y h k = h
choose-Calm s false x y h k = k

-- The test for a closed channel.
open_channel :
    (s : Shared) (x y : Shared × At)
    → s.chan_closed ≡ false
    → Calm s y
    → Calm s (if s.chan_closed then x else y)
open_channel s x y o h = by_test s.chan_closed o
  where
    by_test : (b : Bool) → b ≡ false → Calm s (if b then x else y)
    by_test true e = absurd (cc)
    by_test false e = h

receive-Calm :
    (give : ℕ → At) (otherwise : At) (chan : List ℕ) (s : Shared)
    → s.chan_closed ≡ false
    → ((conn : ℕ) → calm (give conn) ≡ true)
    → calm otherwise ≡ true
    → Calm s (receive give otherwise chan s)
unfolding receive
receive-Calm give otherwise [] s o g h = open_channel s (s, crashed) (s, otherwise) o (o, refl, h)
receive-Calm give otherwise (conn ∷ rest) s o g h = (o, refl, g conn)

empty-Calm : (chan : List ℕ) (s : Shared) → s.chan_closed ≡ false → Calm s (empty chan s)
unfolding empty
empty-Calm [] s o = open_channel s (s, crashed) (s, idle) o (o, refl, refl)
empty-Calm (conn ∷ rest) s o = (o, refl, refl)

enter-Calm :
    (call : Call) (s : Shared) → s.chan_closed ≡ false → call ≢ shuts → Calm s (enter call s)
unfolding enter
enter-Calm acquires s o ne =
    choose-Calm s s.pool.shutdown (s, idle) (s, entering) (o, refl, refl) (o, refl, refl)
enter-Calm shuts s o ne = absurd (ne refl)
enter-Calm closes_all s o ne =
    choose-Calm s s.pool.shutdown (s, idle) (s, emptying) (o, refl, refl) (o, refl, refl)
enter-Calm releases s o ne = (o, refl, refl)
enter-Calm closes s o ne = (o, refl, refl)

leave-Calm :
    (call : Call) (conn : ℕ) (s : Shared) → s.chan_closed ≡ false → Calm s (leave call conn s)
unfolding leave
leave-Calm releases conn s o =
    choose-Calm s s.pool.shutdown (s, holding conn) (s, sending conn) (o, refl, refl)
      (o, refl, refl)
leave-Calm closes conn s o = (o, refl, refl)
leave-Calm acquires conn s o = (o, refl, refl)
leave-Calm shuts conn s o = (o, refl, refl)
leave-Calm closes_all conn s o = (o, refl, refl)

make_conn-Calm :
    (o : Outcome ℕ) (s : Shared) → s.chan_closed ≡ false → o ≢ panic → Calm s (make_conn o s)
unfolding make_conn
make_conn-Calm (ok conn) s c ne = (c, refl, refl)
make_conn-Calm (err e) s c ne = (c, refl, refl)
make_conn-Calm panic s c ne = absurd (ne refl)

access-Calm :
    (call : Call) (r : Round) (at : At) (s : Shared)
    → s.chan_closed ≡ false
    → calm at ≡ true
    → call ≢ shuts
    → r.created ≢ panic
    → Calm s (access call r at s)
unfolding access
access-Calm call r idle s o c ne np = enter-Calm call s o ne
access-Calm call r entering s o c ne np =
    choose-Calm s s.pool.shutdown (s, idle) (s, receiving) (o, refl, refl) (o, refl, refl)
access-Calm call r receiving s o c ne np =
    receive-Calm got comparing s.pool.pool_chan s o (λ conn. refl) refl
access-Calm call r comparing s o c ne np =
    choose-Calm s (leb_ℤ s.pool.max_size s.pool.cur_size) (s, waiting) (s, creating) (o, refl, refl)
      (o, refl, refl)
access-Calm call r waiting s o c ne np =
    receive-Calm got idle s.pool.pool_chan s o (λ conn. refl) refl
access-Calm call r creating s o c ne np = make_conn-Calm r.created s o np
access-Calm call r (adding conn) s o c ne np = (o, refl, refl)
access-Calm call r (got conn) s o c ne np =
    choose-Calm s r.is_close (s, dropping)
      (if is_expired r s.pool then (s, expired conn) else (s, holding conn)) (o, refl, refl)
      (choose-Calm s (is_expired r s.pool) (s, expired conn) (s, holding conn) (o, refl, refl)
        (o, refl, refl))
access-Calm call r (expired conn) s o c ne np = (o, refl, refl)
access-Calm call r dropping s o c ne np = (o, refl, refl)
access-Calm call r (holding conn) s o c ne np = leave-Calm call conn s o
access-Calm call r (sending conn) s o c ne np =
    open_channel s (s, crashed_with conn)
      (if ltb_ℤ (pos (length s.pool.pool_chan)) (capacity s.pool.max_size)
        then (with_pool s (record (s.pool) { pool_chan = s.pool.pool_chan ++ conn ∷ [] }), idle)
        else (s, sending conn))
      o
      (choose-Calm s (ltb_ℤ (pos (length s.pool.pool_chan)) (capacity s.pool.max_size))
        (with_pool s (record (s.pool) { pool_chan = s.pool.pool_chan ++ conn ∷ [] }), idle)
        (s, sending conn) (o, refl, refl) (o, refl, refl))
access-Calm call r leaving s o c ne np = (o, refl, refl)
access-Calm call r shutting s o c ne np = absurd (cc)
access-Calm call r stopping s o c ne np = absurd (cc)
access-Calm call r draining s o c ne np = absurd (cc)
access-Calm call r drained s o c ne np = absurd (cc)
access-Calm call r emptying s o c ne np = empty-Calm s.pool.pool_chan s o
access-Calm call r emptied s o c ne np = (o, refl, refl)
access-Calm call r crashed s o c ne np = absurd (cc)
access-Calm call r (crashed_with conn) s o c ne np = absurd (cc)

-- No goroutine calls `Shutdown`, and the factory does not panic.
abbrev pub Quiet : {pool : GenericPool} {n : ℕ} {t : Threads} → Reach pool n t → Type 0
Quiet started = Unit {0}
Quiet (next reach i at call r e) = (call ≢ shuts) × (r.created ≢ panic) × Quiet reach

not_false : ¬ (true ≡ false)
not_false e = cc

all_idle : (n i : ℕ) (at : At) → get_elem? (replicate n idle) i ≡ some at → idle ≡ at
all_idle zero i at h = absurd (cc)
all_idle (suc n) zero at h = cc
all_idle (suc n) (suc i) at h = all_idle n i at h

record IsCalm (pool : GenericPool) (t : Threads) : Type 0 where
  opened : t.shared.chan_closed ≡ false
  same : t.shared.pool.shutdown ≡ pool.shutdown
  each : (i : ℕ) (at : At) → get_elem? t.places i ≡ some at → calm at ≡ true

step-IsCalm :
    (pool : GenericPool) (t : Threads) (i : ℕ) (call : Call) (r : Round) (at : At)
    → get_elem? t.places i ≡ some at
    → call ≢ shuts
    → r.created ≢ panic
    → IsCalm pool t
    → IsCalm pool (step i call r at t)
unfolding step
step-IsCalm pool t i call r at e ne np h =
    let (o, s, c) = access-Calm call r at t.shared h.opened (h.each i at e) ne np in
    let at' = (access call r at t.shared).1 in
    record {
      opened = o;
      same = s ∙ h.same;
      each = λ j q u. elim (get_elem?-set_cases t.places i j at at' q e u) [
        | inl (here, new) ↦ ap calm (sym new) ∙ c
        | inr (away, old) ↦ h.each j q old
      ];
    }

Reach-IsCalm :
    (pool : GenericPool) (n : ℕ) (t : Threads) (reach : Reach pool n t)
    → Quiet reach
    → IsCalm pool t
Reach-IsCalm pool n _ started q = record {
  opened = refl;
  same = refl;
  each = λ i at h. ap calm (sym (all_idle n i at h));
}
Reach-IsCalm pool n _ (next {t} reach i at call r e) (ne, np, q) =
    step-IsCalm pool t i call r at e ne np (Reach-IsCalm pool n t reach q)

-- Let any number of goroutines acquire, release, close and empty in any order, while none shuts the
-- pool down and the factory does not panic. Then no goroutine panics, and the channel stays open.
pub none_crashes :
    (pool : GenericPool) (n : ℕ) (t : Threads) (reach : Reach pool n t) (i : ℕ) (at : At) (conn : ℕ)
    → Quiet reach
    → get_elem? t.places i ≡ some at
    → (at ≢ crashed)
      × (at ≢ crashed_with conn)
      × (t.shared.chan_closed ≡ false)
      × (t.shared.pool.shutdown ≡ pool.shutdown)
none_crashes pool n t reach i at conn q h =
    let k = Reach-IsCalm pool n t reach q in
    let c = k.each i at h in
    (λ e. not_false (sym c ∙ ap calm e), λ e. not_false (sym c ∙ ap calm e), k.opened, k.same)
