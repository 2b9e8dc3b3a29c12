-- ===== src/Pool/Interleaved/Bounds.antt =====
-- What one access of a goroutine does to the size of the pool.
use easycall.Base.{
  ℕ, suc, ◌+◌, ◌≤◌, ◌≡◌, refl, sym, ap, ap₂, ◌∙◌, Bool, true, false, List, [], ◌∷◌, ◌++◌, length,
  length-append, if◌then◌else◌, Outcome, ok, err, panic, Bool-cases, inl, inr, arith,
}
use easycall.Base.Int.{pos, negsuc, add32, add32_one, add32_back, half32, leb_ℤ, ltb_ℤ}
use easycall.Pool.{Round, capacity, is_expired}
use easycall.Pool.Interleaved.{
  Shared, At, idle, entering, receiving, comparing, waiting, creating, dropping, leaving, adding,
  got, expired, holding, sending, crashed_with, shutting, stopping, draining, drained, emptying,
  emptied, crashed, Call, acquires, shuts, closes_all, releases, closes, with_pool, receive,
  make_conn, drain, empty, enter, leave, access,
}
use easycall.Pool.Interleaved.Places.{counted, pending}

pos_lt : (m k : ℕ) → leb_ℤ (pos m) (pos k) ≡ false → suc k ≤ m
pos_lt m k h = ground arith

-- The resources of the pool: those in the channel, and those that the other goroutines and this one
-- have. `others` and `wait` are the sums over the other goroutines, of which there are `n` with
-- this one.
module _ (m n others wait : ℕ) (few : suc wait ≤ n) (small : m + n ≤ half32) where
  pub record Fits (s : Shared) (at : At) : Type 0 where
    pub is_max : s.pool.max_size ≡ pos m
    pub size : s.pool.cur_size ≡ pos (length s.pool.pool_chan + others + counted at)
    pub bound : suc (length s.pool.pool_chan + others + counted at + wait + pending at) ≤ m + n

  abbrev pub FitsOut : Shared × At → Type 0
  FitsOut (s, at) = Fits s at

  -- A goroutine that moves on alone.
  moves :
      (s : Shared) (at at' : At)
      → counted at ≡ counted at'
      → pending at' ≤ pending at
      → Fits s at
      → Fits s at'
  moves s at at' c p f = record {
    is_max = f.is_max;
    size = f.size ∙ ap pos (omega (arith, c));
    bound = omega (arith, f.bound, c, p);
  }

  choose-Fits :
      (b : Bool) (x y : Shared × At) → FitsOut x → FitsOut y → FitsOut (if b then x else y)
  choose-Fits true x y f g = f
  choose-Fits false x y f g = g

  receive-Fits :
      (give : ℕ → At) (otherwise : At) (chan : List ℕ) (s : Shared) (at : At)
      → s.pool.pool_chan ≡ chan
      → ((conn : ℕ) → (counted (give conn) ≡ 1) × (pending (give conn) ≡ 0))
      → (counted otherwise ≡ 0) × (pending otherwise ≡ 0)
      → counted at ≡ 0
      → Fits s at
      → FitsOut (receive give otherwise chan s)
  unfolding receive
  receive-Fits give otherwise [] s at e k (a, b) z f =
      choose-Fits s.chan_closed (s, crashed) (s, otherwise)
        (moves s at crashed (omega (arith, z)) (omega arith) f)
        (moves s at otherwise (omega (arith, z, a)) (omega (arith, b)) f)
  receive-Fits give otherwise (conn ∷ rest) s at e k o z f =
      let (a, b) = k conn in
      let len : length s.pool.pool_chan ≡ suc (length rest) = ap length e in
      record {
        is_max = f.is_max;
        size = f.size ∙ ap pos (omega (arith, len, a, z));
        bound = omega (arith, f.bound, len, a, b, z);
      }

  -- A resource is taken out of the channel and closed, and the size still counts it.
  taken-Fits :
      (s : Shared) (at at' : At) (conn : ℕ) (rest : List ℕ)
      → s.pool.pool_chan ≡ conn ∷ rest
      → counted at ≡ 0
      → counted at' ≡ 1
      → pending at' ≡ 0
      → Fits s at
      → Fits
          (with_pool s (record (s.pool) { pool_chan = rest; closed = s.pool.closed ++ conn ∷ [] }))
          at'
  taken-Fits s at at' conn rest e z o q f =
      let len : length s.pool.pool_chan ≡ suc (length rest) = ap length e in
      record {
        is_max = f.is_max;
        size = f.size ∙ ap pos (omega (arith, len, o, z));
        bound = omega (arith, f.bound, len, o, q, z);
      }

  drain-Fits :
      (chan : List ℕ) (s : Shared)
      → s.pool.pool_chan ≡ chan
      → Fits s draining
      → FitsOut (drain chan s)
  unfolding drain
  drain-Fits [] s e f = moves s draining idle (omega arith) (omega arith) f
  drain-Fits (conn ∷ rest) s e f = taken-Fits s draining drained conn rest e refl refl refl f

  empty-Fits :
      (chan : List ℕ) (s : Shared)
      → s.pool.pool_chan ≡ chan
      → Fits s emptying
      → FitsOut (empty chan s)
  unfolding empty
  empty-Fits [] s e f =
      choose-Fits s.chan_closed (s, crashed) (s, idle)
        (moves s emptying crashed (omega arith) (omega arith) f)
        (moves s emptying idle (omega arith) (omega arith) f)
  empty-Fits (conn ∷ rest) s e f = taken-Fits s emptying emptied conn rest e refl refl refl f

  enter-Fits : (call : Call) (s : Shared) → Fits s idle → FitsOut (enter call s)
  unfolding enter
  enter-Fits acquires s f =
      choose-Fits s.pool.shutdown (s, idle) (s, entering) f
        (moves s idle entering (omega arith) (omega arith) f)
  enter-Fits shuts s f =
      choose-Fits s.pool.shutdown (s, idle) (s, shutting) f
        (moves s idle shutting (omega arith) (omega arith) f)
  enter-Fits closes_all s f =
      choose-Fits s.pool.shutdown (s, idle) (s, emptying) f
        (moves s idle emptying (omega arith) (omega arith) f)
  enter-Fits releases s f = f
  enter-Fits closes s f = f

  leave-Fits :
      (call : Call) (conn : ℕ) (s : Shared) → Fits s (holding conn) → FitsOut (leave call conn s)
  unfolding leave
  leave-Fits releases conn s f =
      choose-Fits s.pool.shutdown (s, (holding conn)) (s, (sending conn)) f
        (moves s (holding conn) (sending conn) (omega arith) (omega arith) f)
  leave-Fits closes conn s f = record { is_max = f.is_max; size = f.size; bound = f.bound }
  leave-Fits acquires conn s f = f
  leave-Fits shuts conn s f = f
  leave-Fits closes_all conn s f = f

  make_conn-Fits : (o : Outcome ℕ) (s : Shared) → Fits s creating → FitsOut (make_conn o s)
  unfolding make_conn
  make_conn-Fits (ok conn) s f = moves s creating (adding conn) (omega arith) (omega arith) f
  make_conn-Fits (err e) s f = moves s creating idle (omega arith) (omega arith) f
  make_conn-Fits panic s f = moves s creating crashed (omega arith) (omega arith) f

  -- The size is raised for a new resource.
  adding-Fits :
      (conn : ℕ) (s : Shared)
      → Fits s (adding conn)
      → Fits (with_pool s (record (s.pool) { cur_size = add32 s.pool.cur_size (pos 1) })) (got conn)
  adding-Fits conn s f = record {
    is_max = f.is_max;
    size =
        ap (λ z. add32 z (pos 1)) f.size
        ∙ add32_one (length s.pool.pool_chan + others + 0) (omega (arith, f.bound, small))
        ∙ ap pos (omega arith);
    bound = omega (arith, f.bound);
  }

  -- The size is lowered for a resource that was closed.
  lowered-Fits :
      (s : Shared) (at at' : At)
      → counted at ≡ 1
      → pending at ≡ 0
      → counted at' ≡ 0
      → pending at' ≡ 0
      → Fits s at
      → Fits (with_pool s (record (s.pool) { cur_size = add32 s.pool.cur_size (negsuc 0) })) at'
  lowered-Fits s at at' o q z q' f =
      let k = length s.pool.pool_chan + others in
      let is_suc : k + counted at ≡ suc k = omega (arith, o) in
      record {
        is_max = f.is_max;
        size =
            ap (λ z. add32 z (negsuc 0)) (f.size ∙ ap pos is_suc)
            ∙ add32_back k (omega (arith, f.bound, small, o))
            ∙ ap pos (omega (arith, z));
        bound = omega (arith, f.bound, o, q, z, q');
      }

  -- The test of the size leaves room for one more.
  comparing-Fits :
      (s : Shared)
      → Fits s comparing
      → FitsOut (if leb_ℤ s.pool.max_size s.pool.cur_size then (s, waiting) else (s, creating))
  comparing-Fits s f = elim (Bool-cases (leb_ℤ s.pool.max_size s.pool.cur_size)) [
    | inl y ↦ rw y (moves s comparing waiting (omega arith) (omega arith) f)
    | inr n ↦
        let k = length s.pool.pool_chan + others + 0 in
        let less : suc k ≤ m = pos_lt m k (ap₂ leb_ℤ (sym f.is_max) (sym f.size) ∙ n) in
        rw n (record { is_max = f.is_max; size = f.size; bound = omega (arith, less, few) })
  ]

  sending-Fits :
      (conn : ℕ) (s : Shared)
      → Fits s (sending conn)
      → Fits (with_pool s (record (s.pool) { pool_chan = s.pool.pool_chan ++ conn ∷ [] })) idle
  sending-Fits conn s f =
      let len = length-append s.pool.pool_chan (conn ∷ []) in
      record {
        is_max = f.is_max;
        size = f.size ∙ ap pos (omega (arith, len));
        bound = omega (arith, f.bound, len);
      }

  -- Every access keeps what the size counts, and the bound.
  pub access-Fits :
      (call : Call) (r : Round) (at : At) (s : Shared) → Fits s at → FitsOut (access call r at s)
  unfolding access
  access-Fits call r idle s f = enter-Fits call s f
  access-Fits call r entering s f =
      choose-Fits s.pool.shutdown (s, idle) (s, receiving)
        (moves s entering idle (omega arith) (omega arith) f)
        (moves s entering receiving (omega arith) (omega arith) f)
  access-Fits call r receiving s f =
      receive-Fits got comparing s.pool.pool_chan s receiving refl (λ conn. (refl, refl))
        (refl, refl) refl f
  access-Fits call r comparing s f = comparing-Fits s f
  access-Fits call r waiting s f =
      receive-Fits got idle s.pool.pool_chan s waiting refl (λ conn. (refl, refl)) (refl, refl) refl
        f
  access-Fits call r creating s f = make_conn-Fits r.created s f
  access-Fits call r (adding conn) s f = adding-Fits conn s f
  access-Fits call r (got conn) s f =
      choose-Fits r.is_close (s, dropping)
        (if is_expired r s.pool then (s, expired conn) else (s, holding conn))
        (moves s (got conn) dropping (omega arith) (omega arith) f)
        (choose-Fits (is_expired r s.pool) (s, expired conn) (s, holding conn)
          (moves s (got conn) (expired conn) (omega arith) (omega arith) f)
          (moves s (got conn) (holding conn) (omega arith) (omega arith) f))
  access-Fits call r (expired conn) s f = record {
    is_max = f.is_max;
    size = f.size;
    bound = f.bound;
  }
  access-Fits call r dropping s f = lowered-Fits s dropping entering refl refl refl refl f
  access-Fits call r (holding conn) s f = leave-Fits call conn s f
  access-Fits call r (sending conn) s f =
      choose-Fits s.chan_closed (s, crashed_with conn)
        (if ltb_ℤ (pos (length s.pool.pool_chan)) (capacity s.pool.max_size)
          then (with_pool s (record (s.pool) { pool_chan = s.pool.pool_chan ++ conn ∷ [] }), idle)
          else (s, sending conn))
        (moves s (sending conn) (crashed_with conn) (omega arith) (omega arith) f)
        (choose-Fits (ltb_ℤ (pos (length s.pool.pool_chan)) (capacity s.pool.max_size))
          (with_pool s (record (s.pool) { pool_chan = s.pool.pool_chan ++ conn ∷ [] }), idle)
          (s, sending conn) (sending-Fits conn s f) f)
  access-Fits call r leaving s f = lowered-Fits s leaving idle refl refl refl refl f
  access-Fits call r shutting s f = record { is_max = f.is_max; size = f.size; bound = f.bound }
  access-Fits call r stopping s f =
      choose-Fits s.chan_closed (s, crashed) (record s { chan_closed = true }, draining)
        (moves s stopping crashed (omega arith) (omega arith) f)
        (record { is_max = f.is_max; size = f.size; bound = f.bound })
  access-Fits call r draining s f = drain-Fits s.pool.pool_chan s refl f
  access-Fits call r drained s f = lowered-Fits s drained draining refl refl refl refl f
  access-Fits call r emptying s f = empty-Fits s.pool.pool_chan s refl f
  access-Fits call r emptied s f = lowered-Fits s emptied emptying refl refl refl refl f
  access-Fits call r crashed s f = f
  access-Fits call r (crashed_with conn) s f = f
