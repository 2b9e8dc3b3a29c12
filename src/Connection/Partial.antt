-- ===== src/Connection/Partial.antt =====
-- Runs of the read loop: whole frames, any segments, and a frame that arrives in two segments.
use easycall.Base.{
  ℕ, zero, suc, ◌+◌, ◌-◌, ◌%◌, ◌^◌, ◌<◌, ◌≤◌, ◌≡◌, ◌≢◌, inl, inr, refl, sym, ap, subst, ◌∙◌, Bytes,
  true, false, Option, none, some, List, [], ◌∷◌, ◌++◌, map, length, length-append, take, drop,
  get_elem?, replicate, copy, ltb, Outcome, ok, err, panic, arith, Bool-cases, Option-cases,
}
use easycall.Package.Frame.{frame, prefix, length-frame}
use easycall.Connection.{
  head_max_len, keep, read_some, Turn, dispatch, stop, Stop, read_error, bad_etx, read_prefix,
  check_etx, read_body, check_prefix, read_turn, read_loop,
}
use easycall.Connection.Frames.{
  IsFormat, read_turn-frame, read_turn-prefix, keep-ne_nil, check_prefix-prefix, read_body-prefix,
  read_some_whole, check_etx_last,
}

-- The parts of a frame that the reader accepts.
pub record Parts : Type 0 where
  pub format : ℕ
  pub head : Bytes
  pub body : Bytes
  pub is_format : IsFormat format
  pub head_fits : length head ≤ head_max_len
  pub fits : 11 + length head + length body < 2 ^ 32

abbrev pub frame_of : Parts → Bytes
frame_of p = frame p.format p.head p.body

-- Frames that arrive one to a segment, with the head within its limit and fewer than 2^32 bytes
-- each, are all dispatched, in order and unchanged, until the connection ends.
pub read_loop-frames :
    (fuel : ℕ) (ps : List Parts)
    → length ps < fuel
    → read_loop fuel (map frame_of ps) ≡ (map frame_of ps, some read_error)
unfolding read_loop
read_loop-frames zero ps h = elim h [ ]
read_loop-frames (suc fuel) [] h = unfold read_turn read_some in refl
read_loop-frames (suc fuel) (p ∷ ps) h =
    rw
      (
        read_turn-frame p.format p.head p.body (map frame_of ps) p.is_format p.head_fits p.fits,
        read_loop,
      )
      (rw (read_loop-frames fuel ps (omega arith)) refl)

-- What is still to arrive, counted in bytes and segments.
abbrev pub pending : List Bytes → ℕ
pending [] = 0
pending (s ∷ rest) = suc (length s) + pending rest

length-drop-le : {A : Type 0} (n : ℕ) (xs : List A) → length (drop n xs) ≤ length xs
length-drop-le zero xs = omega arith
length-drop-le (suc n) [] = omega arith
length-drop-le (suc n) (x ∷ xs) = omega (arith, length-drop-le n xs)

pending-keep :
    (b : Bytes) (rest : List Bytes) → pending (keep b rest) ≤ suc (length b) + pending rest
pending-keep [] rest = omega arith
pending-keep (x ∷ b) rest = omega arith

keep_shorter :
    (n : ℕ) (s : Bytes) (rest : List Bytes)
    → pending (keep (drop (suc n) s) rest) < pending (s ∷ rest)
keep_shorter n [] rest = omega arith
keep_shorter n (x ∷ s) rest = omega (arith, pending-keep (drop n s) rest, length-drop-le n s)

rest_eq :
    {a c : Bytes} {b d : List Bytes}
    → ◌≡◌ {A = Option (Bytes × List Bytes)} (some (a, b)) (some (c, d))
    → b ≡ d
rest_eq {b = b} e = ap (λ o. rest_of o) e
  where
    rest_of : Option (Bytes × List Bytes) → List Bytes
    rest_of none = b
    rest_of (some p) = p.1

-- No read makes more of it, and a read into a buffer that is not empty makes less.
read_some-pending :
    (n : ℕ) (segments : List Bytes) (bytes : Bytes) (rest : List Bytes)
    → read_some n segments ≡ some (bytes, rest)
    → (pending rest ≤ pending segments) × (n ≢ 0 → pending rest < pending segments)
unfolding read_some
read_some-pending zero segments bytes rest e = omega (arith, ap pending (rest_eq e))
read_some-pending (suc n) [] bytes rest e = cc
read_some-pending (suc n) (s ∷ segments) bytes rest e =
    omega (arith, ap pending (rest_eq e), keep_shorter n s segments)

check_etx_rest :
    (n : ℕ) (pkg : Bytes) (segments : List Bytes) (out : Bytes) (rest : List Bytes)
    → check_etx n pkg segments ≡ dispatch out rest
    → segments ≡ rest
unfolding check_etx
check_etx_rest n pkg segments out rest e = ground arith

read_body_small :
    (p : Bytes) (n : ℕ) (segments : List Bytes)
    → ltb n 10 ≡ true
    → read_body p n segments ≡ stop Stop.panicked
unfolding read_body
read_body_small p n segments h = rw (h, read_body) refl

read_body-none :
    (p : Bytes) (n : ℕ) (segments : List Bytes)
    → ltb n 10 ≡ false
    → read_some (n - 10) segments ≡ none
    → read_body p n segments ≡ stop read_error
unfolding read_body
read_body-none p n segments h e = rw (h, e, read_body) refl

read_body-some :
    (p : Bytes) (n : ℕ) (segments : List Bytes) (bytes : Bytes) (later : List Bytes)
    → ltb n 10 ≡ false
    → read_some (n - 10) segments ≡ some (bytes, later)
    → read_body p n segments
      ≡ check_etx n
          (take 10 (copy (replicate n 0) p) ++ copy (drop 10 (copy (replicate n 0) p)) bytes)
          later
unfolding read_body
read_body-some p n segments bytes later h e = rw (h, e, read_body) refl

read_body-pending :
    (p : Bytes) (n : ℕ) (segments : List Bytes) (out : Bytes) (rest : List Bytes)
    → read_body p n segments ≡ dispatch out rest
    → pending rest ≤ pending segments
read_body-pending p n segments out rest e = elim (Bool-cases (ltb n 10)) [
  | inl small ↦ cc (read_body_small p n segments small)
  | inr big ↦ elim (Option-cases (read_some (n - 10) segments)) [
    | inl nothing ↦ cc (read_body-none p n segments big nothing)
    | inr ((bytes, later), read) ↦ omega (
      arith,
      (read_some-pending (n - 10) segments bytes later read).0,
      ap pending (
          check_etx_rest n _ later out rest
            (sym (read_body-some p n segments bytes later big read) ∙ e)),
    )
  ]
]

check_prefix-pending :
    (p : Bytes) (segments : List Bytes) (out : Bytes) (rest : List Bytes)
    → check_prefix p segments ≡ dispatch out rest
    → pending rest ≤ pending segments
unfolding check_prefix
check_prefix-pending p segments out rest e = go (read_prefix p) refl
  where
    go : (o : Outcome (ℕ × ℕ × ℕ × ℕ)) → read_prefix p ≡ o → pending rest ≤ pending segments
    go (ok (start, format, h, b)) f =
        ground (arith, f, read_body-pending p ((11 + h + b) % 2 ^ 32) segments out rest)
    go (err m) f = ground (arith, f)
    go panic f = ground (arith, f)

-- Each package handed over leaves less to arrive.
read_turn-pending :
    (segments : List Bytes) (out : Bytes) (rest : List Bytes)
    → read_turn segments ≡ dispatch out rest
    → pending rest < pending segments
unfolding read_turn
read_turn-pending segments out rest e = elim (Option-cases (read_some 10 segments)) [
  | inl nothing ↦ cc (rw (nothing, read_turn) at e)
  | inr ((bytes, later), read) ↦ omega (
    arith,
    (read_some-pending 10 segments bytes later read).1,
    check_prefix-pending _ later out rest (rw (read, read_turn) at e),
  )
]

-- The loop of `Read` ends on every input: fuel above the number of bytes and segments that arrive is
-- never used up.
pub read_loop_ends :
    (fuel : ℕ) (segments : List Bytes)
    → pending segments < fuel
    → (read_loop fuel segments).1 ≢ none
unfolding read_loop
read_loop_ends zero segments h = elim h [ ]
read_loop_ends (suc fuel) segments h =
    go (λ rest. read_loop_ends fuel rest) (read_turn segments) refl
  where
    go :
        ((rest : List Bytes) → pending rest < fuel → (read_loop fuel rest).1 ≢ none)
        → (t : Turn) → read_turn segments ≡ t
        → (read_loop (suc fuel) segments).1 ≢ none
    go later (dispatch out rest) e =
        rw (e, read_loop) (later rest (omega (arith, read_turn-pending segments out rest e)))
    go later (stop why) e = rw (e, read_loop) (λ h. cc)

get_elem?-replicate : (n i : ℕ) → i < n → get_elem? {A = ℕ} (replicate n 0) i ≡ some 0
get_elem?-replicate zero i h = elim h [ ]
get_elem?-replicate (suc n) zero h = refl
get_elem?-replicate (suc n) (suc i) h = get_elem?-replicate n i (omega arith)

get_elem?-copy_zeros :
    (n i : ℕ) (bytes : Bytes)
    → length bytes ≤ i
    → i < n
    → get_elem? (copy (replicate n 0) bytes) i ≡ some 0
get_elem?-copy_zeros zero i bytes le lt = elim lt [ ]
get_elem?-copy_zeros (suc n) zero [] le lt = refl
get_elem?-copy_zeros (suc n) (suc i) [] le lt = get_elem?-replicate n i (omega arith)
get_elem?-copy_zeros (suc n) zero (b ∷ bytes) le lt = elim le [ ]
get_elem?-copy_zeros (suc n) (suc i) (b ∷ bytes) le lt =
    get_elem?-copy_zeros n i bytes (omega arith) (omega arith)

length-ne_zero : (xs : Bytes) → xs ≢ [] → length xs ≢ 0
length-ne_zero [] ne = absurd (ne refl)
length-ne_zero (x ∷ xs) ne = omega arith

-- A frame with a known format, its head within the limit and fewer than 2^32 bytes, whose prefix
-- arrives with some of the bytes behind it, and the rest in later segments, is not put together:
-- the connection stops at the end mark, and the frame is lost.
pub read_turn_partial :
    (format : ℕ) (head body first second : Bytes) (rest : List Bytes)
    → IsFormat format
    → length head ≤ head_max_len
    → 11 + length head + length body < 2 ^ 32
    → frame format head body ≡ prefix format (length head) (length body) ++ (first ++ second)
    → first ≢ []
    → second ≢ []
    → read_turn ((prefix format (length head) (length body) ++ first) ∷ second ∷ rest)
      ≡ stop bad_etx
read_turn_partial format head body first second rest f le lt e ne ne' =
    read_turn-prefix format (length head) (length body) first (second ∷ rest)
    ∙ ap (check_prefix p) (keep-ne_nil first (second ∷ rest) (length-ne_zero first ne))
    ∙ check_prefix-prefix format (length head) (length body) (first ∷ second ∷ rest) f le
        (omega arith)
    ∙ ap (λ n. read_body p n (first ∷ second ∷ rest)) size
    ∙ read_body-prefix format (length head) (length body) k first (first ∷ second ∷ rest)
        (second ∷ rest)
        (read_some_whole (suc k) first (second ∷ rest) (omega (arith, short)) (omega arith))
    ∙ check_etx_last (11 + k) (p ++ copy (replicate (suc k) 0) first) 0 (second ∷ rest) (
        subst (λ n. get_elem? (p ++ copy (replicate (suc k) 0) first) n ≡ some 0) there
          (get_elem?-copy_zeros (suc k) k first short (omega arith)))
  where
    p : Bytes
    p = prefix format (length head) (length body)

    k : ℕ
    k = length head + length body

    size : (11 + length head + length body) % 2 ^ 32 ≡ 11 + k
    size = omega arith

    short : length first ≤ k
    short = omega (
      arith,
      length-frame format head body,
      ap length e,
      length-append first second,
      length-ne_zero second ne',
    )

    there : suc (suc (suc (suc (suc (suc (suc (suc (suc (suc k))))))))) ≡ 11 + k - 1
    there = omega arith
