-- ===== src/Connection/Frames.antt =====
-- Frames that arrive whole are dispatched, and nothing else is: what the loop of `Read` promises.
use easycall.Base.{
  ℕ, zero, suc, ◌+◌, ◌-◌, ◌%◌, ◌^◌, ◌<◌, ◌≤◌, ◌≡◌, ◌≢◌, ◌⊎◌, refl, sym, ap, subst, ◌∙◌, Bytes,
  false, Option, some, List, [], ◌∷◌, ◌++◌, append_assoc, length, length-append, take, drop,
  take-append, drop-append, get_elem?, get_elem?-append, replicate, copy, ltb, ◌==◌, if◌then◌else◌,
  ok, arith,
}
use easycall.Package.{stx, etx, format_json, format_msgpack, uint32, slice}
use easycall.Package.Frame.{frame, prefix, big_endian, slice_mid, uint32-big_endian}
use easycall.Connection.{
  head_max_len, keep, read_some, dispatch, stop, Stop, read_prefix, check_etx, read_body,
  check_prefix, read_turn,
}

-- A read whose buffer ends within or at the end of a segment.
pub read_some-append :
    (n : ℕ) (a b : Bytes) (rest : List Bytes)
    → n ≡ length a
    → a ≢ []
    → read_some n ((a ++ b) ∷ rest) ≡ some (a, keep b rest)
unfolding read_some
read_some-append zero [] b rest e ne = absurd (ne refl)
read_some-append zero (x ∷ a) b rest e ne = absurd (omega arith)
read_some-append (suc n) a b rest e ne =
    subst
      (λ k.
        ◌≡◌ {A = Option (Bytes × List Bytes)} (some (take k (a ++ b), keep (drop k (a ++ b)) rest))
          (some (a, keep b rest)))
      (sym e) (rw (take-append a b, drop-append a b) refl)

take-ge : {A : Type 0} (n : ℕ) (xs : List A) → length xs ≤ n → take n xs ≡ xs
take-ge zero [] h = refl
take-ge zero (x ∷ xs) h = elim h [ ]
take-ge (suc n) [] h = refl
take-ge (suc n) (x ∷ xs) h = ap (◌∷◌ x) (take-ge n xs (omega arith))

drop-ge : {A : Type 0} (n : ℕ) (xs : List A) → length xs ≤ n → drop n xs ≡ []
drop-ge zero [] h = refl
drop-ge zero (x ∷ xs) h = elim h [ ]
drop-ge (suc n) [] h = refl
drop-ge (suc n) (x ∷ xs) h = drop-ge n xs (omega arith)

-- A read whose buffer takes the whole segment.
pub read_some_whole :
    (n : ℕ) (a : Bytes) (rest : List Bytes)
    → length a ≤ n
    → n ≢ 0
    → read_some n (a ∷ rest) ≡ some (a, rest)
unfolding read_some
read_some_whole zero a rest e ne = absurd (ne refl)
read_some_whole (suc n) a rest e ne = rw (take-ge (suc n) a e, drop-ge (suc n) a e) refl

read_prefix_reads :
    (p : Bytes) (start format h b : ℕ) (hf bf : Bytes)
    → get_elem? p 0 ≡ some start
    → get_elem? p 1 ≡ some format
    → slice p 2 6 ≡ ok hf
    → uint32 hf ≡ ok h
    → slice p 6 10 ≡ ok bf
    → uint32 bf ≡ ok b
    → read_prefix p ≡ ok (start, format, h, b)
unfolding read_prefix
read_prefix_reads p start format h b hf bf c d e f g k = rw (c, d, e, f, g, k)

pub read_prefix-prefix :
    (format h b : ℕ)
    → h < 2 ^ 32
    → b < 2 ^ 32
    → read_prefix (prefix format h b) ≡ ok (stx, format, h, b)
read_prefix-prefix format h b lt lt' =
    read_prefix_reads (prefix format h b) stx format h b (big_endian (h % 2 ^ 32))
      (big_endian (b % 2 ^ 32)) refl refl
      (slice_mid (stx ∷ format ∷ []) (big_endian (h % 2 ^ 32)) (big_endian (b % 2 ^ 32)) 2 6
        (omega arith) (omega arith))
      (uint32-big_endian h [] lt)
      (slice_mid (stx ∷ format ∷ big_endian (h % 2 ^ 32)) (big_endian (b % 2 ^ 32)) [] 6 10
        (omega arith) (omega arith))
      (uint32-big_endian b [] lt')

-- A format that the reader lets pass.
abbrev pub IsFormat : ℕ → Type 0
IsFormat format = (format ≡ format_json) ⊎ (format ≡ format_msgpack)

-- Behind a good prefix the round is the second read.
pub check_prefix-prefix :
    (format h b : ℕ) (segments : List Bytes)
    → IsFormat format
    → h ≤ head_max_len
    → b < 2 ^ 32
    → check_prefix (prefix format h b) segments
      ≡ read_body (prefix format h b) ((11 + h + b) % 2 ^ 32) segments
unfolding check_prefix
check_prefix-prefix format h b segments f le lt =
    rw (read_prefix-prefix format h b (omega arith) lt, check_prefix) (ground arith)

-- The second read, in full.
copy-nil : {A : Type 0} (ds : List A) → copy ds [] ≡ ds
copy-nil [] = refl
copy-nil (d ∷ ds) = refl

copy-all : {A : Type 0} (ds src : List A) → length ds ≡ length src → copy ds src ≡ src
copy-all [] [] h = refl
copy-all [] (s ∷ src) h = absurd (omega arith)
copy-all (d ∷ ds) [] h = absurd (omega arith)
copy-all (d ∷ ds) (s ∷ src) h = ap (◌∷◌ s) (copy-all ds src (omega arith))

length-replicate : (n a : ℕ) → length (replicate n a) ≡ n
length-replicate zero a = refl
length-replicate (suc n) a = ap suc (length-replicate n a)

-- Ten more, in the form in which `replicate` and `drop` compute.
abbrev ten : ℕ → ℕ
ten k = suc (suc (suc (suc (suc (suc (suc (suc (suc (suc k)))))))))

-- A read of the bytes behind the prefix, as many as arrive of the `suc k` that are due.
pub read_body-prefix :
    (format h b k : ℕ) (bytes : Bytes) (segments rest : List Bytes)
    → read_some (suc k) segments ≡ some (bytes, rest)
    → read_body (prefix format h b) (11 + k) segments
      ≡ check_etx (11 + k) (prefix format h b ++ copy (replicate (suc k) 0) bytes) rest
unfolding read_body
read_body-prefix format h b k bytes segments rest e =
    subst
      (λ n.
        read_body (prefix format h b) n segments
        ≡ check_etx n (prefix format h b ++ copy (replicate (suc k) 0) bytes) rest)
      eleven (rw (due, read_body) (rw (e, big, read_body) refl))
  where
    eleven : ten (suc k) ≡ 11 + k
    eleven = omega arith

    due : ten (suc k) - 10 ≡ suc k
    due = omega arith

    big : ltb (ten (suc k)) 10 ≡ false
    big = ground arith

abbrev tail : Bytes → Bytes → Bytes
tail head body = head ++ (body ++ etx ∷ [])

length-tail : (head body : Bytes) → length (tail head body) ≡ suc (length head + length body)
length-tail head body =
    omega (arith, length-append head (body ++ etx ∷ []), length-append body (etx ∷ []))

pub keep-ne_nil : (b : Bytes) (rest : List Bytes) → length b ≢ 0 → keep b rest ≡ b ∷ rest
keep-ne_nil [] rest ne = absurd (ne refl)
keep-ne_nil (x ∷ b) rest ne = refl

pub read_turn-prefix :
    (format h b : ℕ) (s : Bytes) (rest : List Bytes)
    → read_turn ((prefix format h b ++ s) ∷ rest) ≡ check_prefix (prefix format h b) (keep s rest)
unfolding read_turn
read_turn-prefix format h b s rest =
    rw (read_some-append 10 (prefix format h b) s rest (omega arith) cc, read_turn) refl

get_elem?-last :
    (format : ℕ) (head body : Bytes)
    → get_elem? (frame format head body) (10 + (length head + length body)) ≡ some etx
unfolding frame
get_elem?-last format head body =
    subst (λ xs. get_elem? xs n ≡ some etx)
      (append_assoc p (head ++ body) (etx ∷ []) ∙ ap (◌++◌ p) (append_assoc head body (etx ∷ [])))
      (subst (λ i. get_elem? ((p ++ (head ++ body)) ++ etx ∷ []) i ≡ some etx) here
        (get_elem?-append (p ++ (head ++ body)) etx []))
  where
    p : Bytes
    p = prefix format (length head) (length body)

    n : ℕ
    n = 10 + (length head + length body)

    here : length (p ++ (head ++ body)) ≡ n
    here = omega (arith, length-append head body)

pub check_etx_last :
    (n : ℕ) (pkg : Bytes) (last : ℕ) (rest : List Bytes)
    → get_elem? pkg (n - 1) ≡ some last
    → check_etx n pkg rest ≡ (if last == etx then dispatch pkg rest else stop Stop.bad_etx)
unfolding check_etx
check_etx_last n pkg last rest e = rw (e, check_etx) refl

-- A frame that arrives in one segment is dispatched whole. The head must keep its limit; of the
-- body only the 32-bit length is asked.
pub read_turn-frame :
    (format : ℕ) (head body : Bytes) (rest : List Bytes)
    → IsFormat format
    → length head ≤ head_max_len
    → 11 + length head + length body < 2 ^ 32
    → read_turn (frame format head body ∷ rest) ≡ dispatch (frame format head body) rest
unfolding frame
read_turn-frame format head body rest f le lt =
    read_turn-prefix format (length head) (length body) (tail head body) rest
    ∙ ap (check_prefix p) (keep-ne_nil (tail head body) rest (omega (arith, length-tail head body)))
    ∙ check_prefix-prefix format (length head) (length body) (tail head body ∷ rest) f le
        (omega arith)
    ∙ ap (λ n. read_body p n (tail head body ∷ rest)) size
    ∙ read_body-prefix format (length head) (length body) k (tail head body) (tail head body ∷ rest)
        rest
        (read_some_whole (suc k) (tail head body) rest (omega (arith, length-tail head body))
          (omega arith))
    ∙ ap (λ t. check_etx (11 + k) (p ++ t) rest)
        (copy-all (replicate (suc k) 0) (tail head body)
          (omega (arith, length-replicate (suc k) 0, length-tail head body)))
    ∙ check_etx_last (11 + k) (frame format head body) etx rest (
        subst (λ n. get_elem? (frame format head body) n ≡ some etx) there
          (get_elem?-last format head body))
  where
    p : Bytes
    p = prefix format (length head) (length body)

    k : ℕ
    k = length head + length body

    size : (11 + length head + length body) % 2 ^ 32 ≡ 11 + k
    size = omega arith

    there : 10 + k ≡ 11 + k - 1
    there = omega arith
