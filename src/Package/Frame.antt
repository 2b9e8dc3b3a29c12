-- ===== src/Package/Frame.antt =====
-- What a frame is on the wire, and that both encoders write one.
use easycall.Base.{
  ℕ, ◌+◌, ◌-◌, ◌/◌, ◌%◌, ◌^◌, ◌<◌, ◌≤◌, ◌≡◌, refl, ap, subst, ◌∙◌, Bytes, some, [], ◌∷◌, ◌++◌,
  append_assoc, length, length-append, take-append, drop-append, get_elem?, take, drop, replicate,
  ok, arith,
}
use easycall.Package.{stx, etx, uint32, slice, stamp, encode_parts, split}

-- Four bytes, the most significant first.
abbrev pub big_endian : ℕ → Bytes
big_endian v = (v / 2 ^ 24 % 256) ∷ (v / 2 ^ 16 % 256) ∷ (v / 2 ^ 8 % 256) ∷ (v % 256) ∷ []

abbrev pub prefix : ℕ → ℕ → ℕ → Bytes
prefix format head_len body_len =
    stx ∷ format ∷ (big_endian (head_len % 2 ^ 32) ++ big_endian (body_len % 2 ^ 32))

-- The wire format: start mark, format, length of the head, length of the body, head, body, end mark.
unfoldable pub frame : ℕ → Bytes → Bytes → Bytes
frame format head body = prefix format (length head) (length body) ++ (head ++ (body ++ etx ∷ []))

pub length-frame :
    (format : ℕ) (head body : Bytes)
    → length (frame format head body) ≡ 11 + length head + length body
unfolding frame
length-frame format head body =
    omega (arith, length-append head (body ++ etx ∷ []), length-append body (etx ∷ []))

pub uint32-big_endian :
    (v : ℕ) (rest : Bytes) → v < 2 ^ 32 → uint32 (big_endian (v % 2 ^ 32) ++ rest) ≡ ok v
unfolding uint32
uint32-big_endian v rest h = ap ok (omega arith)

-- The buffer holds ten bytes of prefix, which the encoders take off its length again.
head_len-length : (head : Bytes) → length (replicate 10 0 ++ head) - 10 ≡ length head
head_len-length head = omega arith

body_len-length :
    (head body : Bytes) → length ((replicate 10 0 ++ head) ++ body) - length head - 10 ≡ length body
body_len-length head body = omega (arith, length-append head body)

stamp-frame :
    (format : ℕ) (head body : Bytes)
    → stamp format (length head) (length body) (((replicate 10 0 ++ head) ++ body) ++ etx ∷ [])
      ≡ frame format head body
unfolding stamp frame
stamp-frame format head body =
    ap (◌++◌ (prefix format (length head) (length body))) (append_assoc head body (etx ∷ []))

pub encode_parts-frame :
    (format : ℕ) (head body : Bytes)
    → encode_parts format (ok head) (ok body) ≡ ok (frame format head body)
unfolding encode_parts
encode_parts-frame format head body =
    rw (head_len-length head, body_len-length head body) (ap ok (stamp-frame format head body))

slice_in_range :
    (b : Bytes) (lo hi : ℕ)
    → lo ≤ hi
    → hi ≤ length b
    → slice b lo hi ≡ ok (take (hi - lo) (drop lo b))
unfolding slice
slice_in_range b lo hi h k = ground arith

-- Slicing a list that is known in three parts.
pub slice_mid :
    (a b c : Bytes) (lo hi : ℕ)
    → lo ≡ length a
    → hi ≡ length a + length b
    → slice (a ++ (b ++ c)) lo hi ≡ ok b
slice_mid a b c lo hi e f =
    slice_in_range (a ++ (b ++ c)) lo hi (omega arith)
      (omega (arith, length-append a (b ++ c), length-append b c))
    ∙ rw (e, drop-append a (b ++ c))
        (subst (λ n. ok (take n (b ++ c)) ≡ ok b) (omega arith) (ap ok (take-append b c)))

-- The decoder's reads, one after the other.
split_reads :
    (p : Bytes) (format head_len body_len : ℕ) (head_field body_field head body : Bytes)
    → get_elem? p 1 ≡ some format
    → slice p 2 6 ≡ ok head_field
    → uint32 head_field ≡ ok head_len
    → slice p 6 10 ≡ ok body_field
    → uint32 body_field ≡ ok body_len
    → slice p 10 ((10 + head_len) % 2 ^ 32) ≡ ok head
    → slice p ((10 + head_len) % 2 ^ 32) (((10 + head_len) % 2 ^ 32 + body_len) % 2 ^ 32) ≡ ok body
    → split p ≡ ok (format, head, body)
unfolding split
split_reads p format head_len body_len head_field body_field head body a b c d e f g =
    rw (a, b, c, d, e, f, g)

-- A decoder reads off a frame what was put into it, if the lengths fit into 32 bits together.
pub split-frame :
    (format : ℕ) (head body : Bytes)
    → 10 + length head + length body < 2 ^ 32
    → split (frame format head body) ≡ ok (format, head, body)
unfolding frame
split-frame format head body h =
    split_reads (frame format head body) format h_len b_len (big_endian (h_len % 2 ^ 32))
      (big_endian (b_len % 2 ^ 32)) head body refl
      (slice_mid (stx ∷ format ∷ []) (big_endian (h_len % 2 ^ 32)) _ 2 6 (omega arith)
        (omega arith))
      (uint32-big_endian h_len [] (omega arith))
      (slice_mid (stx ∷ format ∷ big_endian (h_len % 2 ^ 32)) (big_endian (b_len % 2 ^ 32)) _ 6 10
        (omega arith) (omega arith))
      (uint32-big_endian b_len [] (omega arith))
      (slice_mid (prefix format h_len b_len) head (body ++ etx ∷ []) 10 ((10 + h_len) % 2 ^ 32)
        (omega arith) (omega arith))
      (slice_mid (prefix format h_len b_len ++ head) body (etx ∷ []) ((10 + h_len) % 2 ^ 32)
        (((10 + h_len) % 2 ^ 32 + b_len) % 2 ^ 32) (omega arith) (omega arith))
  where
    h_len : ℕ
    h_len = length head

    b_len : ℕ
    b_len = length body
