-- ===== src/Connection.antt =====
-- easy_connection.go: framing on a TCP connection. What arrives is a list of segments: one call of
-- `conn.Read` returns bytes of the first segment only, as many as its buffer takes. The end of the
-- list is an error of the connection, as io.EOF is. Logging is left out.
pub mod Frames
pub mod Partial
pub mod Writes
mod Tests
use easycall.Base.{
  ℕ, zero, suc, ◌+◌, ◌-◌, ◌*◌, ◌%◌, ◌^◌, Bytes, Bool, true, false, not, Option, none, some, List,
  [], ◌∷◌, ◌++◌, length, get_elem?, take, drop, replicate, copy, ltb, leb, ◌==◌, ◌&&◌,
  if◌then◌else◌, Outcome, ok, err, panic, ◌>>=◌, or_panic,
}
use easycall.Package.{stx, etx, format_json, format_msgpack, slice, uint32}

abbrev pub head_max_len : ℕ
head_max_len = 128 * 2014

abbrev pub body_max_len : ℕ
body_max_len = 2 * 1024 * 1024

-- What a read leaves of a segment, before the segments behind it.
abbrev pub keep : Bytes → List Bytes → List Bytes
keep [] rest = rest
keep (b ∷ bs) rest = (b ∷ bs) ∷ rest

-- `conn.Read(b)` for a buffer of n bytes: the bytes, and what is still to arrive.
unfoldable pub read_some : ℕ → List Bytes → Option (Bytes × List Bytes)
read_some zero segments = some ([], segments)
read_some (suc n) [] = none
read_some (suc n) (s ∷ rest) = some (take (suc n) s, keep (drop (suc n) s) rest)

-- Why `Read` returns.
pub data Stop : Type 0 where
  read_error bad_stx bad_format bad_head_len bad_body_len bad_etx panicked : Stop

-- One round of the loop: a package for the handler, or the end.
pub data Turn : Type 0 where
  dispatch : Bytes → List Bytes → Turn
  stop : Stop → Turn

-- Start mark, format and the two lengths.
unfoldable pub read_prefix : Bytes → Outcome (ℕ × ℕ × ℕ × ℕ)
read_prefix prefetch = do
  start ← or_panic (get_elem? prefetch 0)
  format ← or_panic (get_elem? prefetch 1)
  head_field ← slice prefetch 2 6
  head_len ← uint32 head_field
  body_field ← slice prefetch 6 10
  body_len ← uint32 body_field
  ok (start, format, head_len, body_len)

-- The test of the last byte.
unfoldable pub check_etx : ℕ → Bytes → List Bytes → Turn
check_etx pkg_len pkg_data rest = elim (get_elem? pkg_data (pkg_len - 1)) [
  | none ↦ stop panicked
  | some last ↦ if last == etx then dispatch pkg_data rest else stop bad_etx
]

-- The second read, into a new buffer of `pkg_len` zeros behind the copied prefix.
unfoldable pub read_body : Bytes → ℕ → List Bytes → Turn
read_body prefetch pkg_len segments =
    let pkg_data = copy (replicate pkg_len 0) prefetch in
    if ltb pkg_len 10 then stop panicked else elim (read_some (pkg_len - 10) segments) [
      | none ↦ stop read_error
      | some (bytes, rest) ↦
          check_etx pkg_len (take 10 pkg_data ++ copy (drop 10 pkg_data) bytes) rest
    ]

-- The guards on the prefix, in the source's order.
unfoldable pub check_prefix : Bytes → List Bytes → Turn
check_prefix prefetch segments = elim (read_prefix prefetch) [
  | ok (start, format, head_len, body_len) ↦
      if not (start == stx)
      then stop bad_stx
      else if not (format == format_json) && not (format == format_msgpack)
      then stop bad_format
      else if ltb head_max_len head_len
      then stop bad_head_len
      else if ltb body_max_len head_len
      then stop bad_body_len
      else read_body prefetch ((11 + head_len + body_len) % 2 ^ 32) segments
  | _ ↦ stop panicked
]

unfoldable pub read_turn : List Bytes → Turn
read_turn segments = elim (read_some 10 segments) [
  | none ↦ stop read_error
  | some (bytes, rest) ↦ check_prefix (copy (replicate 10 0) bytes) rest
]

-- The loop of `Read`: the packages handed to the handler, in order, and why it ended; `none` where
-- the fuel ran out first.
unfoldable pub read_loop : ℕ → List Bytes → List Bytes × Option Stop
read_loop zero segments = ([], none)
read_loop (suc fuel) segments = elim (read_turn segments) [
  | dispatch pkg rest ↦ let (pkgs, why) = read_loop fuel rest in (pkg ∷ pkgs, why)
  | stop why ↦ ([], some why)
]
