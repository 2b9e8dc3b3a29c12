-- ===== src/Package.antt =====
-- easy_package.go, `EasyPackage`: a package and its encoding as one frame of bytes.
-- The JSON and msgpack libraries are a parameter: two codecs. A nil slice and an empty one are not
-- told apart, and a slice has no capacity beyond its length.
pub mod Frame
pub mod RoundTrip
pub mod Mixed
pub mod Sample
mod Tests
use easycall.Base.{
  ℕ, suc, ◌+◌, ◌-◌, ◌*◌, ◌/◌, ◌%◌, ◌^◌, Bytes, Bool, Option, none, some, List, [], ◌∷◌, ◌++◌,
  length, get_elem?, set, take, drop, replicate, text, leb, ◌==◌, ◌&&◌, if◌then◌else◌, Outcome, ok,
  err, panic, ◌>>=◌, or_panic,
}
use easycall.Head.{EasyHead}

abbrev pub stx : ℕ
stx = 2

abbrev pub etx : ℕ
etx = 3

abbrev pub format_json : ℕ
format_json = 1

abbrev pub format_msgpack : ℕ
format_msgpack = 0

-- `Body` stands for the decoded bodies; `body` is `none` where the source's interface is nil.
pub record EasyPackage (Body : Type 0) : Type 0 where
  pub format : ℕ
  pub head : EasyHead
  pub body_data : Bytes
  pub pkg_data : Bytes
  pub body : Option Body

-- A serialization library, as the source calls it.
pub record Codec (Body : Type 0) : Type 0 where
  pub encode_head : EasyHead → Outcome Bytes
  pub encode_body : Option Body → Outcome Bytes
  pub decode_head : Bytes → Outcome EasyHead
  pub decode_body : Bytes → Outcome Body

pub record Codecs (Body : Type 0) : Type 0 where
  pub msgpack : Codec Body
  pub json : Codec Body

-- `binary.BigEndian.PutUint32(b[o:o+4], v)`
abbrev pub put_uint32 : Bytes → ℕ → ℕ → Bytes
put_uint32 b o v =
    set
      (set (set (set b o (v / 2 ^ 24 % 256)) (suc o) (v / 2 ^ 16 % 256)) (suc (suc o))
        (v / 2 ^ 8 % 256))
      (suc (suc (suc o))) (v % 256)

-- `binary.BigEndian.Uint32(b)`
unfoldable pub uint32 : Bytes → Outcome ℕ
uint32 (a ∷ b ∷ c ∷ d ∷ rest) = ok (a * 2 ^ 24 + b * 2 ^ 16 + c * 2 ^ 8 + d)
uint32 _ = panic

-- `b[lo:hi]`
unfoldable pub slice : Bytes → ℕ → ℕ → Outcome Bytes
slice b lo hi = if leb lo hi && leb hi (length b) then ok (take (hi - lo) (drop lo b)) else panic

-- The last lines of both encoders, on the buffer behind its ten free bytes.
unfoldable pub stamp : ℕ → ℕ → ℕ → Bytes → Bytes
stamp format head_len body_len pkg_data =
    put_uint32 (put_uint32 (set (set pkg_data 0 stx) 1 format) 2 (head_len % 2 ^ 32)) 6
      (body_len % 2 ^ 32)

-- Writes a head and a body into a buffer behind the prefix, and stamps the prefix.
unfoldable pub encode_parts : ℕ → Outcome Bytes → Outcome Bytes → Outcome Bytes
unfolding stamp
encode_parts format head body = do
  head_data ← head
  let head_buf = replicate 10 0 ++ head_data
  let head_len = length head_buf - 10
  body_data ← body
  let buf = head_buf ++ body_data
  let body_len = length buf - head_len - 10
  ok (stamp format head_len body_len (buf ++ etx ∷ []))

-- The fields that both decoders read off a frame: format, head and body.
unfoldable pub split : Bytes → Outcome (ℕ × Bytes × Bytes)
split pkg_data = do
  format ← or_panic (get_elem? pkg_data 1)
  head_field ← slice pkg_data 2 6
  head_len ← uint32 head_field
  body_field ← slice pkg_data 6 10
  body_len ← uint32 body_field
  let head_end = (10 + head_len) % 2 ^ 32
  head_data ← slice pkg_data 10 head_end
  body_data ← slice pkg_data head_end ((head_end + body_len) % 2 ^ 32)
  ok (format, head_data, body_data)

module _ {Body : Type 0} where
  abbrev pub new_package_with_body_data : ℕ → EasyHead → Bytes → EasyPackage Body
  new_package_with_body_data format head body_data = record {
    format = format;
    head = head;
    body_data = body_data;
    pkg_data = [];
    body = none;
  }

  abbrev pub new_package_with_body : ℕ → EasyHead → Option Body → EasyPackage Body
  new_package_with_body format head body = record {
    format = format;
    head = head;
    body_data = [];
    pkg_data = [];
    body = body;
  }

  -- The tests on the format, for every branch that differs in the codec only.
  unfoldable pub with_codec {ℓ} :
      {A : Type ℓ} → Codecs Body → ℕ → (Codec Body → Outcome A) → Bytes → Outcome A
  with_codec codecs format run message =
      if format == format_msgpack
      then run codecs.msgpack
      else if format == format_json
      then run codecs.json
      else err message

  unfoldable pub encode_with_body : Codecs Body → EasyPackage Body → Outcome Bytes
  encode_with_body codecs pkg =
      with_codec codecs pkg.format
        (λ c. encode_parts pkg.format (c.encode_head pkg.head) (c.encode_body pkg.body))
        (text "invalid pkg format")

  unfoldable pub encode_with_body_data : Codecs Body → EasyPackage Body → Outcome Bytes
  encode_with_body_data codecs pkg =
      with_codec codecs pkg.format
        (λ c. encode_parts pkg.format (c.encode_head pkg.head) (ok pkg.body_data))
        (text "invalid pkg format")

  unfoldable pub decode_with_body_data : Codecs Body → Bytes → Outcome (EasyPackage Body)
  decode_with_body_data codecs pkg_data = do
    (format, head_data, body_data) ← split pkg_data
    with_codec codecs format
        (λ c. do
          head ← c.decode_head head_data
          ok (record {
            format = format;
            head = head;
            body_data = body_data;
            pkg_data = pkg_data;
            body = none;
          }))
        (text "invalid pkg format")

  unfoldable pub decode_with_body : Codecs Body → Bytes → Outcome (EasyPackage Body)
  decode_with_body codecs pkg_data = do
    (format, head_data, body_data) ← split pkg_data
    with_codec codecs format
        (λ c. do
          head ← c.decode_head head_data
          body ← c.decode_body body_data
          ok (record {
            format = format;
            head = head;
            body_data = [];
            pkg_data = pkg_data;
            body = some body;
          }))
        (text "invalid pkg format")

  unfoldable pub decode_body : Codecs Body → EasyPackage Body → Outcome Body
  decode_body codecs pkg =
      with_codec codecs pkg.format (λ c. c.decode_body pkg.body_data)
        (text "invalid package format")
