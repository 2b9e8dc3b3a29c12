-- ===== src/Package/RoundTrip.antt =====
-- What is encoded is decoded again, and how the coders fail.
use easycall.Base.{
  ℕ, ◌^◌, ◌<◌, ◌≡◌, ◌≢◌, ◌⊎◌, inl, inr, refl, sym, ap, subst, ◌∙◌, Bytes, Option, none, some, [],
  length, text, ◌==◌, if◌then◌else◌, Outcome, ok, err, panic, arith, Option-cases, Bool-cases,
  none-ne-some, err-ne-ok, err-ne-ok,
}
use easycall.Head.{EasyHead}
use easycall.Package.{
  EasyPackage, Codec, Codecs, format_json, format_msgpack, encode_parts, with_codec,
  encode_with_body, encode_with_body_data, split, decode_with_body_data, decode_with_body,
  decode_body,
}
use easycall.Package.Frame.{frame, length-frame, encode_parts-frame, split-frame}

-- What the source relies on: a codec reads back what it wrote.
pub record IsCodec {Body : Type 0} (c : Codec Body) : Type 0 where
  pub heads : (h : EasyHead) (d : Bytes) → c.encode_head h ≡ ok d → c.decode_head d ≡ ok h
  pub bodies : (b : Body) (d : Bytes) → c.encode_body (some b) ≡ ok d → c.decode_body d ≡ ok b

module _ {Body : Type 0} where
  pub codec_of : Codecs Body → ℕ → Option (Codec Body)
  codec_of codecs format =
      if format == format_msgpack
      then some codecs.msgpack
      else if format == format_json
      then some codecs.json
      else none

  pub with_codec-some {ℓ} :
      {A : Type ℓ} (codecs : Codecs Body) (format : ℕ) (c : Codec Body)
      (run : Codec Body → Outcome A) (m : Bytes)
      → codec_of codecs format ≡ some c
      → with_codec codecs format run m ≡ run c
  unfolding with_codec codec_of
  with_codec-some codecs format c run m e = ground arith

  with_codec-none {ℓ} :
      {A : Type ℓ} (codecs : Codecs Body) (format : ℕ) (run : Codec Body → Outcome A) (m : Bytes)
      → codec_of codecs format ≡ none
      → with_codec codecs format run m ≡ err m
  unfolding with_codec codec_of
  with_codec-none codecs format run m e = ground arith

  codec_of_cases :
      (codecs : Codecs Body) (format : ℕ) (c : Codec Body)
      → codec_of codecs format ≡ some c
      → (codecs.msgpack ≡ c) ⊎ (codecs.json ≡ c)
  unfolding codec_of
  codec_of_cases codecs format c e = elim (Bool-cases (format == format_msgpack)) [
    | inl m ↦ inl (cc (rw m at e))
    | inr n ↦ elim (Bool-cases (format == format_json)) [
      | inl j ↦ inr (cc (rw (n, j) at e))
      | inr k ↦ absurd (none-ne-some c (rw (n, k) at e))
    ]
  ]

  pub codec_of-IsCodec :
      (codecs : Codecs Body) (format : ℕ) (c : Codec Body)
      → IsCodec codecs.msgpack
      → IsCodec codecs.json
      → codec_of codecs format ≡ some c
      → IsCodec c
  codec_of-IsCodec codecs format c l m e = elim (codec_of_cases codecs format c e) [
    | inl p ↦ subst IsCodec p l
    | inr p ↦ subst IsCodec p m
  ]

encode_parts-eq-ok :
    (format : ℕ) (head body : Outcome Bytes) (bytes : Bytes)
    → encode_parts format head body ≡ ok bytes
    → (h : Bytes) × (b : Bytes) × (head ≡ ok h) × (body ≡ ok b) × (bytes ≡ frame format h b)
encode_parts-eq-ok format (ok h) (ok b) bytes e =
    (h, b, refl, refl, cc (encode_parts-frame format h b))
encode_parts-eq-ok format (ok h) (err m) bytes e = absurd (unfold encode_parts in cc)
encode_parts-eq-ok format (ok h) panic bytes e = absurd (unfold encode_parts in cc)
encode_parts-eq-ok format (err m) body bytes e = absurd (unfold encode_parts in cc)
encode_parts-eq-ok format panic body bytes e = absurd (unfold encode_parts in cc)

pub split_encoded :
    (format : ℕ) (bytes hd b : Bytes)
    → bytes ≡ frame format hd b
    → length bytes < 2 ^ 32
    → split bytes ≡ ok (format, hd, b)
split_encoded format bytes hd b d lt =
    rw d (split-frame format hd b (omega (arith, ap length d, length-frame format hd b)))

module _ {Body : Type 0} where
  pub decode_with_body_data-run :
      (codecs : Codecs Body) (c : Codec Body) (format : ℕ) (bytes hd body : Bytes) (h : EasyHead)
      → codec_of codecs format ≡ some c
      → split bytes ≡ ok (format, hd, body)
      → c.decode_head hd ≡ ok h
      → decode_with_body_data codecs bytes
        ≡ ok (record { format = format; head = h; body_data = body; pkg_data = bytes; body = none })
  unfolding decode_with_body_data
  decode_with_body_data-run codecs c format bytes hd body h e f g =
      rw f (with_codec-some codecs format c _ _ e ∙ rw g)

  decode_with_body-run :
      (codecs : Codecs Body) (c : Codec Body) (format : ℕ) (bytes hd body : Bytes) (h : EasyHead)
      (b : Body)
      → codec_of codecs format ≡ some c
      → split bytes ≡ ok (format, hd, body)
      → c.decode_head hd ≡ ok h
      → c.decode_body body ≡ ok b
      → decode_with_body codecs bytes
        ≡ ok (record { format = format; head = h; body_data = []; pkg_data = bytes; body = some b })
  unfolding decode_with_body
  decode_with_body-run codecs c format bytes hd body h b e f g k =
      rw f (with_codec-some codecs format c _ _ e ∙ rw (g, k))

  -- Where encoding succeeds the format has a codec.
  encoded_codec :
      (codecs : Codecs Body) (format : ℕ) (run : Codec Body → Outcome Bytes) (m bytes : Bytes)
      → with_codec codecs format run m ≡ ok bytes
      → (c : Codec Body) × (codec_of codecs format ≡ some c) × (run c ≡ ok bytes)
  encoded_codec codecs format run m bytes e = elim (Option-cases (codec_of codecs format)) [
    | inl n ↦ absurd (err-ne-ok (sym (with_codec-none codecs format run m n) ∙ e))
    | inr (c, f) ↦ (c, f, sym (with_codec-some codecs format c run m f) ∙ e)
  ]

  -- The parts of a frame that an encoder has written.
  pub encoded_parts :
      (codecs : Codecs Body) (format : ℕ) (head : EasyHead) (body : Codec Body → Outcome Bytes)
      (m bytes : Bytes)
      → with_codec codecs format (λ c. encode_parts format (c.encode_head head) (body c)) m
        ≡ ok bytes
      → (c : Codec Body) × (hd : Bytes) × (b : Bytes) × (codec_of codecs format ≡ some c)
        × (c.encode_head head ≡ ok hd)
        × (body c ≡ ok b)
        × (bytes ≡ frame format hd b)
  encoded_parts codecs format head body m bytes e =
      let (c, f, g) = encoded_codec codecs format _ m bytes e in
      let (hd, b, p, q, d) = encode_parts-eq-ok format (c.encode_head head) (body c) bytes g in
      (c, hd, b, f, p, q, d)

  -- Let both codecs read back what they write. A package that `EncodeWithBodyData` writes, in less
  -- than 2^32 bytes, is read back by `DecodeWithBodyData`: format, head and body bytes are the
  -- same, and the package keeps the frame.
  pub decode-encode_body_data :
      (codecs : Codecs Body) (pkg : EasyPackage Body) (bytes : Bytes)
      → IsCodec codecs.msgpack
      → IsCodec codecs.json
      → encode_with_body_data codecs pkg ≡ ok bytes
      → length bytes < 2 ^ 32
      → decode_with_body_data codecs bytes ≡ ok (record pkg { pkg_data = bytes; body = none })
  unfolding encode_with_body_data
  decode-encode_body_data codecs pkg bytes l m e lt =
      let (c, hd, b, f, p, q, d) =
        encoded_parts codecs pkg.format pkg.head (λ c. ok pkg.body_data) _ bytes e in
      decode_with_body_data-run codecs c pkg.format bytes hd b pkg.head f
        (split_encoded pkg.format bytes hd b d lt)
        ((codec_of-IsCodec codecs pkg.format c l m f).heads pkg.head hd p)
      ∙ (ground (arith, q))

  -- Let both codecs read back what they write. A package with a body that `EncodeWithBody` writes,
  -- in less than 2^32 bytes, is read back by `DecodeWithBody`: format, head and body are the same.
  pub decode-encode_body :
      (codecs : Codecs Body) (pkg : EasyPackage Body) (body : Body) (bytes : Bytes)
      → IsCodec codecs.msgpack
      → IsCodec codecs.json
      → pkg.body ≡ some body
      → encode_with_body codecs pkg ≡ ok bytes
      → length bytes < 2 ^ 32
      → decode_with_body codecs bytes ≡ ok (record pkg { pkg_data = bytes; body_data = [] })
  unfolding encode_with_body
  decode-encode_body codecs pkg body bytes l m s e lt =
      let (c, hd, b, f, p, q, d) =
        encoded_parts codecs pkg.format pkg.head (λ c. c.encode_body pkg.body) _ bytes e in
      let lawful = codec_of-IsCodec codecs pkg.format c l m f in
      decode_with_body-run codecs c pkg.format bytes hd b pkg.head body f
        (split_encoded pkg.format bytes hd b d lt) (lawful.heads pkg.head hd p)
        (lawful.bodies body b (subst (λ o. c.encode_body o ≡ ok b) s q))
      ∙ (ground (arith, s))

  -- A package in any other format is refused by both encoders and by `DecodeBody`.
  pub invalid_format :
      (codecs : Codecs Body) (pkg : EasyPackage Body)
      → pkg.format ≢ format_msgpack
      → pkg.format ≢ format_json
      → (encode_with_body codecs pkg ≡ err (text "invalid pkg format"))
        × (encode_with_body_data codecs pkg ≡ err (text "invalid pkg format"))
        × (decode_body codecs pkg ≡ err (text "invalid package format"))
  unfolding encode_with_body encode_with_body_data decode_body with_codec
  invalid_format codecs pkg m j = (ground arith, ground arith, ground arith)
