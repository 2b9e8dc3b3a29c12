-- ===== src/Package/Mixed.antt =====
-- What `EncodeWithBody` writes, read in two steps: `DecodeWithBodyData`, then `DecodeBody`.
use easycall.Base.{◌^◌, ◌<◌, ◌≡◌, subst, ◌∙◌, Bytes, none, some, length, ok}
use easycall.Package.{EasyPackage, Codecs, encode_with_body, decode_with_body_data, decode_body}
use easycall.Package.RoundTrip.{
  IsCodec, with_codec-some, codec_of-IsCodec, split_encoded, decode_with_body_data-run,
  encoded_parts,
}

module _ {Body : Type 0} where
  -- Let both codecs read back what they write. A package that `EncodeWithBody` writes, in less than
  -- 2^32 bytes, is read by `DecodeWithBodyData` with its format and head; and if it had a body, then
  -- `DecodeBody` of what was read is that body.
  pub decode_data-encode_body :
      (codecs : Codecs Body) (pkg : EasyPackage Body) (bytes : Bytes)
      → IsCodec codecs.msgpack
      → IsCodec codecs.json
      → encode_with_body codecs pkg ≡ ok bytes
      → length bytes < 2 ^ 32
      → (d : Bytes) × (decode_with_body_data codecs bytes
          ≡ ok (record pkg { body_data = d; pkg_data = bytes; body = none }))
        × ((body : Body)
            → pkg.body ≡ some body
            → decode_body codecs (record pkg { body_data = d; pkg_data = bytes; body = none })
              ≡ ok body)
  unfolding encode_with_body decode_body
  decode_data-encode_body codecs pkg bytes l m e lt =
      let (c, hd, b, f, p, q, d) =
        encoded_parts codecs pkg.format pkg.head (λ c. c.encode_body pkg.body) _ bytes e in
      let lawful = codec_of-IsCodec codecs pkg.format c l m f in
      (
        b,
        decode_with_body_data-run codecs c pkg.format bytes hd b pkg.head f
            (split_encoded pkg.format bytes hd b d lt) (lawful.heads pkg.head hd p),
        λ body s.
            with_codec-some codecs pkg.format c _ _ f
            ∙ lawful.bodies body b (subst (λ o. c.encode_body o ≡ ok b) s q),
      )
