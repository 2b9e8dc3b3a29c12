-- ===== src/Package/Tests.antt =====
-- A concrete codec, and the coders at concrete inputs.
use easycall.Base.{◌≡◌, refl, Bytes, some, none, [], ◌∷◌, text, ok, err, arith}
use easycall.Head.{new_easy_head, set_service, set_seq}
use easycall.Package.{
  EasyPackage, new_package_with_body_data, new_package_with_body, encode_with_body,
  encode_with_body_data, encode_parts, stamp, with_codec, decode_with_body_data, decode_with_body,
  decode_body,
}
use easycall.Package.Sample.{plain-IsCodec, codecs, write_head}
use easycall.Package.RoundTrip.{decode-encode_body_data, decode-encode_body, invalid_format}

abbrev request : EasyPackage Bytes
request =
    new_package_with_body_data 1 (set_seq (set_service new_easy_head (9 ∷ 8 ∷ [])) 7) (4 ∷ 5 ∷ [])

abbrev response : EasyPackage Bytes
response = new_package_with_body 0 (set_seq new_easy_head 7) (some (6 ∷ []))

abbrev request_bytes : Bytes
request_bytes =
    2 ∷ 1 ∷ 0 ∷ 0 ∷ 0 ∷ 13 ∷ 0 ∷ 0 ∷ 0 ∷ 2 ∷ 0 ∷ 7 ∷ 2 ∷ 9 ∷ 8 ∷ 0 ∷ 0 ∷ 0 ∷ 0 ∷ 0 ∷ 0 ∷ 0 ∷ 0 ∷ 4
    ∷ 5 ∷ 3 ∷ []

request_encoded : encode_with_body_data codecs request ≡ ok request_bytes
unfolding encode_with_body_data with_codec encode_parts stamp write_head
request_encoded = refl

decode-encode_body_data_example :
    decode_with_body_data codecs request_bytes
    ≡ ok (record request { pkg_data = request_bytes; body = none })
decode-encode_body_data_example =
    decode-encode_body_data codecs request request_bytes plain-IsCodec plain-IsCodec request_encoded
      (omega arith)

abbrev response_bytes : Bytes
response_bytes =
    2 ∷ 0 ∷ 0 ∷ 0 ∷ 0 ∷ 11 ∷ 0 ∷ 0 ∷ 0 ∷ 1 ∷ 0 ∷ 7 ∷ 0 ∷ 0 ∷ 0 ∷ 0 ∷ 0 ∷ 0 ∷ 0 ∷ 0 ∷ 0 ∷ 6 ∷ 3 ∷ []

response_encoded : encode_with_body codecs response ≡ ok response_bytes
unfolding encode_with_body with_codec encode_parts stamp write_head
response_encoded = refl

body_read_back :
    decode_with_body codecs response_bytes
    ≡ ok (record response { pkg_data = response_bytes; body_data = [] })
body_read_back =
    decode-encode_body codecs response (6 ∷ []) response_bytes plain-IsCodec plain-IsCodec refl
      response_encoded (omega arith)

format_seven :
    (encode_with_body codecs (record request { format = 9 }) ≡ err (text "invalid pkg format"))
    × (encode_with_body_data codecs (record request { format = 9 })
        ≡ err (text "invalid pkg format"))
    × (decode_body codecs (record request { format = 9 }) ≡ err (text "invalid package format"))
format_seven = invalid_format codecs (record request { format = 9 }) (omega arith) (omega arith)

-- The body of the request is read back by `DecodeBody`.
request_body : decode_body codecs request ≡ ok (4 ∷ 5 ∷ [])
unfolding decode_body with_codec
request_body = refl
