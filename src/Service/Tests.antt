-- ===== src/Service/Tests.antt =====
-- A service without methods at a concrete request.
use easycall.Base.{
  ◌≡◌, refl, Bytes, true, false, Option, none, some, List, [], ◌∷◌, text, lookup, insert, bytes_key,
  eq_bytes, Outcome, ok, arith,
}
use easycall.Base.Int.{pos}
use easycall.Head.{new_easy_head, set_method, set_seq}
use easycall.Package.{
  EasyPackage, with_codec, encode_with_body, decode_with_body_data, encode_parts, stamp, split,
  slice, uint32,
}
use easycall.Package.Sample.{codecs, read_head, read_numbers, write_head}
use easycall.Connection.Writes.{EasyConnection}
use easycall.Middleware.{MiddlewareInfo, call}
use easycall.Service.{
  Exchange, new_exchange, final, dispatch, get_body, get_ext_value, set_ext_value,
}
use easycall.Service.Reply.{replied, missing_head, dispatch-missing}

abbrev no_methods : Bytes → Option (Exchange Bytes → Outcome (Exchange Bytes))
no_methods name = none

abbrev client : EasyConnection
client = record { is_close = false; write_chan = some (record { queue = []; closed = false }) }

abbrev frame : Bytes
frame =
    2 ∷ 1 ∷ 0 ∷ 0 ∷ 0 ∷ 12 ∷ 0 ∷ 0 ∷ 0 ∷ 2 ∷ 0 ∷ 7 ∷ 0 ∷ 1 ∷ 109 ∷ 0 ∷ 0 ∷ 0 ∷ 0 ∷ 0 ∷ 0 ∷ 0 ∷ 4 ∷ 5
    ∷ 3 ∷ []

-- Number 7, method "m", body 4 5.
abbrev request : EasyPackage Bytes
request = record {
  format = 1;
  head = set_seq (set_method new_easy_head (109 ∷ [])) 7;
  body_data = 4 ∷ 5 ∷ [];
  pkg_data = frame;
  body = none;
}

body_of_request : get_body codecs (new_exchange (pos 5) request client).req ≡ ok (4 ∷ 5 ∷ [])
unfolding get_body with_codec new_exchange
body_of_request = refl

ext_kept :
    get_ext_value
      (9 ∷ [])
      (set_ext_value (9 ∷ []) (1 ∷ []) (new_exchange (pos 5) request client).req)
    ≡ some (1 ∷ [])
unfolding get_ext_value set_ext_value new_exchange lookup insert eq_bytes
ext_kept = refl

-- The one object of the chain.
abbrev heap : List (MiddlewareInfo (Exchange Bytes))
heap = record { middleware = final codecs [] no_methods; next = none } ∷ []

abbrev reply : Bytes
reply =
    2 ∷ 1 ∷ 0 ∷ 0 ∷ 0 ∷ 30 ∷ 0 ∷ 0 ∷ 0 ∷ 0 ∷ 0 ∷ 7 ∷ 0 ∷ 1 ∷ 109 ∷ 0 ∷ 0 ∷ 0 ∷ 0 ∷ 18 ∷ 109 ∷ 101
    ∷ 116 ∷ 104 ∷ 111 ∷ 100 ∷ 32 ∷ 109 ∷ 32 ∷ 110 ∷ 111 ∷ 116 ∷ 32 ∷ 102 ∷ 111 ∷ 117 ∷ 110 ∷ 100 ∷ 0
    ∷ 1002 ∷ 3 ∷ []

dispatch-missing_example :
    dispatch codecs heap (0 ∷ []) 2 true (pos 5) frame client
    ≡ ok (
        some (
          replied codecs
            (record (new_exchange (pos 5) request client) {
              heads =
                  missing_head codecs [] no_methods request client []
                    (pos 5)
                    (refl, refl)
                    (omega arith)
                  ∷ [];
            })
            []
            reply))
unfolding call encode_with_body decode_with_body_data with_codec encode_parts stamp split slice
    uint32 read_head read_numbers write_head text
dispatch-missing_example =
    dispatch-missing codecs [] no_methods request client [] (pos 5) (refl, refl) (omega arith) heap
      (0 ∷ []) 2 [] frame tt refl refl reply refl refl
