-- ===== src/Rpc/Tests.antt =====
-- One call from end to end at a concrete client and service, whose method counts the bytes of the body.
use easycall.Base.{
  ℕ, ◌≡◌, refl, Bytes, true, Option, none, some, [], ◌∷◌, length, get_elem?, set, Outcome, ok,
  eq_bytes, if◌then◌else◌, arith,
}
use easycall.Base.Int.{pos}
use easycall.Package.{EasyPackage, encode_with_body, with_codec, encode_parts, stamp}
use easycall.Package.Sample.{codecs, plain-IsCodec, write_head}
use easycall.Connection.Writes.{EasyConnection, send}
use easycall.Middleware.{call}
use easycall.Service.{Exchange, final, dispatch, set_body}
use easycall.Service.Reply.{replied}
use easycall.SessionManager.{EasySession, EasySessionManager}
use easycall.Replies.{done, service_reply}
use easycall.ClientHandler.{client_dispatch}
use easycall.ServiceClient.{request_async_with_head}
use easycall.ServiceClient.Sample.{client, world, head, content, asked, frame, encoded, open_conn}
use easycall.Rpc.{call-returns}

abbrev answer : Exchange Bytes → Bytes
answer x = length x.req.body_data ∷ []

abbrev run : Exchange Bytes → Outcome (Exchange Bytes)
run x = ok (record x { resp = set_body (some (answer x)) x.resp })

abbrev methods : Bytes → Option (Exchange Bytes → Outcome (Exchange Bytes))
methods name = if eq_bytes name (109 ∷ []) then some run else none

call-returns_example :
    let c' = (request_async_with_head codecs 0 head content world client).0 in
    (conn : ℕ) × (ec : EasyConnection) × (x : Exchange Bytes) × (d : Bytes) × (p : EasyPackage
      Bytes)
    × (mgr : EasySessionManager (EasyPackage Bytes)) × (s : EasySession (EasyPackage Bytes))
    × (get_elem? client.conns conn ≡ some ec)
    × (c'.conns ≡ set client.conns conn (send ec frame).0)
    × (dispatch codecs
          (record { middleware = final codecs [] methods; next = none } ∷ [])
          (0 ∷ [])
          2
          true
          (pos 5)
          frame
          open_conn
        ≡ ok (some (replied codecs (record x { resp = set_body (some (answer x)) x.resp }) [] d)))
    × (client_dispatch codecs true d c'.session_mgr ≡ ok mgr)
    × (get_elem? mgr.sessions 0 ≡ some s)
    × (s.received ≡ some p ∷ [])
    × (service_reply codecs (some p) ≡ done (answer x))
unfolding eq_bytes call encode_with_body with_codec encode_parts stamp write_head
call-returns_example =
    call-returns codecs plain-IsCodec plain-IsCodec 0 head content world client
      (request_async_with_head codecs 0 head content world client).0 0 frame asked encoded
      (omega arith) refl (omega arith) [] methods open_conn [] (pos 5)
      (record { middleware = final codecs [] methods; next = none } ∷ []) (0 ∷ []) 2 [] run answer
      (refl, refl) (omega arith) tt refl refl (λ x. refl) (λ x. (_, refl, omega arith))
