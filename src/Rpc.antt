-- ===== src/Rpc.antt =====
-- One call from end to end: `RequestAsyncWithHead` of the client (service_client.go), `Dispatch` of
-- the service (service_handler.go), `Dispatch` of the client (client_handler.go) and the end of
-- `Request`. Frames arrive whole, and no other step of the client comes between.
mod Tests
use easycall.Base.{
  ok_inj, ℕ, ◌^◌, ◌<◌, ◌≡◌, ◌≢◌, refl, sym, ap, subst, ◌∙◌, Bytes, Bool, true, false, Option, none,
  some, List, [], ◌∷◌, ◌++◌, length, get_elem?, get_elem?-append, set, Outcome, ok, err, arith,
  if◌then◌else◌,
}
use easycall.Base.Int.{ℤ, pos, eq_ℤ}
use easycall.Head.{EasyHead, set_seq}
use easycall.Package.{
  EasyPackage, Codecs, new_package_with_body, new_package_with_body_data, encode_with_body,
  encode_with_body_data, decode_with_body_data, decode_body,
}
use easycall.Package.RoundTrip.{IsCodec, decode-encode_body_data}
use easycall.Package.Mixed.{decode_data-encode_body}
use easycall.Connection.Writes.{EasyConnection, send, IsOpen, easycall_write_queue_size}
use easycall.Middleware.{Middleware, MiddlewareInfo, call, first}
use easycall.Middleware.Chain.{compose}
use easycall.Service.{Exchange, final, new_exchange, dispatch, set_body}
use easycall.Service.Reply.{EachIsPassing, replied, dispatch-found}
use easycall.SessionManager.{EasySession, EasySessionManager, init_session, process, get_session}
use easycall.SessionManager.Requests.{next_seq, process-init_session}
use easycall.Replies.{Reply, done, service_reply, decoded}
use easycall.ClientHandler.{client_dispatch}
use easycall.ServiceClient.{
  ServiceClient, World, Content, raw, value, Asked, waiting, encode_content,
  request_async_with_head,
}
use easycall.ServiceClient.Ends.{Waits, Ends, Picks, request-Ends}

module _ {Body : Type 0} (codecs : Codecs Body) (l : IsCodec codecs.msgpack)
    (m : IsCodec codecs.json) where
  -- The package that the service decodes has the format and the head of the request.
  decode-content :
      (format : ℕ) (head h : EasyHead) (content : Content Body) (frame : Bytes)
      → encode_content codecs format head content h ≡ ok frame
      → length frame < 2 ^ 32
      → (d : Bytes) × (decode_with_body_data codecs frame
          ≡ ok (record { format = format; head = h; body_data = d; pkg_data = frame; body = none }))
  unfolding encode_content
  decode-content format head h (raw d) frame e lt =
      (d, decode-encode_body_data codecs (new_package_with_body_data format h d) frame l m e lt)
  decode-content format head h (value b) frame e lt =
      let (d, k, _) =
        decode_data-encode_body codecs (new_package_with_body format h b) frame l m e lt in
      (d, k)

  service_reply-done :
      (p : EasyPackage Body) (b : Body)
      → p.head.ret ≡ pos 0
      → decode_body codecs p ≡ ok b
      → service_reply codecs (some p) ≡ done b
  unfolding service_reply decoded
  service_reply-done p b z e =
      let test : eq_ℤ p.head.ret (pos 0) ≡ true = ap (λ r. eq_ℤ r (pos 0)) z in rw (test, e) refl

  -- The answer to a new session reaches it, and `Request` returns the body.
  reply-arrives :
      (mgr : EasySessionManager (EasyPackage Body)) (node format : ℕ) (h : EasyHead) (b : Body)
      (d : Bytes)
      → h.seq ≡ next_seq mgr
      → next_seq mgr ≢ 0
      → h.ret ≡ pos 0
      → encode_with_body codecs (new_package_with_body format h (some b)) ≡ ok d
      → length d < 2 ^ 32
      → (p : EasyPackage Body) × (client_dispatch codecs true d (init_session node mgr).0
          ≡ ok (process (next_seq mgr) p (init_session node mgr).0))
        × (service_reply codecs (some p) ≡ done b)
  unfolding client_dispatch
  reply-arrives mgr node format h b d q ne z e lt =
      let (data', k, g) =
        decode_data-encode_body codecs (new_package_with_body format h (some b)) d l m e lt in
      (
        record { format = format; head = h; body_data = data'; pkg_data = d; body = none },
        rw (client_dispatch, k, q) refl,
        service_reply-done
            (record { format = format; head = h; body_data = data'; pkg_data = d; body = none }) b z
            (g b refl),
      )

  module _ (format : ℕ) (head : EasyHead) (content : Content Body) (w : World)
      (c c' : ServiceClient Body) (session : ℕ) (frame : Bytes)
      (asked : request_async_with_head codecs format head content w c ≡ (c', waiting session)) where
    -- Let both codecs read back what they write. A client's request has returned a channel; its frame
    -- is shorter than 2^32 bytes, its head has the code 0, and the next number of a session is not 0.
    -- The service has the method, which sets a body that depends on the exchange in any way, and a
    -- chain of middlewares that only call the next one; its connection is open with room in the
    -- queue, and every such body can be encoded in fewer than 2^32 bytes. Then the frame was handed
    -- to one connection of the client; the service makes one exchange of it and sends one reply; and
    -- when the client gets the reply, the session of the request receives one package, of which
    -- `Request` returns exactly the body that the method set.
    pub call-returns :
        encode_content codecs format head content (set_seq head (next_seq c.session_mgr)) ≡ ok frame
        → length frame < 2 ^ 32
        → head.ret ≡ pos 0
        → next_seq c.session_mgr ≢ 0
        → (empty : Body) (methods : Bytes → Option (Exchange Body → Outcome (Exchange Body)))
          (srv : EasyConnection) (queue : List (Option Bytes)) (now : ℤ)
          (heap : List (MiddlewareInfo (Exchange Body))) (list : List ℕ) (fuel : ℕ)
          (fs : List (Middleware (Exchange Body))) (run : Exchange Body → Outcome (Exchange Body))
          (answer : Exchange Body → Body)
        → IsOpen srv queue
        → length queue < easycall_write_queue_size
        → EachIsPassing fs
        → call fuel heap (first list) ≡ compose (fs ++ final codecs empty methods ∷ [])
        → methods head.method ≡ some run
        → ((x : Exchange Body) → run x ≡ ok (record x { resp = set_body (some (answer x)) x.resp }))
        → ((x : Exchange Body)
            → (d : Bytes) × (encode_with_body codecs (
                  new_package_with_body format
                    (set_seq head (next_seq c.session_mgr))
                    (some (answer x)))
                ≡ ok d)
              × (length d < 2 ^ 32))
        → (conn : ℕ) × (ec : EasyConnection) × (x : Exchange Body) × (d : Bytes) × (p : EasyPackage
            Body)
          × (mgr : EasySessionManager (EasyPackage Body)) × (s : EasySession (EasyPackage Body))
          × (get_elem? c.conns conn ≡ some ec)
          × (c'.conns ≡ set c.conns conn (send ec frame).0)
          × (dispatch codecs heap list fuel true now frame srv
              ≡ ok (
                  some (
                    replied codecs
                      (record x { resp = set_body (some (answer x)) x.resp })
                      queue
                      d)))
          × (client_dispatch codecs true d c'.session_mgr ≡ ok mgr)
          × (get_elem? mgr.sessions session ≡ some s)
          × (s.received ≡ some p ∷ [])
          × (service_reply codecs (some p) ≡ done (answer x))
    call-returns e lt z ne empty methods srv queue now heap list fuel fs run answer o room passing
          chain found sets fits =
        let ends =
          subst (Ends codecs format head content (Picks w head c) c.session_mgr c.conns) asked
            (request-Ends codecs format head content w c) in
        let h = set_seq head (next_seq c.session_mgr) in
        let (body_data, k) = decode-content format head h content frame e lt in
        let pkg : EasyPackage Body = record {
          format = format;
          head = h;
          body_data = body_data;
          pkg_data = frame;
          body = none;
        } in
        let x : Exchange Body = new_exchange now pkg srv in
        let (d, enc, fit) = fits x in
        let (p, disp, rep) =
          reply-arrives c.session_mgr ends.node.addr format h (answer x) d refl ne z enc fit in
        let (ss, _, _) = process-init_session ends.node.addr p c.session_mgr ne in
        (
          ends.conn,
          ends.ec,
          x,
          d,
          p,
          process (next_seq c.session_mgr) p (init_session ends.node.addr c.session_mgr).0,
          record {
            seq = next_seq c.session_mgr;
            resp_chan = false;
            timer = false;
            node = ends.node.addr;
            received = some p ∷ [];
          },
          ends.found,
          ends.handed
              ∙ ap (λ f. set c.conns ends.conn (send ends.ec f).0) (ok_inj (sym ends.encoded ∙ e)),
          dispatch-found codecs empty methods pkg srv queue now o room heap list fuel fs frame
              passing chain k run (answer x) d found (sets x) enc,
          ap (client_dispatch codecs true d) ends.is_mgr ∙ disp,
          rw (ss, ends.is_session) (get_elem?-append c.session_mgr.sessions _ []),
          refl,
          rep,
        )
