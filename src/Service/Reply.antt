-- ===== src/Service/Reply.antt =====
-- What the service sends back.
use easycall.Base.{
  ℕ, ◌<◌, ◌≡◌, refl, ap, ◌∙◌, Bytes, true, false, Option, none, some, List, [], ◌∷◌, ◌++◌, length,
  text, Outcome, ok, ◌>>=◌,
}
use easycall.Base.Int.{ℤ}
use easycall.Head.{EasyHead, set_ret, set_msg}
use easycall.Package.{
  EasyPackage, Codecs, new_package_with_body, encode_with_body, decode_with_body_data,
}
use easycall.Connection.Writes.{
  EasyConnection, queued, IsOpen, send_queued, easycall_write_queue_size,
}
use easycall.Middleware.{Middleware, MiddlewareInfo, call, first}
use easycall.Middleware.Chain.{compose}
use easycall.Service.{
  error_method_not_found, Exchange, set_body, send_reply, not_found, reply, on_request, final,
  new_exchange, dispatch,
}

-- A middleware that only calls the next one, where there is one.
abbrev pub IsPassing : {S : Type 0} → Middleware S → Type 0
IsPassing {S} f = (run : S → Outcome S) (s : S) → f (some run) s ≡ run s

abbrev pub EachIsPassing : {S : Type 0} → List (Middleware S) → Type 0
EachIsPassing [] = Unit {0}
EachIsPassing (f ∷ fs) = IsPassing f × EachIsPassing fs

compose-passing :
    {S : Type 0} (fs : List (Middleware S)) (f : Middleware S)
    → EachIsPassing fs
    → (run : S → Outcome S) × (compose (fs ++ f ∷ []) ≡ some run) × ((s : S) → run s ≡ f none s)
compose-passing [] f h = (f none, refl, λ s. refl)
compose-passing (g ∷ fs) f (p, ps) =
    let (run, e, k) = compose-passing fs f ps in
    (g (some run), ap (λ o. some (g o)) e, λ s. p run s ∙ k s)

module _ {Body : Type 0} (codecs : Codecs Body) where
  -- The exchange after a reply.
  abbrev pub replied : Exchange Body → List (Option Bytes) → Bytes → Exchange Body
  replied x queue data' = record x {
    client = record x.client {
      write_chan = some (record { queue = queue ++ some data' ∷ []; closed = false });
    };
    sent = some queued;
  }

  send_reply-queued :
      (pkg : EasyPackage Body) (x : Exchange Body) (queue : List (Option Bytes)) (data' : Bytes)
      → IsOpen x.client queue
      → length queue < easycall_write_queue_size
      → encode_with_body codecs pkg ≡ ok data'
      → send_reply codecs pkg x ≡ ok (replied x queue data')
  unfolding send_reply
  send_reply-queued pkg x queue d o lt e =
      rw (send_reply, e) (rw (send_queued x.client queue d o lt) refl)

  module _ (empty : Body) (methods : Bytes → Option (Exchange Body → Outcome (Exchange Body)))
      (pkg : EasyPackage Body) (client : EasyConnection) (queue : List (Option Bytes)) (now : ℤ)
      (o : IsOpen client queue) (room : length queue < easycall_write_queue_size) where
    abbrev start : Exchange Body
    start = new_exchange now pkg client

    -- What the method and the encoder make of the request.
    on_request-found :
        (m : Exchange Body → Outcome (Exchange Body)) (b : Body) (data' : Bytes)
        → methods pkg.head.method ≡ some m
        → m start ≡ ok (record start { resp = set_body (some b) start.resp })
        → encode_with_body codecs (new_package_with_body pkg.format pkg.head (some b)) ≡ ok data'
        → on_request codecs empty methods start
          ≡ ok (replied (record start { resp = set_body (some b) start.resp }) queue data')
    unfolding on_request reply new_exchange
    on_request-found m b d e f g =
        rw (e, f)
          (send_reply-queued (new_package_with_body pkg.format pkg.head (some b))
            (record start { resp = set_body (some b) start.resp }) queue d o room g)

    -- The head of the reply where there is no such method.
    abbrev pub missing_head : EasyHead
    missing_head =
        set_msg (set_ret pkg.head error_method_not_found)
          (text "method " ++ (pkg.head.method ++ text " not found"))

    on_request-missing :
        (data' : Bytes)
        → methods pkg.head.method ≡ none
        → encode_with_body codecs (new_package_with_body pkg.format missing_head (some empty))
          ≡ ok data'
        → on_request codecs empty methods start
          ≡ ok (replied (record start { heads = missing_head ∷ [] }) queue data')
    unfolding on_request not_found new_exchange
    on_request-missing d e g = rw e (
        send_reply-queued (new_package_with_body pkg.format missing_head (some empty))
          (record start { heads = missing_head ∷ [] }) queue d o room g)

    module _ (heap : List (MiddlewareInfo (Exchange Body))) (list : List ℕ) (fuel : ℕ)
        (fs : List (Middleware (Exchange Body))) (frame : Bytes) (passing : EachIsPassing fs)
        (chain : call fuel heap (first list) ≡ compose (fs ++ final codecs empty methods ∷ []))
        (decoded : decode_with_body_data codecs frame ≡ ok pkg) where
      dispatch-final :
          dispatch codecs heap list fuel true now frame client
          ≡ (on_request codecs empty methods start >>= λ x. ok (some x))
      unfolding dispatch final
      dispatch-final =
          let (run, e, k) = compose-passing fs (final codecs empty methods) passing in
          rw (dispatch, decoded, chain, e, k start) refl

      -- Over any chain of middlewares that only call the next one: when a request is decoded whose method the
      -- service has, and the method sets a body and changes nothing else, then one package is sent
      -- on the connection, behind what stands in its queue: the encoding of that body under the
      -- format and the head of the request.
      pub dispatch-found :
          (m : Exchange Body → Outcome (Exchange Body)) (b : Body) (data' : Bytes)
          → methods pkg.head.method ≡ some m
          → m start ≡ ok (record start { resp = set_body (some b) start.resp })
          → encode_with_body codecs (new_package_with_body pkg.format pkg.head (some b)) ≡ ok data'
          → dispatch codecs heap list fuel true now frame client
            ≡ ok (some (replied (record start { resp = set_body (some b) start.resp }) queue data'))
      dispatch-found m b d e f g =
          dispatch-final ∙ ap (λ r. r >>= λ x. ok (some x)) (on_request-found m b d e f g)

      -- Over the same chains: for a method that the service does not have, the reply has the head of
      -- the request with the code 1002 and a message with the method's name, and an empty map for a
      -- body; response and request share that head afterwards.
      pub dispatch-missing :
          (data' : Bytes)
          → methods pkg.head.method ≡ none
          → encode_with_body codecs (new_package_with_body pkg.format missing_head (some empty))
            ≡ ok data'
          → dispatch codecs heap list fuel true now frame client
            ≡ ok (some (replied (record start { heads = missing_head ∷ [] }) queue data'))
      dispatch-missing d e g =
          dispatch-final ∙ ap (λ r. r >>= λ x. ok (some x)) (on_request-missing d e g)
