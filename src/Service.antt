-- ===== src/Service.antt =====
-- service_handler.go, request.go and response.go: one request on the side of the service. The heads
-- of request and response are pointers to one object: `heads` is the store, and a pointer an index.
-- The service and the values of `ext` are parameters; a method is what a call of it does.
pub mod Reply
mod Tests
use easycall.Base.{
  ℕ, Bytes, Bool, Option, none, some, List, [], ◌∷◌, ◌++◌, get_elem?, set, lookup, insert,
  bytes_key, text, if◌then◌else◌, Outcome, ok, err, panic, ◌>>=◌, or_panic,
}
use easycall.Base.Int.{ℤ, pos}
use easycall.Head.{EasyHead, set_ret, set_msg}
use easycall.Package.{
  EasyPackage, Codecs, new_package_with_body, encode_with_body, decode_with_body_data, with_codec,
}
use easycall.Connection.Writes.{EasyConnection, Sent, send}
use easycall.Middleware.{Middleware, MiddlewareInfo, call, first}

abbrev pub error_method_not_found : ℤ
error_method_not_found = pos 1002

pub record Request (Body : Type 0) : Type 0 where
  pub format : ℕ
  pub head : ℕ
  pub body_data : Bytes
  pub create_time : ℤ
  pub ext : List (Bytes × Body)

pub record Response (Body : Type 0) : Type 0 where
  pub format : ℕ
  pub head : ℕ
  pub body : Option Body

-- What the middlewares and the method change. `sent` is what became of the reply, if one was sent.
pub record Exchange (Body : Type 0) : Type 0 where
  pub heads : List EasyHead
  pub req : Request Body
  pub resp : Response Body
  pub client : EasyConnection
  pub sent : Option Sent

module _ {Body : Type 0} where
  unfoldable pub get_body : Codecs Body → Request Body → Outcome Body
  get_body codecs r =
      with_codec codecs r.format (λ c. c.decode_body r.body_data) (text "invalid package format")

  unfoldable pub get_ext_value : Bytes → Request Body → Option Body
  get_ext_value key r = lookup key r.ext

  unfoldable pub set_ext_value : Bytes → Body → Request Body → Request Body
  set_ext_value key value r = record r { ext = insert key value r.ext }

  abbrev pub set_body : Option Body → Response Body → Response Body
  set_body body r = record r { body = body }

  abbrev pub set_head : ℕ → Response Body → Response Body
  set_head head r = record r { head = head }

  abbrev pub set_format : ℕ → Response Body → Response Body
  set_format format r = record r { format = format }

  -- Encodes a reply and sends it; what cannot be encoded is logged and not sent.
  unfoldable pub send_reply :
      Codecs Body → EasyPackage Body → Exchange Body → Outcome (Exchange Body)
  send_reply codecs pkg x = elim (encode_with_body codecs pkg) [
    | ok pkg_data ↦
        let (client, sent) = send x.client pkg_data in
        ok (record x { client = client; sent = some sent })
    | err e ↦ ok x
    | panic ↦ panic
  ]

  -- `empty` is the empty map.
  unfoldable pub not_found : Codecs Body → Body → EasyHead → Exchange Body → Outcome (Exchange Body)
  not_found codecs empty head x =
      let head =
        set_msg (set_ret head error_method_not_found)
          (text "method " ++ (head.method ++ text " not found")) in
      send_reply codecs (new_package_with_body x.req.format head (some empty))
        (record x { heads = set x.heads x.req.head head })

  -- What follows the call of the method.
  unfoldable pub reply : Codecs Body → Exchange Body → Outcome (Exchange Body)
  reply codecs x = do
    head ← or_panic (get_elem? x.heads x.resp.head)
    send_reply codecs (new_package_with_body x.resp.format head x.resp.body) x

  -- `methods` is `MethodByName` of the service.
  unfoldable pub on_request :
      Codecs Body
      → Body
      → (Bytes → Option (Exchange Body → Outcome (Exchange Body)))
      → Exchange Body
      → Outcome (Exchange Body)
  on_request codecs empty methods x = do
    head ← or_panic (get_elem? x.heads x.req.head)
    elim (methods head.method) [
      | none ↦ not_found codecs empty head x
      | some m ↦ do x' ← m x; reply codecs x'
    ]

  -- `finalFunc`; the end of the chain does not call what follows it.
  unfoldable pub final :
      Codecs Body
      → Body
      → (Bytes → Option (Exchange Body → Outcome (Exchange Body)))
      → Middleware (Exchange Body)
  final codecs empty methods next x = on_request codecs empty methods x

  -- The exchange that `Dispatch` makes of a package.
  unfoldable pub new_exchange : ℤ → EasyPackage Body → EasyConnection → Exchange Body
  new_exchange now pkg client = record {
    heads = pkg.head ∷ [];
    req = record {
      format = pkg.format;
      head = 0;
      body_data = pkg.body_data;
      create_time = now;
      ext = [];
    };
    resp = record { format = pkg.format; head = 0; body = none };
    client = client;
    sent = none;
  }

  -- `accepted` says whether the pool of goroutines takes the task. The result is `none` where
  -- nothing was run. A panic is recovered and logged.
  unfoldable pub dispatch :
      Codecs Body
      → List (MiddlewareInfo (Exchange Body))
      → List ℕ
      → ℕ
      → Bool
      → ℤ
      → Bytes
      → EasyConnection
      → Outcome (Option (Exchange Body))
  dispatch codecs heap middlewares fuel accepted now pkg_data client =
      if accepted
      then elim (decode_with_body_data codecs pkg_data) [
        | err e ↦ ok none
        | panic ↦ panic
        | ok pkg ↦ do
          run ← or_panic (call fuel heap (first middlewares))
          x ← run (new_exchange now pkg client)
          ok (some x)
      ]
      else ok none
