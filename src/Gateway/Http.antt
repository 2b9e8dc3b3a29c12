-- ===== src/Gateway/Http.antt =====
-- example/gateway.go, `HttpProxyMiddleware`: a request over HTTP is handed on to the service. What it
-- does to the response writer is the list of its calls.
pub mod Responses
mod Tests
use easycall.Base.{
  ℕ, Bytes, Bool, true, false, Option, none, some, List, [], ◌∷◌, ◌++◌, text, if◌then◌else◌,
  Outcome, ok, err, panic, ◌>>=◌,
}
use easycall.Base.Int.{ℤ, pos, eq_ℤ, ltb_ℤ, itoa}
use easycall.Head.{EasyHead, set_uid, set_token, set_request_ip}
use easycall.Package.{EasyPackage, Codecs, format_json}
use easycall.Connection.Writes.{EasyConnection}
use easycall.Config.Strings.{split, parse_uint}
use easycall.Middleware.{Middleware}
use easycall.NodeManager.{NodeManager}
use easycall.Replies.{SystemError, error_max_system_code}
use easycall.ServiceClient.{World, raw}
use easycall.ServiceClient.Requests.{request_head}
use easycall.EasyClient.{EasyClient}
use easycall.EasyClient.Requests.{request_with_head}

-- `r.URL.Path`, `r.Header.Get`, `r.RemoteAddr`, and what `ReadAll` makes of the body.
pub record HttpRequest : Type 0 where
  pub path : Bytes
  pub header : Bytes → Bytes
  pub remote_addr : Bytes
  pub body : Outcome Bytes

-- `w.Header().Set`, `http.Error` and `w.Write`.
pub data Event : Type 0 where
  header_set : Bytes → Bytes → Event
  error : Bytes → ℕ → Event
  written : Bytes → Event

-- What the middlewares change: the calls of the response writer, and the gateway's client.
pub record Http (Body : Type 0) : Type 0 where
  pub req : HttpRequest
  pub events : List Event
  pub upstream : EasyClient Body

abbrev pub tell : {Body : Type 0} → List Event → Http Body → Http Body
tell events x = record x { events = x.events ++ events }

-- The service and the method: from the headers, where the path has two parts, or from the path.
unfoldable pub route : List Bytes → (Bytes → Bytes) → Bytes × Bytes
route (a ∷ b ∷ []) header = (header (text "X-Easycall-Service"), header (text "X-Easycall-Method"))
route (a ∷ service ∷ method ∷ []) header = (service, method)
route _ header = ([], [])

-- `if r.Header.Get(name) != ""`
abbrev pub unless_empty : {A : Type 0} → Bytes → (Bytes → A → A) → A → A
unless_empty [] f a = a
unless_empty (c ∷ cs) f a = f (c ∷ cs) a

-- The error of `ParseUint` is dropped.
unfoldable pub http_head : Bytes → Bytes → HttpRequest → EasyHead
http_head service method r =
    let head =
      unless_empty (r.header (text "X-Easycall-Uid")) (λ uid h. set_uid h (parse_uint uid))
        (request_head service method) in
    let head =
      unless_empty (r.header (text "X-Easycall-Token")) (λ token h. set_token h token) head in
    set_request_ip head r.remote_addr

abbrev ret_header : ℤ → Event
ret_header ret = header_set (text "X-Easycall-Ret") (itoa ret)

abbrev json_type : Event
json_type = header_set (text "Content-Type") (text "application/json;charset=utf-8")

module _ {Body : Type 0} (codecs : Codecs Body) where
  -- From the test of the answer's code on.
  unfoldable pub hand_over :
      EasyPackage Body → Option (Http Body → Outcome (Http Body)) → Http Body → Outcome (Http Body)
  hand_over resp_pkg next x =
      if eq_ℤ resp_pkg.head.ret (pos 0)
      then elim next [
        | none ↦ ok (tell (json_type ∷ written resp_pkg.body_data ∷ []) x)
        | some run ↦ run (tell (json_type ∷ written resp_pkg.body_data ∷ []) x)
      ]
      else ok (
          tell
            (ret_header resp_pkg.head.ret
              ∷ error resp_pkg.head.msg
                  (if ltb_ℤ resp_pkg.head.ret error_max_system_code then 500 else 400)
              ∷ [])
            x)

  -- What follows `RequestWithHead`, all of whose errors are system errors.
  unfoldable pub respond :
      Outcome (Option (EasyPackage Body) × SystemError)
      → Option (Http Body → Outcome (Http Body))
      → Http Body
      → Outcome (Http Body)
  respond (ok (some resp_pkg, e)) next x = hand_over resp_pkg next x
  respond (ok (none, e)) next x = ok (tell (ret_header e.ret ∷ error e.msg 500 ∷ []) x)
  respond (err m) next x = err m
  respond panic next x = panic

  module _ (node_mgr : Option NodeManager) (conns : List EasyConnection) (w : World)
      (answer : Option (EasyPackage Body)) where
    -- From `ioutil.ReadAll` on.
    unfoldable pub forward :
        EasyHead
        → Outcome Bytes
        → Option (Http Body → Outcome (Http Body))
        → Http Body
        → Outcome (Http Body)
    forward head (ok body_data) next x =
        let (upstream, result) =
          request_with_head codecs format_json head (raw body_data) node_mgr conns w answer
            x.upstream in
        respond result next (record x { upstream = upstream })
    forward head (err m) next x = ok (tell (error m 500 ∷ []) x)
    forward head panic next x = panic

    -- From the test of the service and the method on.
    unfoldable pub routed : Bytes × Bytes → Middleware (Http Body)
    routed ([], method) next x = ok (tell (error (text "service or method is empty") 400 ∷ []) x)
    routed (c ∷ cs, []) next x = ok (tell (error (text "service or method is empty") 400 ∷ []) x)
    routed (c ∷ cs, d ∷ ds) next x = forward (http_head (c ∷ cs) (d ∷ ds) x.req) x.req.body next x

    -- `HttpProxyMiddleware`
    unfoldable pub http_proxy : Middleware (Http Body)
    http_proxy next x = routed (route (split 47 x.req.path) x.req.header) next x
