-- ===== src/Gateway.antt =====
-- gateway_handler.go and http_handler.go: what a gateway does with a request, and `ProxyMiddleware`
-- of example/gateway.go, which hands it on to the service. The chain of middlewares is that of
-- Middleware. A call that never returns is an error here, `blocked`.
pub mod Chains
pub mod Proxy
pub mod Http
mod Tests
use easycall.Base.{
  ℕ, Bytes, Bool, true, false, Option, none, some, List, [], ◌∷◌, text, if◌then◌else◌, Outcome, ok,
  err, panic, ◌>>=◌, or_panic,
}
use easycall.Head.{EasyHead, set_seq, set_ret, set_msg}
use easycall.Package.{
  EasyPackage, Codecs, new_package_with_body, encode_with_body, decode_with_body_data,
}
use easycall.Connection.Writes.{
  EasyConnection, Sent, queued, dropped, blocked, panics, send, chan_send,
}
use easycall.Middleware.{Middleware, MiddlewareInfo, call, first}
use easycall.NodeManager.{NodeManager}
use easycall.Replies.{SystemError}
use easycall.ServiceClient.{World, raw, Asked, failed, waiting, stuck, panicked}
use easycall.ServiceClient.Requests.{answered}
use easycall.EasyClient.{EasyClient, client_of, easy_request}

-- What the middlewares change: the package, the connection it came from, and the gateway's client.
pub record Proxied (Body : Type 0) : Type 0 where
  pub pkg : EasyPackage Body
  pub client : EasyConnection
  pub upstream : EasyClient Body

abbrev never : Bytes
never = text "blocked"

module _ {Body : Type 0} (codecs : Codecs Body) where
  -- `accepted` says whether the pool of goroutines takes the task; `none` where nothing was run. An
  -- empty chain is logged.
  unfoldable pub gateway_dispatch :
      List (MiddlewareInfo (Proxied Body))
      → List ℕ
      → ℕ
      → Bool
      → Bytes
      → EasyConnection
      → EasyClient Body
      → Outcome (Option (Proxied Body))
  gateway_dispatch heap middlewares fuel accepted pkg_data client upstream =
      if accepted
      then elim (decode_with_body_data codecs pkg_data) [
        | err e ↦ ok none
        | panic ↦ panic
        | ok pkg ↦ elim middlewares [
          | [] ↦ ok none
          | p ∷ ps ↦ do
            run ← or_panic (call fuel heap (some p))
            x ← run (record { pkg = pkg; client = client; upstream = upstream })
            ok (some x)
        ]
      ]
      else ok none

  -- `HttpHandler.ServeHTTP`, on the request and the response writer as one state.
  unfoldable pub serve_http : {S : Type 0} → List (MiddlewareInfo S) → List ℕ → ℕ → S → Outcome S
  serve_http heap [] fuel x = ok x
  serve_http heap (p ∷ ps) fuel x = do run ← or_panic (call fuel heap (some p)); run x

  -- The head after the request: it has the number of the session, if there is one.
  unfoldable pub numbered : EasyHead → EasyClient Body → Asked → EasyHead
  numbered head ec (waiting session) =
      set_seq head (client_of none [] head.service ec).session_mgr.seq
  numbered head ec (failed e) = head
  numbered head ec stuck = head
  numbered head ec panicked = head

  -- How `client.Send` ends.
  abbrev pub finish_send : {A : Type 0} → Sent → A → Outcome A
  finish_send queued x = ok x
  finish_send dropped x = ok x
  finish_send blocked x = err never
  finish_send panics x = panic

  -- `client.Send(d)`, where a nil slice is `none`.
  unfoldable pub send_entry : Option Bytes → Proxied Body → Outcome (Proxied Body)
  send_entry entry x =
      let (client, sent) =
        (if x.client.is_close then (x.client, dropped) else chan_send x.client entry) in
      finish_send sent (record x { client = client })

  -- `if next != nil`
  abbrev pub go_on :
      Option (Proxied Body → Outcome (Proxied Body)) → Proxied Body → Outcome (Proxied Body)
  go_on none x = ok x
  go_on (some run) x = run x

  -- The branch for an error: the package made here has no `pkgData`.
  unfoldable pub reply_error :
      SystemError
      → Option (Proxied Body → Outcome (Proxied Body))
      → Proxied Body
      → Outcome (Proxied Body)
  reply_error e next x =
      let head = set_msg (set_ret x.pkg.head e.ret) e.msg in
      let x' = record x { pkg = record (x.pkg) { head = head } } in
      elim (encode_with_body codecs (new_package_with_body x.pkg.format head none)) [
        | err m ↦ ok x'
        | panic ↦ panic
        | ok resp_data ↦ do
          x1 ← send_entry (some resp_data) x'
          x2 ← send_entry none x1
          go_on next x2
      ]

  -- What follows `RequestWithHead`.
  unfoldable pub hand_back :
      Outcome (Option (EasyPackage Body) × SystemError)
      → Option (Proxied Body → Outcome (Proxied Body))
      → Proxied Body
      → Outcome (Proxied Body)
  hand_back (ok (some resp_pkg, e)) next x = do
    x' ← send_entry (some resp_pkg.pkg_data) x
    go_on next x'
  hand_back (ok (none, e)) next x = reply_error e next x
  hand_back (err m) next x = err m
  hand_back panic next x = panic

  -- `ProxyMiddleware`
  unfoldable pub proxy :
      Option NodeManager
      → List EasyConnection
      → World
      → Option (EasyPackage Body)
      → Middleware (Proxied Body)
  proxy node_mgr conns w answer next x =
      let (upstream, asked) =
        easy_request codecs x.pkg.format x.pkg.head (raw x.pkg.body_data) node_mgr conns w
          x.upstream in
      hand_back (answered answer asked) next (record x {
        pkg = record (x.pkg) { head = numbered x.pkg.head upstream asked };
        upstream = upstream;
      })
