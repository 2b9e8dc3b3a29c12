-- ===== src/EasyClient/Agreement.antt =====
-- A request by the client of any service, and the same request by a client of that service alone.
use easycall.Base.{
  ◌≡◌, ◌≢◌, refl, sym, ap, ◌∙◌, Bytes, Option, none, some, List, lookup, lookup-insert_self,
  lookup-insert_ne, bytes_key, some_inj,
}
use easycall.Base.Int.{ℤ, ◌≤ℤ◌}
use easycall.Package.{EasyPackage, Codecs, format_msgpack}
use easycall.Connection.Writes.{EasyConnection}
use easycall.NodeManager.{NodeManager}
use easycall.Replies.{
  error_max_system_code, Reply, LogicError, logic_error, service_reply, easy_reply,
}
use easycall.Replies.Agreement.{without_kind, replies_agree}
use easycall.ServiceClient.{
  ServiceClient, World, Content, Asked, failed, waiting, stuck, panicked, request_async_with_head,
}
use easycall.ServiceClient.Requests.{request_head, finished}
use easycall.ServiceClient.Requests
use easycall.EasyClient.{new_easy_client, client_of, easy_request}
use easycall.EasyClient.Pools.{Call, run_calls, client_of-named}
use easycall.EasyClient.Requests.{request}

-- The result of `Request` with the kind of its error forgotten.
abbrev pub plain : {Body : Type 0} → Option (Reply Body) → Option (Reply Body)
plain none = none
plain (some r) = some (without_kind r)

module _ {Body : Type 0} (codecs : Codecs Body) where
  finished_agree :
      (answer : Option (EasyPackage Body)) (asked : Asked)
      → (plain (finished (easy_reply codecs) answer asked)
          ≡ plain (finished (service_reply codecs) answer asked))
        × ((e : LogicError)
            → finished (service_reply codecs) answer asked ≡ some (logic_error e)
            → error_max_system_code ≤ℤ e.ret)
  unfolding finished
  finished_agree answer (failed e) = (refl, λ e h. cc)
  finished_agree answer (waiting session) =
      let (same, large) = replies_agree codecs answer in
      (ap some (sym same), λ e h. large e (some_inj h))
  finished_agree answer stuck = (refl, λ e h. cc)
  finished_agree answer panicked = (refl, λ e h. cc)

  own_request :
      (service method : Bytes) (body : Content Body) (w : World)
      (answer : Option (EasyPackage Body)) (c : ServiceClient Body)
      → c.service_name ≡ service
      → let sent =
          request_async_with_head codecs format_msgpack (request_head service method) body w c in
        Requests.request codecs method body w answer c
        ≡ (sent.0, finished (service_reply codecs) answer sent.1)
  unfolding Requests.request
  own_request service method body w answer c e = rw (Requests.request, e) refl

  -- After any requests, `EasyClient.Request` changes the client of that service as
  -- `ServiceClient.Request` of that client does, changes no other client, and returns the same: the
  -- same body, or an error of the same code and message, or nothing at all; only the kind of the
  -- error may be another. What `ServiceClient.Request` calls a logic error has a code from 2000 on.
  pub request-request :
      (size kind : ℤ) (calls : List (Call Body)) (service method : Bytes) (body : Content Body)
      (node_mgr : Option NodeManager) (conns : List EasyConnection) (w : World)
      (answer : Option (EasyPackage Body))
      → let ec = run_calls codecs calls (new_easy_client size kind) in
        let (ec', result) = request codecs service method body node_mgr conns w answer ec in
        let (c', result') =
          Requests.request codecs method body w answer (client_of node_mgr conns service ec) in
        (lookup service ec'.clients ≡ some c')
        × ((name : Bytes) → service ≢ name → lookup name ec'.clients ≡ lookup name ec.clients)
        × (plain result ≡ plain result')
        × ((e : LogicError) → result' ≡ some (logic_error e) → error_max_system_code ≤ℤ e.ret)
  unfolding request Requests.request easy_request request_head
  request-request size kind calls service method body node_mgr conns w answer =
      let ec = run_calls codecs calls (new_easy_client size kind) in
      let c = client_of node_mgr conns service ec in
      let named = client_of-named codecs size kind calls service node_mgr conns in
      let sent =
        request_async_with_head codecs format_msgpack (request_head service method) body w c in
      let own = own_request service method body w answer c named in
      let (same, large) = finished_agree answer sent.1 in
      (
        lookup-insert_self service sent.0 ec.clients ∙ ap (λ p. some p.0) (sym own),
        λ name ne. lookup-insert_ne service name sent.0 ec.clients ne,
        same ∙ ap (λ p. plain p.1) (sym own),
        λ e h. large e (ap (λ p. p.1) (sym own) ∙ h),
      )
