-- ===== src/EasyClient/Pools.antt =====
-- The clients that an `EasyClient` makes: the names they are for, and the size of their pools.
use easycall.Base.{
  some_inj, ℕ, ◌≡◌, ◌≢◌, refl, sym, subst, ◌∙◌, Bytes, Option, some, List, [], ◌∷◌, lookup,
  lookup-insert, lookup-insert_ne, bytes_key, eq_bytes, eq_bytes_iff, Bool-cases, Option-cases, inl,
  inr,
}
use easycall.Base.Int.{ℤ, pos}
use easycall.Head.{EasyHead}
use easycall.Package.{Codecs}
use easycall.Connection.Writes.{EasyConnection}
use easycall.NodeManager.{NodeManager}
use easycall.Pool.{GenericPool}
use easycall.ServiceClient.{
  ServiceClient, World, Content, new_service_client, find_nodes, request_async_with_head,
}
use easycall.ServiceClient.Sizes.{Keeps, request-Keeps}
use easycall.EasyClient.{EasyClient, new_easy_client, client_of, easy_request}

-- One request, and what is outside of the client during it.
pub record Call (Body : Type 0) : Type 0 where
  pub format : ℕ
  pub head : EasyHead
  pub body : Content Body
  pub node_mgr : Option NodeManager
  pub conns : List EasyConnection
  pub world : World

module _ {Body : Type 0} where
  abbrev AllKeep : EasyClient Body → Type 0
  AllKeep ec =
      (name : Bytes) (c : ServiceClient Body) → lookup name ec.clients ≡ some c → Keeps name c

  new-Keeps :
      (node_mgr : Option NodeManager) (conns : List EasyConnection) (name : Bytes) (size kind : ℤ)
      → Keeps name (new_service_client {Body = Body} node_mgr conns name size kind)
  unfolding new_service_client lookup
  new-Keeps node_mgr conns name size kind = record {
    named = refl;
    unset = refl;
    small = λ key pool e. absurd (cc);
  }

  client_of-Keeps :
      (node_mgr : Option NodeManager) (conns : List EasyConnection) (name : Bytes)
      (ec : EasyClient Body)
      → AllKeep ec
      → Keeps name (client_of node_mgr conns name ec)
  unfolding client_of
  client_of-Keeps node_mgr conns name ec k = elim (Option-cases (lookup name ec.clients)) [
    | inl n ↦ rw (client_of, n) (new-Keeps node_mgr conns name ec.pool_size ec.loadbalance_type)
    | inr (c, f) ↦ rw (client_of, f) (k name c f)
  ]

  module _ (codecs : Codecs Body) where
    -- The clients after these requests.
    abbrev pub run_calls : List (Call Body) → EasyClient Body → EasyClient Body
    run_calls [] ec = ec
    run_calls (r ∷ rest) ec =
        run_calls rest (easy_request codecs r.format r.head r.body r.node_mgr r.conns r.world ec).0

    easy_request-AllKeep :
        (r : Call Body) (ec : EasyClient Body)
        → AllKeep ec
        → AllKeep (easy_request codecs r.format r.head r.body r.node_mgr r.conns r.world ec).0
    unfolding easy_request
    easy_request-AllKeep r ec k name c h =
        let client =
          (request_async_with_head codecs r.format r.head r.body r.world
            (client_of r.node_mgr r.conns r.head.service ec)).0 in
        let l = lookup-insert {V = ServiceClient Body} r.head.service name client ec.clients in
        elim (Bool-cases (eq_bytes r.head.service name)) [
          | inl y ↦
              subst (λ c. Keeps name c) (some_inj (sym (rw y at l) ∙ h))
                (subst (λ n. Keeps n client) ((eq_bytes_iff r.head.service name).0 y)
                  (request-Keeps codecs r.format r.head r.body r.head.service r.world
                    (client_of r.node_mgr r.conns r.head.service ec)
                    (client_of-Keeps r.node_mgr r.conns r.head.service ec k)))
          | inr n ↦ k name c (sym (rw n at l) ∙ h)
        ]

    run_calls-AllKeep :
        (calls : List (Call Body)) (ec : EasyClient Body)
        → AllKeep ec
        → AllKeep (run_calls calls ec)
    run_calls-AllKeep [] ec k = k
    run_calls-AllKeep (r ∷ rest) ec k = run_calls-AllKeep rest _ (easy_request-AllKeep r ec k)

    new-AllKeep : (size kind : ℤ) → AllKeep (new_easy_client {Body = Body} size kind)
    unfolding lookup
    new-AllKeep size kind name c e = absurd (cc)

    -- Whatever the size given to `NewEasyClient`, and whatever requests were made, every pool of
    -- every client has room for exactly 10 resources, the least size.
    pub pool_size_ignored :
        (size kind : ℤ) (calls : List (Call Body)) (name key : Bytes) (c : ServiceClient Body)
        (pool : GenericPool)
        → lookup name (run_calls calls (new_easy_client size kind)).clients ≡ some c
        → lookup key c.pool_map ≡ some pool
        → pool.max_size ≡ pos 10
    pool_size_ignored size kind calls name key c pool e f =
        (run_calls-AllKeep calls (new_easy_client size kind) (new-AllKeep size kind) name c e).small
          key pool f

    -- The client of a name was made for that name.
    pub client_of-named :
        (size kind : ℤ) (calls : List (Call Body)) (name : Bytes) (node_mgr : Option NodeManager)
        (conns : List EasyConnection)
        → (client_of node_mgr conns name (run_calls calls (new_easy_client size kind))).service_name
          ≡ name
    client_of-named size kind calls name node_mgr conns =
        (client_of-Keeps node_mgr conns name (run_calls calls (new_easy_client size kind))
          (run_calls-AllKeep calls (new_easy_client size kind) (new-AllKeep size kind))).named

    -- After any requests, a request to a service passes the test of the name, since its client was
    -- made for that name, and leaves the client of every other service as it was.
    pub easy_request_own :
        (size kind : ℤ) (calls : List (Call Body)) (r : Call Body)
        → let ec = run_calls calls (new_easy_client size kind) in
          let c = client_of r.node_mgr r.conns r.head.service ec in
          ((easy_request codecs r.format r.head r.body r.node_mgr r.conns r.world ec).1
            ≡ (find_nodes codecs r.format r.head r.body r.world c.node_mgr c).1)
          × ((name : Bytes)
              → r.head.service ≢ name
              → lookup name
                  (easy_request codecs r.format r.head r.body r.node_mgr r.conns r.world
                    ec).0.clients
                ≡ lookup name ec.clients)
    unfolding easy_request request_async_with_head
    easy_request_own size kind calls r =
        let ec = run_calls calls (new_easy_client size kind) in
        let k =
          client_of-Keeps r.node_mgr r.conns r.head.service ec
            (run_calls-AllKeep calls (new_easy_client size kind) (new-AllKeep size kind)) in
        let own =
          (eq_bytes_iff r.head.service
              (client_of r.node_mgr r.conns r.head.service ec).service_name).1
            (sym k.named) in
        (
          rw (easy_request, request_async_with_head, own) refl,
          λ name ne. lookup-insert_ne r.head.service name _ ec.clients ne,
        )
