-- ===== src/EasyClient.antt =====
-- easy_client.go: one `ServiceClient` for each name of a service. A client is reached through its
-- entry of `clients` only, so that what a request changes is put back there.
pub mod Pools
pub mod Requests
pub mod Agreement
mod Tests
use easycall.Base.{ℕ, Bytes, Bool, Option, none, some, List, [], ◌∷◌, lookup, insert, bytes_key}
use easycall.Base.Int.{ℤ}
use easycall.Head.{EasyHead}
use easycall.Package.{Codecs}
use easycall.Connection.Writes.{EasyConnection}
use easycall.NodeManager.{NodeManager}
use easycall.ServiceClient.{
  ServiceClient, World, Content, Asked, new_service_client, request_async_with_head,
}

-- The endpoints are used by `NewNodeManager` only.
pub record EasyClient (Body : Type 0) : Type 0 where
  pub clients : List (Bytes × ServiceClient Body)
  pub pool_size : ℤ
  pub loadbalance_type : ℤ

abbrev pub new_easy_client : {Body : Type 0} → ℤ → ℤ → EasyClient Body
new_easy_client pool_size loadbalance_type = record {
  clients = [];
  pool_size = pool_size;
  loadbalance_type = loadbalance_type;
}

-- The client of a name, made at its first use; `node_mgr` is what `NewNodeManager` returns then,
-- and `conns` the connections that its factory will make.
unfoldable pub client_of :
    {Body : Type 0}
    → Option NodeManager
    → List EasyConnection
    → Bytes
    → EasyClient Body
    → ServiceClient Body
client_of node_mgr conns service ec = elim (lookup service ec.clients) [
  | none ↦ new_service_client node_mgr conns service ec.pool_size ec.loadbalance_type
  | some client ↦ client
]

unfoldable pub easy_request :
    {Body : Type 0}
    → Codecs Body
    → ℕ
    → EasyHead
    → Content Body
    → Option NodeManager
    → List EasyConnection
    → World
    → EasyClient Body
    → EasyClient Body × Asked
easy_request codecs format head body node_mgr conns w ec =
    let (client, asked) =
      request_async_with_head codecs format head body w
        (client_of node_mgr conns head.service ec) in
    (record ec { clients = insert head.service client ec.clients }, asked)
