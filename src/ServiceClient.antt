-- ===== src/ServiceClient.antt =====
-- service_client.go: one request of a client, over the nodes, the load balancer, the pools of
-- connections and the sessions. A resource of a pool is a connection, and a pointer to it its index
-- in `conns`, where those stand too that the factory is to make. `World` is what etcd, the clock, the random generator, the network and the factory
-- answer during one request.
pub mod Ends
pub mod Loads
pub mod PoolSizes
pub mod Requests
pub mod Sizes
pub mod Sample
mod Tests
use easycall.Base.{
  ℕ, Bytes, Bool, Option, none, some, List, [], ◌∷◌, ◌++◌, map, get_elem?, set, lookup, insert,
  bytes_key, text, eq_bytes, if◌then◌else◌, Outcome, ok, err, panic,
}
use easycall.Base.Int.{ℤ, pos, wrap, half32, itoa}
use easycall.Head.{EasyHead, set_seq}
use easycall.Package.{
  EasyPackage, Codecs, new_package_with_body, new_package_with_body_data, encode_with_body,
  encode_with_body_data,
}
use easycall.Connection.Writes.{EasyConnection, Sent, queued, dropped, blocked, panics, send}
use easycall.NodeManager.{Node, NodeManager, get_nodes}
use easycall.LoadBalancer.{LoadBalancer, new_load_balancer, lb_hash, set_nodes, get_node}
use easycall.Pool.{GenericPool, Round, Released, new_generic_pool, acquire, release}
use easycall.Pool
use easycall.SessionManager.{EasySessionManager, init_session, take_out}
use easycall.Replies.{SystemError, error_service_not_found, error_internal_error}

abbrev pub pool_min_size : ℤ
pool_min_size = pos 10

-- 1800 seconds, in nanoseconds.
abbrev pub pool_active_time : ℤ
pool_active_time = pos 1800000000000

pub record ServiceClient (Body : Type 0) : Type 0 where
  pub session_mgr : EasySessionManager (EasyPackage Body)
  pub node_mgr : Option NodeManager
  pub pool_map : List (Bytes × GenericPool)
  pub load_balance_type : ℤ
  pub pool_size : ℤ
  pub service_name : Bytes
  pub lb : LoadBalancer
  pub conns : List EasyConnection

pub record World : Type 0 where
  pub now : ℤ
  pub later : ℤ
  pub answer : Outcome (List Bytes)
  pub decode : Bytes → Option Node
  pub draw : ℕ
  pub created : List (Outcome ℕ)
  pub rounds : List Round

-- The body of a request: bytes that are encoded already, or a value.
pub data Content (Body : Type 0) : Type 0 where
  raw : Bytes → Content Body
  value : Option Body → Content Body

-- How a request ends: with an error, with the channel of a session, never, or in a panic.
pub data Asked : Type 0 where
  failed : SystemError → Asked
  waiting : ℕ → Asked
  stuck panicked : Asked

abbrev internal : Bytes → Asked
internal msg = failed (record { ret = error_internal_error; msg = msg })

-- `node_mgr` is what `NewNodeManager` returned, if it did, and `conns` are the connections that the
-- factory will make. The argument `pool_size` is not used.
unfoldable pub new_service_client :
    {Body : Type 0} → Option NodeManager → List EasyConnection → Bytes → ℤ → ℤ → ServiceClient Body
new_service_client node_mgr conns service_name pool_size load_balance_type = record {
  session_mgr = record { session_map = []; seq = 0; sessions = []; active = λ n. pos 0 };
  node_mgr = node_mgr;
  pool_map = [];
  load_balance_type = load_balance_type;
  pool_size = pos 0;
  service_name = service_name;
  lb = new_load_balancer;
  conns = conns;
}

-- A node as it is read: its counter is what its object holds now.
abbrev pub refresh : (ℕ → ℤ) → Node → Node
refresh active n = record n { active = active n.addr }

-- The key of a node's pool.
unfoldable pub pool_key : Node → Bytes
pool_key node = node.ip ++ (58 ∷ itoa node.port)

unfoldable pub balance_type : ℤ → EasyHead → ℤ
balance_type kind head = elim head.route_key [ [] ↦ kind | c ∷ cs ↦ lb_hash ]

-- How the call goes on after `Send`.
abbrev pub after_send : ℕ → Sent → Asked
after_send session queued = waiting session
after_send session dropped = waiting session
after_send session blocked = stuck
after_send session panics = panicked

-- The pool of the node, made at the first use.
unfoldable pub find_pool :
    {Body : Type 0} → World → Bytes → ServiceClient Body → Outcome GenericPool
find_pool w key c = elim (lookup key c.pool_map) [
  | some pool ↦ ok pool
  | none ↦ new_generic_pool pool_min_size (wrap half32 c.pool_size) pool_active_time w.created
]

unfoldable pub send_on :
    {Body : Type 0} → ℕ → ℕ → Bytes → ServiceClient Body → ServiceClient Body × Asked
send_on session conn pkg_data c = elim (get_elem? c.conns conn) [
  | none ↦ (c, panicked)
  | some ec ↦
      let (ec', sent) = send ec pkg_data in
      (record c { conns = set c.conns conn ec' }, after_send session sent)
]

module _ {Body : Type 0} (codecs : Codecs Body) (format : ℕ) (head : EasyHead)
    (body : Content Body) where
  unfoldable pub encode_content : EasyHead → Outcome Bytes
  encode_content head = elim body [
    | raw d ↦ encode_with_body_data codecs (new_package_with_body_data format head d)
    | value b ↦ encode_with_body codecs (new_package_with_body format head b)
  ]

  -- From `InitSession` on. After an error of the encoder, `DestorySessionAndRespPkg` sends on a
  -- channel that nobody receives from, and does not return.
  unfoldable pub ask : ℕ → Node → ServiceClient Body → ServiceClient Body × Asked
  ask conn node c =
      let (mgr, session) = init_session node.addr c.session_mgr in
      elim (encode_content (set_seq head mgr.seq)) [
        | ok pkg_data ↦ send_on session conn pkg_data (record c { session_mgr = mgr })
        | err e ↦ (record c { session_mgr = take_out session mgr }, stuck)
        | panic ↦ (record c { session_mgr = mgr }, panicked)
      ]

  -- `pool.Release(conn)`, right after the connection was acquired.
  unfoldable pub give_back :
      Bytes → ℕ → Node → GenericPool → ServiceClient Body → ServiceClient Body × Asked
  give_back key conn node pool c =
      let (pool', result) = release conn pool in
      let c' = record c { pool_map = insert key pool' c.pool_map } in
      elim result [ Released.blocked ↦ (c', stuck) | _ ↦ ask conn node c' ]

  -- What follows `Acquire`, by its result.
  unfoldable pub got_conn :
      Bytes
      → Node
      → GenericPool
      → ServiceClient Body
      → Option (Outcome ℕ)
      → ServiceClient Body × Asked
  got_conn key node pool c none = (c, stuck)
  got_conn key node pool c (some (ok conn)) = give_back key conn node pool c
  got_conn key node pool c (some (err e)) = (c, internal e)
  got_conn key node pool c (some panic) = (c, panicked)

  unfoldable pub take_conn :
      World → Bytes → Node → GenericPool → ServiceClient Body → ServiceClient Body × Asked
  take_conn w key node pool c =
      let (pool', result) = acquire w.rounds pool in
      got_conn key node pool' (record c { pool_map = insert key pool' c.pool_map }) result

  unfoldable pub connect : World → Node → ServiceClient Body → ServiceClient Body × Asked
  connect w node c = elim (find_pool w (pool_key node) c) [
    | ok pool ↦ take_conn w (pool_key node) node pool c
    | err e ↦ (c, internal e)
    | panic ↦ (c, panicked)
  ]

  -- What follows `GetNode`, by its result.
  unfoldable pub picked : World → ServiceClient Body → Outcome Node → ServiceClient Body × Asked
  picked w c (ok node) = connect w node c
  picked w c (err e) = (c, internal e)
  picked w c panic = (c, panicked)

  unfoldable pub choose : World → List Node → ServiceClient Body → ServiceClient Body × Asked
  choose w nodes c =
      let (lb, result) =
        get_node (set_nodes c.lb (map (refresh c.session_mgr.active) nodes))
          (balance_type c.load_balance_type head) head.route_key w.draw in
      picked w (record c { lb = lb }) result

  -- What follows `getNodes`, by its result.
  unfoldable pub listed :
      World → ServiceClient Body → Outcome (List Node) → ServiceClient Body × Asked
  listed w c (ok nodes) = choose w nodes c
  listed w c (err e) = (c, failed (record { ret = error_service_not_found; msg = e }))
  listed w c panic = (c, panicked)

  -- From the test for a nil manager on.
  unfoldable pub find_nodes :
      World → Option NodeManager → ServiceClient Body → ServiceClient Body × Asked
  find_nodes w none c = (c, internal (text "nodemgr is nil,maybe etcd connect fail"))
  find_nodes w (some nm) c =
      let (nm', result) = get_nodes w.decode w.now w.later w.answer nm in
      listed w (record c { node_mgr = some nm' }) result

  unfoldable pub request_async_with_head : World → ServiceClient Body → ServiceClient Body × Asked
  request_async_with_head w c =
      if eq_bytes head.service c.service_name
      then find_nodes w c.node_mgr c
      else (c, internal (text "service name is different from init"))
