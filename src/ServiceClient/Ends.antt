-- ===== src/ServiceClient/Ends.antt =====
-- What a request has done when it returns.
use easycall.Base.{
  ℕ, ◌≡◌, inl, inr, refl, Bytes, Option, none, some, List, map, length, get_elem?, set, insert,
  bytes_key, eq_bytes, Bool-cases, Option-cases, Outcome-cases, Outcome, ok, err, panic,
}
use easycall.Head.{EasyHead, set_seq}
use easycall.Package.{EasyPackage, Codecs}
use easycall.Connection.Writes.{EasyConnection, Sent, queued, dropped, blocked, panics, send}
use easycall.NodeManager.{Node, NodeManager, get_nodes}
use easycall.LoadBalancer.{set_nodes, get_node}
use easycall.Pool.{GenericPool, Released, released, refused, acquire, release}
use easycall.SessionManager.{EasySessionManager, init_session}
use easycall.SessionManager.Requests.{next_seq}
use easycall.ServiceClient.{
  ServiceClient, World, Content, Asked, failed, waiting, stuck, panicked, refresh, pool_key,
  balance_type, encode_content, after_send, send_on, ask, give_back, got_conn, take_conn, find_pool,
  connect, picked, choose, listed, find_nodes, request_async_with_head,
}

module _ {Body : Type 0} (codecs : Codecs Body) (format : ℕ) (head : EasyHead) (body : Content Body)
    (Chosen : Node → Type 0) where
  -- One session was made, for a chosen node, and one package was handed to some connection: the
  -- encoding of the request, under the number of the session.
  pub record Waits (mgr : EasySessionManager (EasyPackage Body)) (conns : List EasyConnection)
      (c : ServiceClient Body) (session : ℕ) : Type 0 where
    pub node : Node
    pub chosen : Chosen node
    pub conn : ℕ
    pub ec : EasyConnection
    pub pkg_data : Bytes
    pub is_session : session ≡ length mgr.sessions
    pub is_mgr : c.session_mgr ≡ (init_session node.addr mgr).0
    pub encoded : encode_content codecs format head body (set_seq head (next_seq mgr)) ≡ ok pkg_data
    pub found : get_elem? conns conn ≡ some ec
    pub handed : c.conns ≡ set conns conn (send ec pkg_data).0

  -- Where the request returns an error, there is no new session and nothing was sent.
  abbrev pub Ends :
      EasySessionManager (EasyPackage Body)
      → List EasyConnection
      → ServiceClient Body × Asked
      → Type 0
  Ends mgr conns (c, failed e) = (c.session_mgr ≡ mgr) × (c.conns ≡ conns)
  Ends mgr conns (c, waiting session) = Waits mgr conns c session
  Ends mgr conns (c, stuck) = Unit {0}
  Ends mgr conns (c, panicked) = Unit {0}

  send_on-Ends :
      (conn : ℕ) (node : Node) (pkg_data : Bytes) (mgr : EasySessionManager (EasyPackage Body))
      (c : ServiceClient Body)
      → Chosen node
      → encode_content codecs format head body (set_seq head (next_seq mgr)) ≡ ok pkg_data
      → c.session_mgr ≡ (init_session node.addr mgr).0
      → Ends mgr c.conns (send_on (length mgr.sessions) conn pkg_data c)
  unfolding send_on
  send_on-Ends conn node d mgr c q e m = elim (Option-cases (get_elem? c.conns conn)) [
    | inl n ↦ rw (send_on, n) tt
    | inr (ec, f) ↦
        rw (send_on, f)
          (sent-Ends (send ec d).1 (record {
            node = node;
            chosen = q;
            conn = conn;
            ec = ec;
            pkg_data = d;
            is_session = refl;
            is_mgr = m;
            encoded = e;
            found = f;
            handed = refl;
          }))
  ]
    where
      sent-Ends :
          {c' : ServiceClient Body} (sent : Sent)
          → Waits mgr c.conns c' (length mgr.sessions)
          → Ends mgr c.conns (c', after_send (length mgr.sessions) sent)
      sent-Ends queued w = w
      sent-Ends dropped w = w
      sent-Ends blocked w = tt
      sent-Ends panics w = tt

  ask-Ends :
      (conn : ℕ) (node : Node) (c : ServiceClient Body)
      → Chosen node
      → Ends c.session_mgr c.conns (ask codecs format head body conn node c)
  unfolding ask init_session
  ask-Ends conn node c q =
      elim (Outcome-cases
        (encode_content codecs format head body (set_seq head (next_seq c.session_mgr)))) [
          | inl (d, e) ↦
              rw (ask, e)
                (send_on-Ends conn node d c.session_mgr
                  (record c { session_mgr = (init_session node.addr c.session_mgr).0 }) q e refl)
          | inr (inl (m, e)) ↦ rw (ask, e) tt
          | inr (inr e) ↦ rw (ask, e) tt
        ]

  released-Ends :
      (result : Released) (conn : ℕ) (node : Node) (c : ServiceClient Body)
      → Chosen node
      → Ends c.session_mgr c.conns (elim result [
        | Released.blocked ↦ (c, stuck)
        | _ ↦ ask codecs format head body conn node c
      ])
  released-Ends released conn node c q = ask-Ends conn node c q
  released-Ends refused conn node c q = ask-Ends conn node c q
  released-Ends Released.blocked conn node c q = tt

  give_back-Ends :
      (key : Bytes) (conn : ℕ) (node : Node) (pool : GenericPool) (c : ServiceClient Body)
      → Chosen node
      → Ends c.session_mgr c.conns (give_back codecs format head body key conn node pool c)
  unfolding give_back
  give_back-Ends key conn node pool c q =
      released-Ends (release conn pool).1 conn node
        (record c { pool_map = insert key (release conn pool).0 c.pool_map }) q

  acquired-Ends :
      (result : Option (Outcome ℕ)) (key : Bytes) (node : Node) (pool : GenericPool)
      (c : ServiceClient Body)
      → Chosen node
      → Ends c.session_mgr c.conns (got_conn codecs format head body key node pool c result)
  unfolding got_conn
  acquired-Ends none key node pool c q = tt
  acquired-Ends (some (ok conn)) key node pool c q = give_back-Ends key conn node pool c q
  acquired-Ends (some (err e)) key node pool c q = (refl, refl)
  acquired-Ends (some panic) key node pool c q = tt

  take_conn-Ends :
      (w : World) (key : Bytes) (node : Node) (pool : GenericPool) (c : ServiceClient Body)
      → Chosen node
      → Ends c.session_mgr c.conns (take_conn codecs format head body w key node pool c)
  unfolding take_conn
  take_conn-Ends w key node pool c q =
      acquired-Ends (acquire w.rounds pool).1 key node (acquire w.rounds pool).0
        (record c { pool_map = insert key (acquire w.rounds pool).0 c.pool_map }) q

  connect-Ends :
      (w : World) (node : Node) (c : ServiceClient Body)
      → Chosen node
      → Ends c.session_mgr c.conns (connect codecs format head body w node c)
  unfolding connect
  connect-Ends w node c q = elim (Outcome-cases (find_pool w (pool_key node) c)) [
    | inl (pool, e) ↦ rw (connect, e) (take_conn-Ends w (pool_key node) node pool c q)
    | inr (inl (m, e)) ↦ rw (connect, e) (refl, refl)
    | inr (inr e) ↦ rw (connect, e) tt
  ]

  picked-Ends :
      (w : World) (result : Outcome Node) (c : ServiceClient Body)
      → ((node : Node) → result ≡ ok node → Chosen node)
      → Ends c.session_mgr c.conns (picked codecs format head body w c result)
  unfolding picked
  picked-Ends w (ok node) c q = connect-Ends w node c (q node refl)
  picked-Ends w (err e) c q = (refl, refl)
  picked-Ends w panic c q = tt

-- The load balancer returns this node, of the nodes that the node manager returns.
abbrev pub Picks : {Body : Type 0} → World → EasyHead → ServiceClient Body → Node → Type 0
Picks w head c node =
    (nm : NodeManager) × (nodes : List Node) × (c.node_mgr ≡ some nm)
    × ((get_nodes w.decode w.now w.later w.answer nm).1 ≡ ok nodes)
    × ((get_node (set_nodes c.lb (map (refresh c.session_mgr.active) nodes))
          (balance_type c.load_balance_type head) head.route_key w.draw).1
        ≡ ok node)

module _ {Body : Type 0} (codecs : Codecs Body) (format : ℕ) (head : EasyHead)
    (body : Content Body) where
  listed-Ends :
      (w : World) (c : ServiceClient Body) (nm nm' : NodeManager) (result : Outcome (List Node))
      → c.node_mgr ≡ some nm
      → (get_nodes w.decode w.now w.later w.answer nm).1 ≡ result
      → Ends codecs format head body
          (Picks w head c)
          c.session_mgr
          c.conns
          (listed codecs format head body w (record c { node_mgr = some nm' }) result)
  unfolding listed choose
  listed-Ends w c nm nm' (ok nodes) e f =
      let (lb, result) =
        get_node (set_nodes c.lb (map (refresh c.session_mgr.active) nodes))
          (balance_type c.load_balance_type head) head.route_key w.draw in
      picked-Ends codecs format head body (Picks w head c) w result
        (record c { node_mgr = some nm'; lb = lb }) (λ node k. (nm, nodes, e, f, k))
  listed-Ends w c nm nm' (err e) h f = (refl, refl)
  listed-Ends w c nm nm' panic h f = tt

  find_nodes-Ends :
      (w : World) (manager : Option NodeManager) (c : ServiceClient Body)
      → c.node_mgr ≡ manager
      → Ends codecs format head body
          (Picks w head c)
          c.session_mgr
          c.conns
          (find_nodes codecs format head body w manager c)
  unfolding find_nodes
  find_nodes-Ends w none c e = (refl, refl)
  find_nodes-Ends w (some nm) c e =
      let (nm', result) = get_nodes w.decode w.now w.later w.answer nm in
      listed-Ends w c nm nm' result e refl

  -- A request that returns an error has made no session, has not touched any counter of a node, and
  -- has sent nothing. One that returns a channel has made one session, for the node that the load
  -- balancer returned of the nodes listed, under the next number, and has handed the encoding of the
  -- request with that number to one connection, and to no other.
  pub request-Ends :
      (w : World) (c : ServiceClient Body)
      → Ends codecs format head body
          (Picks w head c)
          c.session_mgr
          c.conns
          (request_async_with_head codecs format head body w c)
  unfolding request_async_with_head
  request-Ends w c = elim (Bool-cases (eq_bytes head.service c.service_name)) [
    | inr n ↦ rw (request_async_with_head, n) (refl, refl)
    | inl s ↦ rw (request_async_with_head, s) (find_nodes-Ends w c.node_mgr c refl)
  ]
