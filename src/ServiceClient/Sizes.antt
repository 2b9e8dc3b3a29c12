-- ===== src/ServiceClient/Sizes.antt =====
-- What a request leaves as it is: the name of a client, and the size of its pools.
use easycall.Base.{
  ok_inj, some_inj, ℕ, ◌≡◌, sym, ap, subst, ◌∙◌, Bytes, Option, none, some, List, map, get_elem?,
  lookup, insert, lookup-insert, bytes_key, eq_bytes, Bool-cases, Option-cases, Outcome-cases, inl,
  inr, Outcome, ok, err, panic,
}
use easycall.Base.Int.{pos}
use easycall.Head.{EasyHead, set_seq}
use easycall.Package.{Codecs}
use easycall.NodeManager.{Node, NodeManager, get_nodes}
use easycall.LoadBalancer.{set_nodes, get_node}
use easycall.Pool.{GenericPool, Released, released, refused, acquire, release}
use easycall.SessionManager.{init_session}
use easycall.ServiceClient.{
  ServiceClient, World, Content, Asked, refresh, pool_key, balance_type, encode_content, send_on,
  ask, give_back, got_conn, take_conn, find_pool, connect, picked, choose, listed, find_nodes,
  request_async_with_head, pool_min_size,
}
use easycall.ServiceClient.PoolSizes.{acquire-max_size, release-max_size, new_generic_pool-max_size}

-- The client has this name, and its pools have the least size.
pub record Keeps {Body : Type 0} (name : Bytes) (c : ServiceClient Body) : Type 0 where
  pub named : c.service_name ≡ name
  pub unset : c.pool_size ≡ pos 0
  pub small :
      (key : Bytes) (pool : GenericPool)
      → lookup key c.pool_map ≡ some pool
      → pool.max_size ≡ pool_min_size

module _ {Body : Type 0} where
  put-Keeps :
      (name key : Bytes) (pool : GenericPool) (c : ServiceClient Body)
      → Keeps name c
      → pool.max_size ≡ pool_min_size
      → Keeps name (record c { pool_map = insert key pool c.pool_map })
  put-Keeps name key pool c k e = record {
    named = k.named;
    unset = k.unset;
    small = λ j q h.
        let l = lookup-insert {V = GenericPool} key j pool c.pool_map in
        elim (Bool-cases (eq_bytes key j)) [
          | inl y ↦ subst (λ p. p.max_size ≡ pool_min_size) (some_inj (sym (rw y at l) ∙ h)) e
          | inr n ↦ k.small j q (sym (rw n at l) ∙ h)
        ];
  }

  find_pool-max_size :
      (w : World) (name key : Bytes) (pool : GenericPool) (c : ServiceClient Body)
      → Keeps name c
      → find_pool w key c ≡ ok pool
      → pool.max_size ≡ pool_min_size
  unfolding find_pool
  find_pool-max_size w name key pool c k e = elim (Option-cases (lookup key c.pool_map)) [
    | inl n ↦ new_generic_pool-max_size w.created pool (rw (find_pool, n, k.unset) at e)
    | inr (q, f) ↦ k.small key pool (f ∙ ap some (ok_inj (rw (find_pool, f) at e)))
  ]

  module _ (codecs : Codecs Body) (format : ℕ) (head : EasyHead) (body : Content Body)
      (name : Bytes) where
    send_on-Keeps :
        (session conn : ℕ) (d : Bytes) (c : ServiceClient Body)
        → Keeps name c
        → Keeps name (send_on session conn d c).0
    unfolding send_on
    send_on-Keeps session conn d c k = elim (Option-cases (get_elem? c.conns conn)) [
      | inl n ↦ rw (send_on, n) k
      | inr (ec, f) ↦ rw (send_on, f) (record { named = k.named; unset = k.unset; small = k.small })
    ]

    ask-Keeps :
        (conn : ℕ) (node : Node) (c : ServiceClient Body)
        → Keeps name c
        → Keeps name (ask codecs format head body conn node c).0
    unfolding ask
    ask-Keeps conn node c k =
        let (mgr, session) = init_session node.addr c.session_mgr in
        elim (Outcome-cases (encode_content codecs format head body (set_seq head mgr.seq))) [
          | inl (d, e) ↦
              rw (ask, e)
                (send_on-Keeps session conn d (record c { session_mgr = mgr })
                  (record { named = k.named; unset = k.unset; small = k.small }))
          | inr (inl (m, e)) ↦
              rw (ask, e) (record { named = k.named; unset = k.unset; small = k.small })
          | inr (inr e) ↦ rw (ask, e) (record { named = k.named; unset = k.unset; small = k.small })
        ]

    released-Keeps :
        (result : Released) (conn : ℕ) (node : Node) (c : ServiceClient Body)
        → Keeps name c
        → (let end : ServiceClient Body × Asked = elim result [
          | Released.blocked ↦ (c, Asked.stuck)
          | _ ↦ ask codecs format head body conn node c
        ] in
            Keeps name end.0)
    released-Keeps released conn node c k = ask-Keeps conn node c k
    released-Keeps refused conn node c k = ask-Keeps conn node c k
    released-Keeps Released.blocked conn node c k = k

    got_conn-Keeps :
        (key : Bytes) (node : Node) (pool : GenericPool) (c : ServiceClient Body)
        (result : Option (Outcome ℕ))
        → pool.max_size ≡ pool_min_size
        → Keeps name c
        → Keeps name (got_conn codecs format head body key node pool c result).0
    unfolding got_conn give_back
    got_conn-Keeps key node pool c none e k = k
    got_conn-Keeps key node pool c (some (ok conn)) e k =
        released-Keeps (release conn pool).1 conn node
          (record c { pool_map = insert key (release conn pool).0 c.pool_map })
          (put-Keeps name key (release conn pool).0 c k (release-max_size conn pool ∙ e))
    got_conn-Keeps key node pool c (some (err m)) e k = k
    got_conn-Keeps key node pool c (some panic) e k = k

    connect-Keeps :
        (w : World) (node : Node) (c : ServiceClient Body)
        → Keeps name c
        → Keeps name (connect codecs format head body w node c).0
    unfolding connect take_conn
    connect-Keeps w node c k = elim (Outcome-cases (find_pool w (pool_key node) c)) [
      | inl (pool, e) ↦
          let q =
            acquire-max_size w.rounds pool ∙ find_pool-max_size w name (pool_key node) pool c k e in
          rw (connect, e)
            (got_conn-Keeps (pool_key node) node (acquire w.rounds pool).0
              (record c { pool_map = insert (pool_key node) (acquire w.rounds pool).0 c.pool_map })
              (acquire w.rounds pool).1 q
              (put-Keeps name (pool_key node) (acquire w.rounds pool).0 c k q))
      | inr (inl (m, e)) ↦ rw (connect, e) k
      | inr (inr e) ↦ rw (connect, e) k
    ]

    picked-Keeps :
        (w : World) (c : ServiceClient Body) (result : Outcome Node)
        → Keeps name c
        → Keeps name (picked codecs format head body w c result).0
    unfolding picked
    picked-Keeps w c (ok node) k = connect-Keeps w node c k
    picked-Keeps w c (err e) k = k
    picked-Keeps w c panic k = k

    listed-Keeps :
        (w : World) (c : ServiceClient Body) (result : Outcome (List Node))
        → Keeps name c
        → Keeps name (listed codecs format head body w c result).0
    unfolding listed choose
    listed-Keeps w c (ok nodes) k =
        let (lb, result) =
          get_node (set_nodes c.lb (map (refresh c.session_mgr.active) nodes))
            (balance_type c.load_balance_type head) head.route_key w.draw in
        picked-Keeps w (record c { lb = lb }) result
          (record { named = k.named; unset = k.unset; small = k.small })
    listed-Keeps w c (err e) k = k
    listed-Keeps w c panic k = k

    find_nodes-Keeps :
        (w : World) (manager : Option NodeManager) (c : ServiceClient Body)
        → Keeps name c
        → Keeps name (find_nodes codecs format head body w manager c).0
    unfolding find_nodes
    find_nodes-Keeps w none c k = k
    find_nodes-Keeps w (some nm) c k =
        let (nm', result) = get_nodes w.decode w.now w.later w.answer nm in
        listed-Keeps w (record c { node_mgr = some nm' }) result
          (record { named = k.named; unset = k.unset; small = k.small })

    pub request-Keeps :
        (w : World) (c : ServiceClient Body)
        → Keeps name c
        → Keeps name (request_async_with_head codecs format head body w c).0
    unfolding request_async_with_head
    request-Keeps w c k = elim (Bool-cases (eq_bytes head.service c.service_name)) [
      | inr n ↦ rw (request_async_with_head, n) k
      | inl s ↦ rw (request_async_with_head, s) (find_nodes-Keeps w c.node_mgr c k)
    ]
