-- ===== src/ServiceClient/Loads.antt =====
-- Dynamic load balancing, counted in requests that have no answer yet.
use easycall.Base.{
  ok_inj, ℕ, zero, suc, ◌≤◌, ◌<◌, ◌≡◌, ◌⊎◌, inl, inr, refl, sym, ap, subst, ◌∙◌, Bytes, some, List,
  [], ◌∷◌, map, length, get_elem?, ◌==◌, Bool-cases, ok, arith,
}
use easycall.Base.Int.{ℤ, pos, half32, ◌≤ℤ◌}
use easycall.Head.{EasyHead}
use easycall.Package.{Codecs}
use easycall.NodeManager.{Node, NodeManager, get_nodes}
use easycall.LoadBalancer.{LoadBalancer, lb_active, set_nodes, get_node}
use easycall.LoadBalancer.Active.{IsLastLeast, active_least}
use easycall.SessionManager.{EasySessionManager, init_session}
use easycall.SessionManager.Delivery.{IsSound, open_count}
use easycall.ServiceClient.{
  ServiceClient, World, Content, waiting, refresh, balance_type, request_async_with_head,
}
use easycall.ServiceClient.Ends.{Ends, Picks, request-Ends}

get_elem?-map :
    (f : Node → Node) (xs : List Node) (j : ℕ) (m : Node)
    → get_elem? xs j ≡ some m
    → get_elem? (map f xs) j ≡ some (f m)
get_elem?-map f [] j m e = absurd (cc)
get_elem?-map f (x ∷ xs) zero m e = ground arith
get_elem?-map f (x ∷ xs) (suc j) m e = get_elem?-map f xs j m e

map-get_elem? :
    (f : Node → Node) (xs : List Node) (j : ℕ) (m : Node)
    → get_elem? (map f xs) j ≡ some m
    → (n : Node) × (get_elem? xs j ≡ some n) × (m ≡ f n)
map-get_elem? f [] j m e = absurd (cc)
map-get_elem? f (x ∷ xs) zero m e = (x, refl, ground arith)
map-get_elem? f (x ∷ xs) (suc j) m e = map-get_elem? f xs j m e

le_of_pos : {x y : ℤ} {p q : ℕ} → x ≡ pos p → y ≡ pos q → x ≤ℤ y → p ≤ q
le_of_pos e f le = ground arith

module _ {Pkg : Type 0} (mgr : EasySessionManager Pkg) where
  -- No node listed has fewer requests without an answer.
  abbrev pub IsLeastOpen : List Node → Node → Type 0
  IsLeastOpen nodes node =
      (j : ℕ) (m : Node)
      → get_elem? nodes j ≡ some m
      → open_count node.addr mgr.sessions ≤ open_count m.addr mgr.sessions

  least_open :
      (nodes : List Node) (r : ℕ) (node : Node)
      → IsSound mgr
      → length mgr.sessions < half32
      → IsLastLeast (map (refresh mgr.active) nodes) r node
      → IsLeastOpen nodes node
  least_open nodes r node s lt l j m e =
      let (n, f, g) = map-get_elem? (refresh mgr.active) nodes r node l.there in
      let le = l.least j (refresh mgr.active m) (get_elem?-map (refresh mgr.active) nodes j m e) in
      let a = ap (λ x. x.active) g ∙ s.counted n.addr lt in
      let b = s.counted m.addr lt in
      let k = ap (λ x. open_count x.addr mgr.sessions) g in rw k (le_of_pos a b le)

  -- Either the node is one with the fewest open requests, or one with the fewest stands last.
  abbrev pub ByLoad : List Node → Node → Type 0
  ByLoad nodes node =
      IsLeastOpen nodes node
      ⊎ ((r : ℕ) × (z : Node) × (get_elem? nodes r ≡ some z)
          × (suc r ≡ length nodes)
          × IsLeastOpen nodes z)

length-map : (f : Node → Node) (xs : List Node) → length (map f xs) ≡ length xs
length-map f [] = refl
length-map f (x ∷ xs) = ap suc (length-map f xs)

module _ {Pkg : Type 0} (mgr : EasySessionManager Pkg) (s : IsSound mgr)
    (lt : length mgr.sessions < half32) where
  last_least :
      (nodes : List Node) (r : ℕ) (least node : Node)
      → suc r ≡ length (map (refresh mgr.active) nodes)
      → IsLastLeast (map (refresh mgr.active) nodes) r least
      → ByLoad mgr nodes node
  last_least nodes r least node e l =
      let (n, f, g) = map-get_elem? (refresh mgr.active) nodes r least l.there in
      inr (
        r,
        n,
        f,
        e ∙ length-map (refresh mgr.active) nodes,
        λ j m h.
            rw (← ap (λ (x : Node). open_count x.addr mgr.sessions) g)
              (least_open mgr nodes r least s lt l j m h),
      )

  picked-ByLoad :
      (lb : LoadBalancer) (nodes : List Node) (key : Bytes) (draw : ℕ) (node : Node)
      → (get_node (set_nodes lb (map (refresh mgr.active) nodes)) lb_active key draw).1 ≡ ok node
      → ByLoad mgr nodes node
  picked-ByLoad lb [] key draw node e = absurd (unfold get_node in cc)
  picked-ByLoad lb (x ∷ xs) key draw node e =
      let (r, least, l, f) =
        active_least (set_nodes lb (map (refresh mgr.active) (x ∷ xs))) key draw (omega arith) in
      elim (Bool-cases (suc r == length (map (refresh mgr.active) (x ∷ xs)))) [
        | inl h ↦ last_least (x ∷ xs) r least node (ground (arith, h)) l
        | inr h ↦
            let d : least ≡ node = ok_inj (ap (λ p. p.1) (sym (rw h at f)) ∙ e) in
            inl (subst (IsLeastOpen mgr (x ∷ xs)) d (least_open mgr (x ∷ xs) r least s lt l))
      ]

module _ {Body : Type 0} (codecs : Codecs Body) (format : ℕ) (head : EasyHead)
    (body : Content Body) where
  -- Where the sessions are sound and fewer than 2^31, and the client balances by load with no route
  -- key: a request that returns a channel has made its session for a node of the list such that no
  -- node listed has fewer requests without an answer, or else such a node stands last in the list.
  pub request_least :
      (w : World) (c c' : ServiceClient Body) (session : ℕ)
      → IsSound c.session_mgr
      → length c.session_mgr.sessions < half32
      → c.load_balance_type ≡ lb_active
      → head.route_key ≡ []
      → request_async_with_head codecs format head body w c ≡ (c', waiting session)
      → (nm : NodeManager) × (nodes : List Node) × (node : Node) × (c.node_mgr ≡ some nm)
        × ((get_nodes w.decode w.now w.later w.answer nm).1 ≡ ok nodes)
        × ByLoad c.session_mgr nodes node
        × (c'.session_mgr ≡ (init_session node.addr c.session_mgr).0)
  unfolding balance_type
  request_least w c c' session s lt kind key h =
      let ends =
        subst (Ends codecs format head body (Picks w head c) c.session_mgr c.conns) h
          (request-Ends codecs format head body w c) in
      let (nm, nodes, e, f, g) = ends.chosen in
      let kind' =
        ap (λ k. balance_type c.load_balance_type (record head { route_key = k })) key ∙ kind in
      (
        nm,
        nodes,
        ends.node,
        e,
        f,
        picked-ByLoad c.session_mgr s lt c.lb nodes head.route_key w.draw ends.node (
            ap
              (λ k.
                (get_node (set_nodes c.lb (map (refresh c.session_mgr.active) nodes)) k
                  head.route_key w.draw).1)
              (sym kind')
            ∙ g),
        ends.is_mgr,
      )
