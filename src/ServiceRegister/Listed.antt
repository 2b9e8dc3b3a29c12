-- ===== src/ServiceRegister/Listed.antt =====
-- What a registration means to the clients of the service.
use easycall.Base.{
  ok_inj, some_inj, ℕ, zero, suc, ◌≡◌, refl, sym, ap, subst, ◌∙◌, Bytes, false, Option, none, some,
  List, [], ◌∷◌, ◌++◌, get_elem?, text, Option-cases, inl, inr, ok, bytes_key,
}
use easycall.Base.Int.{ℤ, itoa, ltb_ℤ, add64}
use easycall.NodeManager.{
  Node, NodeManager, zk_not_exsit_node_cache_time, decode_nodes, load_service_node, after_load,
  get_nodes,
}
use easycall.ServiceRegister.{Etcd, NodeInfo, ServiceRegister, Host, nodes_path, node_key, register}
use easycall.ServiceRegister.Ends.{IsEtcd, Ends, register-Ends}

decode_nodes-elem :
    (decode : Bytes → Option Node) (vs : List Bytes) (i : ℕ) (v : Bytes) (node : Node)
    → get_elem? vs i ≡ some v
    → decode v ≡ some node
    → (j : ℕ) × (get_elem? (decode_nodes decode vs) j ≡ some node)
unfolding decode_nodes
decode_nodes-elem decode [] i v node e d = absurd (cc)
decode_nodes-elem decode (x ∷ vs) zero v node e d =
    let f : decode x ≡ some node = ap decode (some_inj e) ∙ d in (0, rw (decode_nodes, f) refl)
decode_nodes-elem decode (x ∷ vs) (suc i) v node e d =
    let (j, f) = decode_nodes-elem decode vs i v node e d in
    elim (Option-cases (decode x)) [
      | inl n ↦ (j, rw (decode_nodes, n) f)
      | inr (m, g) ↦ (suc j, rw (decode_nodes, g) f)
    ]

get_nodes_loaded :
    (decode : Bytes → Option Node) (now later : ℤ) (vs : List Bytes) (nm : NodeManager)
    → nm.node_list ≡ none
    → ltb_ℤ now (add64 nm.exsit zk_not_exsit_node_cache_time) ≡ false
    → (get_nodes decode now later (ok vs) nm).1 ≡ ok (decode_nodes decode vs)
unfolding get_nodes after_load load_service_node
get_nodes_loaded decode now later vs nm fresh late = rw (get_nodes, fresh, late) refl

module _ {E : Type 0} (etcd : Etcd E) (law : IsEtcd etcd) (host : Host) where
  -- The key of a node stands under the path of its service.
  node_key-prefix :
      (name ip : Bytes) (port : ℤ)
      → (rest : Bytes) × (node_key name ip port ≡ nodes_path name ++ rest)
  unfolding node_key
  node_key-prefix name ip port = (text "/" ++ (ip ++ (text ":" ++ itoa port)), refl)

  -- Let a registration succeed, and let the JSON decoder read back what the encoder wrote of the
  -- node. A node manager of that service that has no list yet, and last found nothing more than the
  -- cache time ago, then asks etcd, which answers: it returns a list that has the node.
  pub register_listed :
      (info : NodeInfo) (sr sr' : ServiceRegister) (e e' : E) (d : Bytes)
      (decode : Bytes → Option Node) (node : Node) (nm : NodeManager) (vs : List Bytes)
      (now later : ℤ)
      → register etcd host info sr e ≡ (sr', e', ok tt)
      → host.marshal host.local_ip info.port info.weight host.now ≡ ok d
      → decode d ≡ some node
      → etcd.get (nodes_path info.name) e' ≡ ok vs
      → nm.node_list ≡ none
      → ltb_ℤ now (add64 nm.exsit zk_not_exsit_node_cache_time) ≡ false
      → (nodes : List Node) × (i : ℕ) × ((get_nodes decode now later
            (etcd.get (nodes_path info.name) e')
            nm).1
          ≡ ok nodes)
        × (get_elem? nodes i ≡ some node)
  register_listed info sr sr' e e' d decode node nm vs now later r m dec got fresh late =
      let k = subst (Ends etcd law host info sr e) r (register-Ends etcd law host info sr e) in
      let same : k.node_data ≡ d = ok_inj (sym k.encoded ∙ m) in
      let (rest, under) = node_key-prefix info.name host.local_ip info.port in
      let (i, at) =
        law.get_all (nodes_path info.name) rest d e' vs got
          (ap (law.content e') (sym under) ∙ k.stored ∙ ap some same) in
      let (j, f) = decode_nodes-elem decode vs i d node at dec in
      (
        decode_nodes decode vs,
        j,
        ap (λ answer. (get_nodes decode now later answer nm).1) got
            ∙ get_nodes_loaded decode now later vs nm fresh late,
        f,
      )
