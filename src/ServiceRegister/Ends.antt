-- ===== src/ServiceRegister/Ends.antt =====
-- How a registration ends, over an etcd of which only what succeeds is relied on.
use easycall.Base.{
  ℕ, ◌≡◌, ◌≢◌, refl, sym, ap, subst, ◌∙◌, Bytes, true, Option, none, some, List, [], ◌∷◌, ◌++◌,
  get_elem?, Outcome-cases, inl, inr, Outcome, ok, err, panic, lookup, lookup-insert_self, delete,
  bytes_key, if◌then◌else◌,
}
use easycall.ServiceRegister.{
  Etcd, NodeInfo, ServiceRegister, Host, node_key, forget, unregister, put_node, grant_lease,
  encode_node, register,
}

-- What is relied on of etcd: what a call that succeeds does to the value under each key, and that a
-- reading by prefix has every value whose key has that prefix.
pub record IsEtcd {E : Type 0} (etcd : Etcd E) : Type 0 where
  pub content : E → Bytes → Option Bytes
  pub grant_same : (e : E) (k : Bytes) → content (etcd.grant e).0 k ≡ content e k
  pub put_self :
      (k v : Bytes) (l : ℕ) (e : E)
      → (etcd.put k v l e).1 ≡ ok tt
      → content (etcd.put k v l e).0 k ≡ some v
  pub put_other :
      (k v : Bytes) (l : ℕ) (e : E) (j : Bytes)
      → k ≢ j
      → content (etcd.put k v l e).0 j ≡ content e j
  pub delete_self :
      (k : Bytes) (e : E)
      → (etcd.delete_key k e).1 ≡ ok tt
      → content (etcd.delete_key k e).0 k ≡ none
  pub delete_other :
      (k : Bytes) (e : E) (j : Bytes) → k ≢ j → content (etcd.delete_key k e).0 j ≡ content e j
  pub get_all :
      (p r v : Bytes) (e : E) (vs : List Bytes)
      → etcd.get p e ≡ ok vs
      → content e (p ++ r) ≡ some v
      → (i : ℕ) × (get_elem? vs i ≡ some v)

module _ {E : Type 0} (etcd : Etcd E) (law : IsEtcd etcd) (host : Host) where
  -- Every other key is as it was.
  abbrev pub IsSame : NodeInfo → E → E → Type 0
  IsSame info e e' =
      (j : Bytes)
      → node_key info.name host.local_ip info.port ≢ j
      → law.content e' j ≡ law.content e j

  pub record Registered (info : NodeInfo) (sr : ServiceRegister) (e : E) (sr' : ServiceRegister)
      (e' : E) : Type 0 where
    pub node_data : Bytes
    pub encoded : host.marshal host.local_ip info.port info.weight host.now ≡ ok node_data
    pub stored : law.content e' (node_key info.name host.local_ip info.port) ≡ some node_data
    pub known : lookup info.name sr'.host_map ≡ some info
    pub marked : sr'.register ≡ true
    pub leased :
        (etcd.grant (etcd.delete_key (node_key info.name host.local_ip info.port) e).0).1
        ≡ ok sr'.lease_id
    pub beating :
        sr'.heartbeats ≡ (if sr.register then sr.heartbeats else sr.heartbeats ++ info ∷ [])
    pub others : IsSame info e e'

  -- How a registration may end. With an error no goroutine was started and the lease is the old one.
  -- In every case the other keys are as they were.
  abbrev pub Ends :
      NodeInfo → ServiceRegister → E → ServiceRegister × E × Outcome (Unit {0}) → Type 0
  Ends info sr e (sr', e', ok u) = Registered info sr e sr' e'
  Ends info sr e (sr', e', err m) =
      (sr'.heartbeats ≡ sr.heartbeats) × (sr'.lease_id ≡ sr.lease_id) × IsSame info e e'
  Ends info sr e (sr', e', panic) =
      (sr'.heartbeats ≡ sr.heartbeats) × (sr'.lease_id ≡ sr.lease_id) × IsSame info e e'

  put_node-Ends :
      (info : NodeInfo) (d : Bytes) (lease : ℕ) (sr : ServiceRegister) (e0 e : E)
      → host.marshal host.local_ip info.port info.weight host.now ≡ ok d
      → (etcd.grant (etcd.delete_key (node_key info.name host.local_ip info.port) e0).0).1
        ≡ ok lease
      → IsSame info e0 e
      → Ends info sr e0 (put_node etcd host info d lease sr e)
  unfolding put_node
  put_node-Ends info d lease sr e0 e m g same =
      let key = node_key info.name host.local_ip info.port in
      let others : IsSame info e0 (etcd.put key d lease e).0 =
        λ j ne. law.put_other key d lease e j ne ∙ same j ne in
      elim (Outcome-cases (etcd.put key d lease e).1) [
        | inl (u, f) ↦
            rw (put_node, f)
              (record {
                node_data = d;
                encoded = m;
                stored = law.put_self key d lease e f;
                known = lookup-insert_self info.name info sr.host_map;
                marked = refl;
                leased = g;
                beating = refl;
                others = others;
              })
        | inr (inl (x, f)) ↦ rw (put_node, f) (refl, refl, others)
        | inr (inr f) ↦ rw (put_node, f) (refl, refl, others)
      ]

  grant_lease-Ends :
      (info : NodeInfo) (d : Bytes) (sr : ServiceRegister) (e0 e : E)
      → host.marshal host.local_ip info.port info.weight host.now ≡ ok d
      → e ≡ (etcd.delete_key (node_key info.name host.local_ip info.port) e0).0
      → IsSame info e0 e
      → Ends info sr e0 (grant_lease etcd host info d sr e)
  unfolding grant_lease
  grant_lease-Ends info d sr e0 e m same_e same =
      let others : IsSame info e0 (etcd.grant e).0 = λ j ne. law.grant_same e j ∙ same j ne in
      elim (Outcome-cases (etcd.grant e).1) [
        | inl (lease, f) ↦
            rw (grant_lease, f)
              (put_node-Ends info d lease sr e0 (etcd.grant e).0 m
                (ap (λ e. (etcd.grant e).1) (sym same_e) ∙ f) others)
        | inr (inl (x, f)) ↦ rw (grant_lease, f) (refl, refl, others)
        | inr (inr f) ↦ rw (grant_lease, f) (refl, refl, others)
      ]

  encode_node-Ends :
      (info : NodeInfo) (o : Outcome Bytes) (sr : ServiceRegister) (e0 e : E)
      → host.marshal host.local_ip info.port info.weight host.now ≡ o
      → e ≡ (etcd.delete_key (node_key info.name host.local_ip info.port) e0).0
      → IsSame info e0 e
      → Ends info sr e0 (encode_node etcd host info o sr e)
  unfolding encode_node
  encode_node-Ends info (ok d) sr e0 e m s same = grant_lease-Ends info d sr e0 e m s same
  encode_node-Ends info (err x) sr e0 e m s same = (refl, refl, same)
  encode_node-Ends info panic sr e0 e m s same = (refl, refl, same)

  -- How a registration ends does not depend on the nodes that were known.
  hosts_forgotten :
      (info : NodeInfo) (hosts : List (Bytes × NodeInfo)) (sr : ServiceRegister) (e : E)
      (out : ServiceRegister × E × Outcome (Unit {0}))
      → Ends info (record sr { host_map = hosts }) e out
      → Ends info sr e out
  hosts_forgotten info hosts sr e (sr', e', ok u) k = record {
    node_data = k.node_data;
    encoded = k.encoded;
    stored = k.stored;
    known = k.known;
    marked = k.marked;
    leased = k.leased;
    beating = k.beating;
    others = k.others;
  }
  hosts_forgotten info hosts sr e (sr', e', err m) k = k
  hosts_forgotten info hosts sr e (sr', e', panic) k = k

  -- What `Unregister` leaves of the register.
  forget_keeps :
      (name : Bytes) (o : Outcome (Unit {0})) (sr : ServiceRegister)
      → (hosts : List (Bytes × NodeInfo)) × ((forget etcd host name o sr).0
          ≡ record sr { host_map = hosts })
  unfolding forget
  forget_keeps name (ok u) sr = (delete name sr.host_map, refl)
  forget_keeps name (err m) sr = (sr.host_map, refl)
  forget_keeps name panic sr = (sr.host_map, refl)

  -- A registration that succeeds has put the encoding of the node under the node's key, knows the
  -- node and the new lease, and has started a goroutine if none was started before. One that fails
  -- has started none and has kept the lease. In both cases what is under any other key of etcd is as it was.
  pub register-Ends :
      (info : NodeInfo) (sr : ServiceRegister) (e : E)
      → Ends info sr e (register etcd host info sr e)
  unfolding register unregister
  register-Ends info sr e =
      let key = node_key info.name host.local_ip info.port in
      let (e', deleted) = etcd.delete_key key e in
      let (hosts, k) = forget_keeps info.name (etcd.delete_key key e).1 sr in
      subst
        (λ sr'. Ends info sr e (
          encode_node etcd host info (host.marshal host.local_ip info.port info.weight host.now) sr'
            (etcd.delete_key key e).0))
        (sym k)
        (hosts_forgotten info hosts sr e _ (
          encode_node-Ends info (host.marshal host.local_ip info.port info.weight host.now)
            (record sr { host_map = hosts }) e (etcd.delete_key key e).0 refl refl
            (λ j ne. law.delete_other key e j ne)))
