-- ===== src/LoadBalancer/Hash.antt =====
-- Hashing, `getNodeByLoadBalanceHash` and `hashKey`, and the outcome of `GetNode` for every type.
use native.Mathlib.Nat.{mod-eq_of_lt}
use easycall.Base.{
  ℕ, suc, ◌+◌, ◌%◌, ◌^◌, ◌<◌, ◌≡◌, ◌≢◌, refl, ap, ◌∙◌, Bytes, some, [], length, get_elem?,
  get_elem?_lt, take-copy, replicate, append-nil, arith, ok, or_panic, ltb, ◌==◌, Bool-cases, inl,
  inr,
}
use easycall.Base.Int.{ℤ, pos, half64}
use easycall.NodeManager.{Node}
use easycall.LoadBalancer.{
  LoadBalancer, lb_active, lb_random, lb_hash, lb_round_robin, lb_random_weight, hash_key,
  checksum_ieee, get_node_hash, get_node_random, get_node, intn, node_at,
}
use easycall.LoadBalancer.RoundRobin.{round_robin_index}
use easycall.LoadBalancer.Active.{active_least}
use easycall.LoadBalancer.Weight.{
  AreWeights, sum_weights, pick_weight_within, get_node-random_weight, intn_pos,
}

-- The copy of a short key through the scratch array changes nothing.
hash_key-checksum : (key : Bytes) → hash_key key ≡ checksum_ieee key
hash_key-checksum key = elim (Bool-cases (ltb (length key) 64)) [
  | inl short ↦
      unfold hash_key in rw short (ap checksum_ieee (take-copy (replicate 64 0) key (ground arith)))
  | inr long ↦ unfold hash_key in rw long refl
]

dispatch_hash :
    (lb : LoadBalancer) (key : Bytes) (draw : ℕ)
    → length lb.node_list ≢ 0
    → get_node lb lb_hash key draw ≡ get_node_hash lb key
unfolding get_node
dispatch_hash lb key draw h = ground arith

hash_at :
    (lb : LoadBalancer) (key : Bytes) (n : ℕ)
    → length lb.node_list % 2 ^ 32 ≡ n
    → n ≢ 0
    → get_node_hash lb key ≡ node_at lb (pos (hash_key key % n))
unfolding get_node_hash
hash_at lb key n e ne = rw (e, get_node_hash) (ground arith)

-- Hashing over fewer than 2^32 nodes, at least one, returns the node at the CRC-32 of the key modulo the number of
-- nodes, for short and for long keys. It depends on nothing else, and changes nothing.
pub hash_index :
    (lb : LoadBalancer) (key : Bytes) (draw : ℕ)
    → length lb.node_list ≢ 0
    → length lb.node_list < 2 ^ 32
    → (n : Node) × (get_elem? lb.node_list (checksum_ieee key % length lb.node_list) ≡ some n)
      × (get_node lb lb_hash key draw ≡ (lb, ok n))
hash_index lb key draw ne lt =
    let (n, e) =
      get_elem?_lt lb.node_list (checksum_ieee key % length lb.node_list) (omega arith) in
    (
      n,
      e,
      dispatch_hash lb key draw ne
          ∙ hash_at lb key (length lb.node_list) (mod-eq_of_lt lt) ne
          ∙ rw (hash_key-checksum key, e) refl,
    )

-- The five types of load balancing.
pub data IsLoadBalanceType : ℤ → Type 0 where
  active : IsLoadBalanceType lb_active
  random : IsLoadBalanceType lb_random
  hash : IsLoadBalanceType lb_hash
  round_robin : IsLoadBalanceType lb_round_robin
  random_weight : IsLoadBalanceType lb_random_weight

-- The request is answered with a node of the list.
abbrev pub Answers : LoadBalancer → ℤ → Bytes → ℕ → Type 0
Answers lb kind key draw =
    (j : ℕ) × (n : Node) × (get_elem? lb.node_list j ≡ some n)
    × ((get_node lb kind key draw).1 ≡ ok n)

dispatch_random :
    (lb : LoadBalancer) (key : Bytes) (draw : ℕ)
    → length lb.node_list ≢ 0
    → get_node lb lb_random key draw ≡ get_node_random lb draw
unfolding get_node
dispatch_random lb key draw h = ground arith

random_at :
    (lb : LoadBalancer) (draw : ℕ) (index : ℤ)
    → intn (pos (length lb.node_list)) draw ≡ ok index
    → get_node_random lb draw ≡ node_at lb index
unfolding get_node_random
random_at lb draw index e = rw (e, get_node_random) refl

random_index :
    (lb : LoadBalancer) (key : Bytes) (draw : ℕ)
    → length lb.node_list ≢ 0
    → (get_node lb lb_random key draw).1
      ≡ or_panic (get_elem? lb.node_list (draw % length lb.node_list))
random_index lb key draw ne =
    ap (λ a. a.1)
      (dispatch_random lb key draw ne
        ∙ random_at lb draw (pos (draw % length lb.node_list))
            (intn_pos (length lb.node_list) draw (omega arith)))

-- On a list that is not empty, of fewer than 2^32 nodes, with the counter below 2^63 - 1 and weights that are not
-- negative and have a positive sum below 2^63, every type of load balancing returns a node of the
-- list: no panic and no error.
pub get_node-Answers :
    (lb : LoadBalancer) (kind : ℤ) (key : Bytes) (draw s : ℕ)
    → IsLoadBalanceType kind
    → length lb.node_list ≢ 0
    → length lb.node_list < 2 ^ 32
    → lb.seq ≡ pos s
    → s + 1 < half64
    → AreWeights lb.node_list
    → 0 < sum_weights lb.node_list
    → sum_weights lb.node_list < half64
    → Answers lb kind key draw
get_node-Answers lb kind key draw s active ne lt q h w p b =
    let (r, node, l, f) = active_least lb key draw ne in
    let (n, e) = get_elem?_lt lb.node_list ((s + 1) % length lb.node_list) (omega arith) in
    let turn = round_robin_index lb s draw key ne q h ∙ ap or_panic e in
    elim (Bool-cases (suc r == length lb.node_list)) [
      | inl last ↦ ((s + 1) % length lb.node_list, n, e, ap (λ a. a.1) f ∙ rw last turn)
      | inr inside ↦ (r, node, l.there, ap (λ a. a.1) f ∙ rw inside refl)
    ]
get_node-Answers lb kind key draw s random ne lt q h w p b =
    let (n, e) = get_elem?_lt lb.node_list (draw % length lb.node_list) (omega arith) in
    (draw % length lb.node_list, n, e, random_index lb key draw ne ∙ ap or_panic e)
get_node-Answers lb kind key draw s hash ne lt q h w p b =
    let (n, e, f) = hash_index lb key draw ne lt in
    (checksum_ieee key % length lb.node_list, n, e, ap (λ a. a.1) f)
get_node-Answers lb kind key draw s round_robin ne lt q h w p b =
    let (n, e) = get_elem?_lt lb.node_list ((s + 1) % length lb.node_list) (omega arith) in
    ((s + 1) % length lb.node_list, n, e, round_robin_index lb s draw key ne q h ∙ ap or_panic e)
get_node-Answers lb kind key draw s random_weight ne lt q h w p b =
    let nonempty : lb.node_list ≢ [] = λ e. ne (ap length e) in
    let (j, n, e, f) =
      pick_weight_within lb.node_list [] (draw % sum_weights lb.node_list) w b nonempty
        (omega arith) in
    (j, n, e, ap (λ a. a.1) (get_node-random_weight lb key draw n w b p (rw append-nil at f)))
