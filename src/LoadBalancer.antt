-- ===== src/LoadBalancer.antt =====
-- load_balancer.go: how a request chooses a node. Random numbers are arguments: `draw` stands for
-- what the generator returns before it is reduced to a range.
mod RoundRobin
pub mod Active
mod Weight
mod Hash
mod Tests
use Prim.Native.Nat.{bit_xor}
use easycall.Base.{
  ℕ, zero, suc, ◌/◌, ◌%◌, ◌^◌, Bytes, Option, none, some, List, [], ◌∷◌, length, take, copy,
  replicate, text, ltb, ◌==◌, if◌then◌else◌, Outcome, ok, err, panic, or_panic,
}
use easycall.Base.Int.{ℤ, pos, negsuc, add64, sub64, rem, at_index, leb_ℤ, eq_ℤ}
use easycall.NodeManager.{Node}

pub record LoadBalancer : Type 0 where
  pub node_list : List Node
  pub seq : ℤ

abbrev pub lb_active : ℤ
lb_active = pos 1

abbrev pub lb_random : ℤ
lb_random = pos 2

abbrev pub lb_hash : ℤ
lb_hash = pos 3

abbrev pub lb_round_robin : ℤ
lb_round_robin = pos 4

abbrev pub lb_random_weight : ℤ
lb_random_weight = pos 5

abbrev pub new_load_balancer : LoadBalancer
new_load_balancer = record { node_list = []; seq = pos 0 }

abbrev pub set_nodes : LoadBalancer → List Node → LoadBalancer
set_nodes lb nodes = record lb { node_list = nodes }

-- `rand.Intn(n)`
unfoldable pub intn : ℤ → ℕ → Outcome ℤ
intn (pos zero) draw = panic
intn (pos (suc n)) draw = ok (pos (draw % suc n))
intn (negsuc n) draw = panic

-- `lb.nodeList[index]`
abbrev pub node_at : LoadBalancer → ℤ → LoadBalancer × Outcome Node
node_at lb index = (lb, or_panic (at_index lb.node_list index))

unfoldable pub get_node_round_robin : LoadBalancer → LoadBalancer × Outcome Node
get_node_round_robin lb =
    let seq = add64 lb.seq (pos 1) in
    node_at (record lb { seq = seq }) (rem seq (length lb.node_list))

-- The loop over `i`: the list holds the nodes from index `i` on.
unfoldable pub active_loop : List Node → ℕ → ℤ → ℕ → ℕ
active_loop [] i active index = index
active_loop (n ∷ ns) i active index =
    let better = leb_ℤ n.active active in
    active_loop ns (suc i) (if better then n.active else active) (if better then i else index)

unfoldable pub get_node_active : LoadBalancer → LoadBalancer × Outcome Node
unfolding active_loop get_node_round_robin
get_node_active lb = elim lb.node_list [
  | [] ↦ (lb, panic)
  | n ∷ ns ↦
      let index = active_loop ns 1 n.active 0 in
      if index == length ns then get_node_round_robin lb else node_at lb (pos index)
]

unfoldable pub get_node_random : LoadBalancer → ℕ → LoadBalancer × Outcome Node
unfolding intn
get_node_random lb draw = elim (intn (pos (length lb.node_list)) draw) [
  | ok index ↦ node_at lb index
  | _ ↦ (lb, panic)
]

-- `crc32.ChecksumIEEE`, one bit at a time.
pub crc_bits : ℕ → ℕ → ℕ
crc_bits zero crc = crc
crc_bits (suc k) crc = crc_bits k (if crc % 2 == 1 then bit_xor (crc / 2) 0xedb88320 else crc / 2)

pub crc_update : ℕ → Bytes → ℕ
unfolding crc_bits
crc_update crc [] = crc
crc_update crc (b ∷ bs) = crc_update (crc_bits 8 (bit_xor crc b)) bs

pub checksum_ieee : Bytes → ℕ
unfolding crc_update
checksum_ieee bs = bit_xor (crc_update 0xffff_ffff bs) 0xffff_ffff

pub hash_key : Bytes → ℕ
unfolding checksum_ieee
hash_key key =
    if ltb (length key) 64
    then checksum_ieee (take (length key) (copy (replicate 64 0) key))
    else checksum_ieee key

unfoldable pub get_node_hash : LoadBalancer → Bytes → LoadBalancer × Outcome Node
unfolding hash_key
get_node_hash lb route_key =
    let n = length lb.node_list % 2 ^ 32 in
    if n == 0 then (lb, panic) else node_at lb (pos (hash_key route_key % n))

unfoldable pub total_weight : ℤ → List Node → ℤ
total_weight total [] = total
total_weight total (n ∷ ns) = total_weight (add64 total n.weight) ns

-- The second loop: the first node at which `random` falls to 0 or below.
unfoldable pub pick_weight : ℤ → List Node → Option Node
pick_weight random [] = none
pick_weight random (n ∷ ns) =
    let left = sub64 random n.weight in
    let rest = pick_weight left ns in if leb_ℤ left (pos 0) then some n else rest

unfoldable pub get_node_random_weight : LoadBalancer → ℕ → LoadBalancer × Outcome Node
unfolding total_weight pick_weight intn
get_node_random_weight lb draw = elim (intn (total_weight (pos 0) lb.node_list) draw) [
  | ok random ↦ elim (pick_weight random lb.node_list) [
    | some n ↦ (lb, ok n)
    | none ↦ node_at lb (pos 0)
  ]
  | _ ↦ (lb, panic)
]

unfoldable pub get_node : LoadBalancer → ℤ → Bytes → ℕ → LoadBalancer × Outcome Node
get_node lb kind route_key draw =
    if length lb.node_list == 0
    then (lb, err (text "service not found"))
    else if eq_ℤ kind lb_active
    then get_node_active lb
    else if eq_ℤ kind lb_random
    then get_node_random lb draw
    else if eq_ℤ kind lb_random_weight
    then get_node_random_weight lb draw
    else if eq_ℤ kind lb_round_robin
    then get_node_round_robin lb
    else if eq_ℤ kind lb_hash
    then get_node_hash lb route_key
    else (lb, err (text "invalid loadBalanceType"))
