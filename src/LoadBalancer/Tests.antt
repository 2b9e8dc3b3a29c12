-- ===== src/LoadBalancer/Tests.antt =====
-- The load balancer at concrete inputs.
use easycall.Base.{
  ℕ, zero, suc, ◌-◌, ◌%◌, ◌≡◌, ◌≢◌, refl, List, [], ◌∷◌, get_elem?, arith, ok, panic, text,
  if◌then◌else◌, ◌==◌, inl, some,
}
use easycall.Base.Int.{pos, half64, ◌<ℤ◌, ◌≤ℤ◌}
use easycall.NodeManager.{Node}
use easycall.LoadBalancer.{
  LoadBalancer, lb_active, lb_round_robin, lb_hash, lb_random_weight, get_node, checksum_ieee,
}
use easycall.LoadBalancer.RoundRobin.{picks, round_robin_rotates, round_robin_overflow}
use easycall.LoadBalancer.Active.{IsLastLeast, active_least, active_last_skipped}
use easycall.LoadBalancer.Weight.{weight_interval, weight_last_never}
use easycall.LoadBalancer.Hash.{hash_index, round_robin, Answers, get_node-Answers}

abbrev node_of : ℕ → ℕ → Node
node_of weight active = record {
  addr = 0;
  ip = [];
  port = pos 80;
  weight = pos weight;
  active = pos active;
}

abbrev three : List Node
three = node_of 3 5 ∷ node_of 2 4 ∷ node_of 1 2 ∷ []

abbrev balancer : LoadBalancer
balancer = record { node_list = three; seq = pos 0 }

-- The check value of CRC-32.
checksum_check : checksum_ieee (text "123456789") ≡ 0xcbf4_3926
unfolding checksum_ieee text
checksum_check = refl

round_robin_rotates_example :
    picks 3 balancer ≡ ok (node_of 2 4) ∷ ok (node_of 1 2) ∷ ok (node_of 3 5) ∷ []
round_robin_rotates_example = round_robin_rotates balancer 0 (omega arith) refl (omega arith)

overflown :
    (get_node (record { node_list = three; seq = pos (half64 - 1) }) lb_round_robin [] 0).1 ≡ panic
overflown =
    round_robin_overflow (record { node_list = three; seq = pos (half64 - 1) }) 0 [] refl
      (omega arith) (omega arith)

active_least_example :
    (r : ℕ) × (node : Node) × IsLastLeast three r node
    × (get_node balancer lb_active [] 0
        ≡ (if suc r == 3 then get_node balancer lb_round_robin [] 0 else (balancer, ok node)))
active_least_example = active_least balancer [] 0 (omega arith)

others_busier : (j : ℕ) (m : Node) → j ≢ 2 → get_elem? three j ≡ some m → pos 2 <ℤ m.active
others_busier zero m ne e = ground arith
others_busier (suc zero) m ne e = ground arith
others_busier (suc (suc zero)) m ne e = absurd (ne refl)
others_busier (suc (suc (suc j))) m ne e = cc

least_third : (j : ℕ) (m : Node) → get_elem? three j ≡ some m → pos 2 ≤ℤ m.active
least_third zero m e = ground arith
least_third (suc zero) m e = ground arith
least_third (suc (suc zero)) m e = ground arith
least_third (suc (suc (suc j))) m e = cc

third_IsLastLeast : IsLastLeast three 2 (node_of 1 2)
third_IsLastLeast = record {
  there = refl;
  least = least_third;
  last = λ j m h e. others_busier j m (omega arith) e;
}

active_last_skipped_example :
    (m : Node) × ((get_node balancer lb_active [] 0).1 ≡ ok m) × (pos 2 <ℤ m.active)
active_last_skipped_example =
    active_last_skipped balancer [] 0 0 2 (node_of 1 2) third_IsLastLeast (omega arith)
      others_busier refl (omega arith) (omega arith)

weight_interval_example : get_node balancer lb_random_weight [] 10 ≡ (balancer, ok (node_of 2 4))
weight_interval_example =
    weight_interval balancer [] 10 (node_of 3 5 ∷ []) (node_of 2 4) (node_of 1 2 ∷ []) refl
      (omega arith) (omega arith) (omega arith) (inl (omega arith)) (omega arith)

last_passed_over :
    (j : ℕ) × (m : Node) × (get_elem? (node_of 3 5 ∷ node_of 2 4 ∷ []) j ≡ some m)
    × (get_node balancer lb_random_weight [] 5 ≡ (balancer, ok m))
last_passed_over =
    weight_last_never balancer [] 5 (node_of 3 5 ∷ node_of 2 4 ∷ []) (node_of 1 2) refl refl (cc)
      (omega arith) (omega arith)

hash_of_user :
    (n : Node) × (get_elem? three (checksum_ieee (text "user") % 3) ≡ some n)
    × (get_node balancer lb_hash (text "user") 0 ≡ (balancer, ok n))
hash_of_user = hash_index balancer (text "user") 0 (omega arith) (omega arith)

empty_answers : Answers balancer lb_round_robin [] 0
empty_answers =
    get_node-Answers balancer lb_round_robin [] 0 0 round_robin (omega arith) (omega arith) refl
      (omega arith) (omega arith) (omega arith) (omega arith)
