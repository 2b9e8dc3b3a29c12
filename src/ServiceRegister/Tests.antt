-- ===== src/ServiceRegister/Tests.antt =====
-- Registrations in an etcd in memory.
use easycall.Base.{ℕ, false, ◌≡◌, refl, none, some, List, [], ◌∷◌, get_elem?, Outcome, ok}
use easycall.Base.Int.{pos, wrap, ◌+ℤ◌}
use easycall.NodeManager.{Node, NodeManager, get_nodes}
use easycall.ServiceRegister.{
  NodeInfo, ServiceRegister, Host, new_service_register, nodes_path, forget, unregister, put_node,
  grant_lease, encode_node, register, heartbeat,
}
use easycall.ServiceRegister.Ends.{Ends, register-Ends}
use easycall.ServiceRegister.Listed.{register_listed}
use easycall.ServiceRegister.Leases.{second_lease_only}
use easycall.ServiceRegister.Memory.{Memory, memory, memory-IsEtcd, prefix_values}

abbrev host : Host
host = record { local_ip = 49 ∷ []; now = pos 7; marshal = λ ip port weight now. ok ip }

abbrev a : NodeInfo
a = record { name = 97 ∷ []; port = pos 80; weight = pos 1 }

abbrev b : NodeInfo
b = record { name = 98 ∷ []; port = pos 81; weight = pos 1 }

abbrev empty : Memory
empty = record { kvs = []; leases = 0 }

abbrev node : Node
node = record { addr = 0; ip = 49 ∷ []; port = pos 80; weight = pos 1; active = pos 0 }

abbrev manager : NodeManager
manager = record { exsit = pos 0; service_name = 97 ∷ []; node_list = none; watched = false }

abbrev with_a : ServiceRegister × Memory × Outcome (Unit {0})
with_a = register memory host a new_service_register empty

abbrev with_both : ServiceRegister × Memory × Outcome (Unit {0})
with_both = let (sr, e, o) = with_a in register memory host b sr e

register-Ends_example : Ends memory memory-IsEtcd host a new_service_register empty with_a
register-Ends_example = register-Ends memory memory-IsEtcd host a new_service_register empty

register_listed_example :
    let (sr, e, o) = with_a in
    (nodes : List Node) × (i : ℕ) × ((get_nodes
        (λ d. some node)
        (pos 9000)
        (pos 9001)
        (memory.get (nodes_path (97 ∷ [])) e)
        manager).1
      ≡ ok nodes)
    × (get_elem? nodes i ≡ some node)
unfolding wrap ◌+ℤ◌ register unregister forget encode_node grant_lease put_node
register_listed_example =
    let (sr, e, o) = with_a in
    register_listed memory memory-IsEtcd host a new_service_register sr empty e (49 ∷ [])
      (λ d. some node) node manager (prefix_values (nodes_path (97 ∷ [])) e.kvs) (pos 9000)
      (pos 9001) refl refl refl refl refl refl

second_lease_only_example :
    let (sr, e, o) = with_both in
    (sr.heartbeats ≡ a ∷ []) × (ok 2 ≡ ok sr.lease_id) × (heartbeat memory host a sr e ≡ (sr, e))
unfolding wrap ◌+ℤ◌ register unregister forget encode_node grant_lease put_node
second_lease_only_example =
    let (sr, e, o) = with_a in
    let (sr', e', o') = with_both in
    second_lease_only memory memory-IsEtcd host a b sr sr' empty e e' e' refl refl refl
