-- ===== src/NodeManager.antt =====
-- node_manager.go: the nodes of a service, as etcd lists them, behind a cache.
-- Time, the answer of etcd and the JSON decoder are arguments. The goroutine that watches is left out.
use easycall.Base.{
  ℕ, Bytes, Bool, true, Option, none, some, List, [], ◌∷◌, ◌++◌, text, if◌then◌else◌, Outcome, ok,
  err, panic,
}
use easycall.Base.Int.{ℤ, pos, add64, ltb_ℤ}

-- `addr` is the address of the object; `active` is its counter when it is read.
pub record Node : Type 0 where
  pub addr : ℕ
  pub ip : Bytes
  pub port : ℤ
  pub weight : ℤ
  pub active : ℤ

-- `node_list` is `none` while the source's slice is nil.
pub record NodeManager : Type 0 where
  pub exsit : ℤ
  pub service_name : Bytes
  pub node_list : Option (List Node)
  pub watched : Bool

abbrev pub zk_not_exsit_node_cache_time : ℤ
zk_not_exsit_node_cache_time = pos 5000

-- The nodes among the values, in order. `decode` is the JSON decoder; what it refuses is skipped.
unfoldable pub decode_nodes : (Bytes → Option Node) → List Bytes → List Node
decode_nodes decode [] = []
decode_nodes decode (v ∷ vs) =
    let rest = decode_nodes decode vs in elim (decode v) [ none ↦ rest | some node ↦ node ∷ rest ]

-- `answer` is what the client's Get returns. The result is the error, if any.
unfoldable pub load_service_node :
    (Bytes → Option Node) → Outcome (List Bytes) → NodeManager → NodeManager × Outcome (Unit {0})
load_service_node decode (err e) nm = (nm, err e)
load_service_node decode panic nm = (nm, panic)
load_service_node decode (ok kvs) nm =
    (record nm { watched = true; node_list = some (decode_nodes decode kvs) }, ok tt)

-- What follows a load in `getNodes`, when the clock shows `later`.
unfoldable pub after_load : ℤ → NodeManager × Outcome (Unit {0}) → NodeManager × Outcome (List Node)
after_load later (nm, panic) = (nm, panic)
after_load later (nm, result) = elim nm.node_list [
  | some nodes ↦ (nm, ok nodes)
  | none ↦
      (record nm { exsit = later }, elim result [ err e ↦ err e | ok _ ↦ ok [] | panic ↦ panic ])
]

abbrev found : NodeManager → List Node → NodeManager × Outcome (List Node)
found nm [] = (nm, err (text "service " ++ nm.service_name ++ text " not found"))
found nm (n ∷ ns) = (nm, ok (n ∷ ns))

-- `now` and `later` are the two readings of the clock.
unfoldable pub get_nodes :
    (Bytes → Option Node)
    → ℤ
    → ℤ
    → Outcome (List Bytes)
    → NodeManager
    → NodeManager × Outcome (List Node)
unfolding after_load load_service_node
get_nodes decode now later answer nm = elim nm.node_list [
  | some nodes ↦ found nm nodes
  | none ↦
      if ltb_ℤ now (add64 nm.exsit zk_not_exsit_node_cache_time)
      then (nm, err (text "zk node not exsit"))
      else after_load later (load_service_node decode answer nm)
]
