-- ===== src/ServiceRegister.antt =====
-- service_register.go: a service makes itself known in etcd. The client of etcd is a record of the
-- calls that the source makes, over a store `E`; the address of the host, the clock and the JSON
-- encoder are arguments. `heartbeats` has the node of each goroutine that was started.
pub mod Ends
pub mod Keys
pub mod Listed
pub mod Leases
pub mod Memory
mod Tests
use easycall.Base.{
  ℕ, Bytes, Bool, true, false, Option, none, some, List, [], ◌∷◌, ◌++◌, lookup, insert, delete,
  bytes_key, text, if◌then◌else◌, Outcome, ok, err, panic,
}
use easycall.Base.Int.{ℤ, itoa}

-- `Grant`, `Put` with a lease, `Delete`, `KeepAliveOnce`, and `Get` with a prefix.
pub record Etcd (E : Type 0) : Type 0 where
  pub grant : E → E × Outcome ℕ
  pub put : Bytes → Bytes → ℕ → E → E × Outcome (Unit {0})
  pub delete_key : Bytes → E → E × Outcome (Unit {0})
  pub keep_alive_once : ℕ → E → E × Outcome (Unit {0})
  pub get : Bytes → E → Outcome (List Bytes)

pub record NodeInfo : Type 0 where
  pub name : Bytes
  pub port : ℤ
  pub weight : ℤ

pub record ServiceRegister : Type 0 where
  pub host_map : List (Bytes × NodeInfo)
  pub lease_id : ℕ
  pub register : Bool
  pub heartbeats : List NodeInfo

abbrev pub new_service_register : ServiceRegister
new_service_register = record { host_map = []; lease_id = 0; register = false; heartbeats = [] }

-- The address of the host, the clock, and `json.Marshal` of address, port, weight and start time.
pub record Host : Type 0 where
  pub local_ip : Bytes
  pub now : ℤ
  pub marshal : Bytes → ℤ → ℤ → ℤ → Outcome Bytes

-- Where `getNodes` of node_manager.go looks.
unfoldable pub nodes_path : Bytes → Bytes
nodes_path name = text "/easycall/services" ++ (text "/" ++ (name ++ text "/nodes"))

unfoldable pub node_key : Bytes → Bytes → ℤ → Bytes
node_key name local_ip port = nodes_path name ++ (text "/" ++ (local_ip ++ (text ":" ++ itoa port)))

module _ {E : Type 0} (etcd : Etcd E) (host : Host) where
  -- What follows `Delete`, by its result.
  unfoldable pub forget :
      Bytes → Outcome (Unit {0}) → ServiceRegister → ServiceRegister × Outcome (Unit {0})
  forget name (ok u) sr = (record sr { host_map = delete name sr.host_map }, ok u)
  forget name (err m) sr = (sr, err m)
  forget name panic sr = (sr, panic)

  unfoldable pub unregister :
      Bytes → ℤ → ServiceRegister → E → ServiceRegister × E × Outcome (Unit {0})
  unregister name port sr e =
      let (e', deleted) = etcd.delete_key (node_key name host.local_ip port) e in
      let (sr', result) = forget name deleted sr in (sr', e', result)

  -- What follows `Put`: the goroutine is started by the first registration only.
  abbrev pub registered : NodeInfo → ℕ → ServiceRegister → ServiceRegister
  registered info lease sr = record {
    host_map = insert info.name info sr.host_map;
    lease_id = lease;
    register = true;
    heartbeats = if sr.register then sr.heartbeats else sr.heartbeats ++ info ∷ [];
  }

  unfoldable pub put_node :
      NodeInfo → Bytes → ℕ → ServiceRegister → E → ServiceRegister × E × Outcome (Unit {0})
  put_node info node_data lease sr e =
      let (e', result) = etcd.put (node_key info.name host.local_ip info.port) node_data lease e in
      elim result [
        | ok u ↦ (registered info lease sr, e', ok u)
        | err m ↦ (sr, e', err m)
        | panic ↦ (sr, e', panic)
      ]

  unfoldable pub grant_lease :
      NodeInfo → Bytes → ServiceRegister → E → ServiceRegister × E × Outcome (Unit {0})
  grant_lease info node_data sr e =
      let (e', result) = etcd.grant e in
      elim result [
        | ok lease ↦ put_node info node_data lease sr e'
        | err m ↦ (sr, e', err m)
        | panic ↦ (sr, e', panic)
      ]

  unfoldable pub encode_node :
      NodeInfo → Outcome Bytes → ServiceRegister → E → ServiceRegister × E × Outcome (Unit {0})
  encode_node info (ok node_data) sr e = grant_lease info node_data sr e
  encode_node info (err m) sr e = (sr, e, err m)
  encode_node info panic sr e = (sr, e, panic)

  -- The error of `Unregister` is dropped.
  unfoldable pub register :
      NodeInfo → ServiceRegister → E → ServiceRegister × E × Outcome (Unit {0})
  register info sr e =
      let (sr', e', ignored) = unregister info.name info.port sr e in
      encode_node info (host.marshal host.local_ip info.port info.weight host.now) sr' e'

  -- One tick of the goroutine that was started for this node.
  unfoldable pub heartbeat : NodeInfo → ServiceRegister → E → ServiceRegister × E
  heartbeat info sr e =
      let (e', result) = etcd.keep_alive_once sr.lease_id e in
      elim result [
        | ok u ↦ (sr, e')
        | err m ↦ let (sr', e'', ignored) = register info sr e' in (sr', e'')
        | panic ↦ (sr, e')
      ]
