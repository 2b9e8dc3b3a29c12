-- ===== src/SessionManager.antt =====
-- session_manager.go, and `Process` of service_client.go: requests that wait for their answers.
-- A session is an object in `sessions`, and a pointer to it is its index there. A node is a number,
-- and `active` its counter. The channel of a session is not nil while `resp_chan` is true, and
-- `received` is what its receiver got, `none` for a nil package; sends are modelled where a receiver
-- waits. Sequence numbers are uint64.
pub mod Delivery
pub mod Requests
mod Tests
use easycall.Base.{
  ℕ, suc, ◌+◌, ◌%◌, ◌^◌, Bool, true, false, Option, none, some, List, [], ◌∷◌, ◌++◌, length,
  get_elem?, set, lookup, insert, delete, nat_key, ◌==◌, if◌then◌else◌,
}
use easycall.Base.Int.{ℤ, pos, negsuc, add32}

pub record EasySession (Pkg : Type 0) : Type 0 where
  pub seq : ℕ
  pub resp_chan : Bool
  pub timer : Bool
  pub node : ℕ
  pub received : List (Option Pkg)

pub record EasySessionManager (Pkg : Type 0) : Type 0 where
  pub session_map : List (ℕ × ℕ)
  pub seq : ℕ
  pub sessions : List (EasySession Pkg)
  pub active : ℕ → ℤ

-- `atomic.AddInt32(&node.Active, d)`
abbrev pub add_active : (ℕ → ℤ) → ℕ → ℤ → ℕ → ℤ
add_active active node d n = if node == n then add32 (active n) d else active n

module _ {Pkg : Type 0} where
  unfoldable pub add_session : ℕ → ℕ → EasySessionManager Pkg → EasySessionManager Pkg
  add_session session_id session esm = record esm {
    session_map = insert session_id session esm.session_map;
  }

  unfoldable pub remove_session : ℕ → EasySessionManager Pkg → EasySessionManager Pkg
  remove_session session_id esm = record esm { session_map = delete session_id esm.session_map }

  unfoldable pub get_session : ℕ → EasySessionManager Pkg → Option ℕ
  get_session session_id esm = lookup session_id esm.session_map

  -- The new manager, and the pointer to the new session.
  unfoldable pub init_session : ℕ → EasySessionManager Pkg → EasySessionManager Pkg × ℕ
  init_session node esm =
      let seq = (esm.seq + 1) % 2 ^ 64 in
      let session = length esm.sessions in
      (
        record {
          session_map = insert seq session esm.session_map;
          seq = seq;
          sessions =
              esm.sessions
              ++ record { seq = seq; resp_chan = true; timer = true; node = node; received = [] }
                ∷ [];
          active = add_active esm.active node (pos 1);
        },
        session,
      )

  -- The first locked section of `DestorySessionAndRespPkg`.
  unfoldable pub take_out : ℕ → EasySessionManager Pkg → EasySessionManager Pkg
  take_out session esm = elim (get_elem? esm.sessions session) [
    | none ↦ esm
    | some s ↦ record esm { session_map = delete s.seq esm.session_map }
  ]

  -- What the second section does to the session.
  unfoldable pub answered : Option Pkg → EasySession Pkg → EasySession Pkg
  answered resp_pkg s = record s {
    resp_chan = false;
    timer = false;
    received = if s.resp_chan then s.received ++ resp_pkg ∷ [] else s.received;
  }

  -- The second locked section: the send on the channel, its close, the counter, and the timer.
  unfoldable pub deliver : ℕ → Option Pkg → EasySessionManager Pkg → EasySessionManager Pkg
  deliver session resp_pkg esm = elim (get_elem? esm.sessions session) [
    | none ↦ esm
    | some s ↦ record esm {
      sessions = set esm.sessions session (answered resp_pkg s);
      active = if s.resp_chan then add_active esm.active s.node (negsuc 0) else esm.active;
    }
  ]

  unfoldable pub destory_session_and_resp_pkg :
      ℕ → Option Pkg → EasySessionManager Pkg → EasySessionManager Pkg
  destory_session_and_resp_pkg session resp_pkg esm =
      deliver session resp_pkg (take_out session esm)

  -- `Process` of the service client; `seq` is the sequence number in the head of the package.
  unfoldable pub process : ℕ → Pkg → EasySessionManager Pkg → EasySessionManager Pkg
  process seq resp_pkg esm = if seq == 0 then esm else elim (get_session seq esm) [
    | none ↦ esm
    | some session ↦ destory_session_and_resp_pkg session (some resp_pkg) esm
  ]

-- Every locked section is a step. Time-outs and answers may stand between the sections of one
-- another, any number of them and for any session.
pub data Step {Pkg : Type 0} (esm : EasySessionManager Pkg) : EasySessionManager Pkg → Type 0 where
  request : (node : ℕ) → Step esm (init_session node esm).0
  taken : (session : ℕ) → Step esm (take_out session esm)
  delivered : (session : ℕ) (resp_pkg : Option Pkg) → Step esm (deliver session resp_pkg esm)

pub data Reach {Pkg : Type 0} (esm : EasySessionManager Pkg) : EasySessionManager Pkg → Type 0 where
  here : Reach esm esm
  next : {a b : EasySessionManager Pkg} → Reach esm a → Step a b → Reach esm b
