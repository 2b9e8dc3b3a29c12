-- ===== src/ServiceContext.antt =====
-- service_context.go: the services of a context, and what `StartAndWait` does with them. Each service
-- has a goroutine, whose place is an entry of `places`; one turn of it is one of its calls, so that
-- the goroutines may come in any order. After `Register` the turns are the ticks of the goroutine
-- that it starts. Etcd may delete the node of a service at any time, since its lease ran out. The chains of middlewares are those of Middleware, the
-- handlers those of Service, and the registers those of ServiceRegister.
pub mod Names
pub mod Chains
pub mod Handlers
pub mod Handling
pub mod Nodes
pub mod Touches
pub mod Signals
pub mod Waits
mod Tests
use easycall.Base.{
  ℕ, suc, ◌+◌, Bytes, Bool, true, false, Option, none, some, List, [], ◌∷◌, map, get_elem?, set,
  length, insert, bytes_key, Outcome, ok, err, panic, ◌≡◌, ◌==◌, if◌then◌else◌,
}
use easycall.Base.Int.{ℤ}
use easycall.Package.{Codecs}
use easycall.Middleware.{
  Middleware, MiddlewareInfo, Middlewares, list_of, set_final, add_service_middleware,
}
use easycall.Service.{Exchange, final}
use easycall.ServiceRegister.{
  Etcd, NodeInfo, ServiceRegister, Host, new_service_register, register, unregister, node_key,
}

pub record ServiceInfo (Svc : Type 0) : Type 0 where
  pub name : Bytes
  pub port : ℤ
  pub weight : ℤ
  pub service : Svc

-- The endpoints are used by `NewServiceRegister` only.
pub record ServiceContext (Svc Body : Type 0) : Type 0 where
  pub service_list : List (Bytes × ServiceInfo Svc)
  pub middlewares : Middlewares (Exchange Body)

abbrev pub new_service_context : {Svc Body : Type 0} → ServiceContext Svc Body
new_service_context = record { service_list = []; middlewares = record { heap = []; lists = [] } }

unfoldable pub create_service :
    {Svc Body : Type 0} → Bytes → ℤ → Svc → ℤ → ServiceContext Svc Body → ServiceContext Svc Body
create_service name port service weight svc = record svc {
  service_list =
      insert name (record { name = name; port = port; weight = weight; service = service })
        svc.service_list;
}

unfoldable pub add_context_middleware :
    {Svc Body : Type 0}
    → Bytes
    → Middleware (Exchange Body)
    → ServiceContext Svc Body
    → ServiceContext Svc Body
add_context_middleware name f svc = record svc {
  middlewares = add_service_middleware name f svc.middlewares;
}

-- Where a goroutine of `StartAndWait` is: what it has done, with the slice of its handler.
pub data Place : Type 0 where
  created failed crashed : Place
  handled listening connected : List ℕ → Place
  -- The node was put. A tick keeps it.
  serving : List ℕ → ServiceRegister → Place
  -- Its lease has run out, or a tick has failed to register it anew. The ticks go on.
  lapsed : List ℕ → ServiceRegister → Place

-- A goroutine has panicked, which ends the program.
abbrev pub crashes : List Place → Bool
crashes [] = false
crashes (crashed ∷ ps) = true
crashes (p ∷ ps) = crashes ps

-- The errors of `CreateServer` and of `NewServiceRegister`, where `none` is nil, and the clock.
pub record Outside : Type 0 where
  pub server_error : Option Bytes
  pub register_error : Option Bytes
  pub now : ℤ

-- What the goroutines share: the objects of the chains, etcd, and how often `wg.Done` was called.
pub record Running (E Body : Type 0) : Type 0 where
  pub heap : List (MiddlewareInfo (Exchange Body))
  pub store : E
  pub done : ℕ
  pub places : List Place

module _ {E : Type 0} where
  -- What follows `Register`, by its result: the place, and whether `wg.Done` is called.
  abbrev pub after_register : List ℕ → ServiceRegister × E × Outcome (Unit {0}) → E × Place × ℕ
  after_register list (sr, e, ok u) = (e, serving list sr, 0)
  after_register list (sr, e, err m) = (e, failed, 1)
  after_register list (sr, e, panic) = (e, crashed, 0)

  -- What follows the `Register` of a tick, whose error is dropped.
  abbrev pub after_renewal : List ℕ → ServiceRegister × E × Outcome (Unit {0}) → E × Place × ℕ
  after_renewal list (sr, e, ok u) = (e, serving list sr, 0)
  after_renewal list (sr, e, err m) = (e, lapsed list sr, 0)
  after_renewal list (sr, e, panic) = (e, crashed, 0)

  -- An error ends the goroutine, which calls `wg.Done` then; without one it goes on.
  abbrev pub unless_error : Option Bytes → Place → E → E × Place × ℕ
  unless_error none place e = (e, place, 0)
  unless_error (some m) place e = (e, failed, 1)

module _ {E Svc Body : Type 0} (etcd : Etcd E) (host : Host) (codecs : Codecs Body) (empty : Body)
    (methods : Svc → Bytes → Option (Exchange Body → Outcome (Exchange Body)))
    (svc : ServiceContext Svc Body) where
  -- `onRequest` of the handler of this service.
  abbrev pub final_of : ServiceInfo Svc → Middleware (Exchange Body)
  final_of info = final codecs empty (methods info.service)

  abbrev pub node_of : ServiceInfo Svc → NodeInfo
  node_of info = record { name = info.name; port = info.port; weight = info.weight }

  -- What follows `KeepAliveOnce` in a tick at this place, by its result.
  abbrev pub after_alive :
      Outside
      → ServiceInfo Svc
      → List ℕ
      → ServiceRegister
      → Place
      → E × Outcome (Unit {0})
      → E × Place × ℕ
  after_alive w info list sr place (e, ok u) = (e, place, 0)
  after_alive w info list sr place (e, err m) =
      after_renewal list (register etcd (record host { now = w.now }) (node_of info) sr e)
  after_alive w info list sr place (e, panic) = (e, crashed, 0)

  -- One call of the goroutine from `CreateServer` on. After `Register` it has returned: from then on
  -- a tick of the goroutine that `Register` started.
  unfoldable pub go_on : Outside → ServiceInfo Svc → Place → E → E × Place × ℕ
  go_on w info (handled list) e = unless_error w.server_error (listening list) e
  go_on w info (listening list) e = unless_error w.register_error (connected list) e
  go_on w info (connected list) e =
      after_register list
        (register etcd (record host { now = w.now }) (node_of info) new_service_register e)
  go_on w info (serving list sr) e =
      after_alive w info list sr (serving list sr) (etcd.keep_alive_once sr.lease_id e)
  go_on w info (lapsed list sr) e =
      after_alive w info list sr (lapsed list sr) (etcd.keep_alive_once sr.lease_id e)
  go_on w info place e = (e, place, 0)

  -- The lease of a service runs out: etcd deletes what is under its key.
  unfoldable pub run_out : (Bytes → E → E) → ServiceInfo Svc → Place → E → E × Place × ℕ
  run_out expire info (serving list sr) e =
      (expire (node_key info.name host.local_ip info.port) e, lapsed list sr, 0)
  run_out expire info place e = (expire (node_key info.name host.local_ip info.port) e, place, 0)

  -- What this does to what the goroutines share.
  abbrev pub move : ℕ → E × Place × ℕ → Running E Body → Running E Body
  move i (e, place, n) r = record {
    heap = r.heap;
    store = e;
    done = r.done + n;
    places = set r.places i place;
  }

  -- One turn of a goroutine: the first makes the handler.
  unfoldable pub turn : ℕ → Outside → ServiceInfo Svc → Place → Running E Body → Running E Body
  turn i w info created r =
      let (heap, list) = set_final (final_of info) r.heap (list_of info.name svc.middlewares) in
      record r { heap = heap; places = set r.places i (handled list) }
  turn i w info place r = move i (go_on w info place r.store) r

  -- Before the first turn.
  abbrev pub start : E → Running E Body
  start e = record {
    heap = svc.middlewares.heap;
    store = e;
    done = 0;
    places = map (λ s. created) svc.service_list;
  }

  -- The turns and the leases that run out, in any order, while no goroutine has panicked.
  -- `expire` is what etcd does to a key whose lease has run out.
  pub data Reach (expire : Bytes → E → E) (e : E) : Running E Body → Type 0 where
    started : Reach expire e (start e)
    next :
        {r : Running E Body}
        → Reach expire e r
        → (i : ℕ) (name : Bytes) (info : ServiceInfo Svc) (place : Place) (w : Outside)
        → get_elem? svc.service_list i ≡ some (name, info)
        → get_elem? r.places i ≡ some place
        → crashes r.places ≡ false
        → Reach expire e (turn i w info place r)
    expired :
        {r : Running E Body}
        → Reach expire e r
        → (i : ℕ) (name : Bytes) (info : ServiceInfo Svc) (place : Place)
        → get_elem? svc.service_list i ≡ some (name, info)
        → get_elem? r.places i ≡ some place
        → crashes r.places ≡ false
        → Reach expire e (move i (run_out expire info place r.store) r)

  -- `wg.Wait()` returns.
  abbrev pub wait_returns : Running E Body → Bool
  wait_returns r = r.done == length svc.service_list

  -- The handler of a signal, up to `os.Exit`: `refuses` says where `NewServiceRegister` fails. The
  -- error of `Unregister` is dropped.
  unfoldable pub unregister_all : (Bytes → Bool) → List (Bytes × ServiceInfo Svc) → E → E
  unregister_all refuses [] e = e
  unregister_all refuses ((name, info) ∷ rest) e =
      let deleted = (unregister etcd host info.name info.port new_service_register e).1 in
      unregister_all refuses rest (if refuses name then e else deleted)
