-- ===== src/ServiceContext/Tests.antt =====
-- Two services of one host, with one middleware.
use easycall.Base.{
  ℕ, ◌≡◌, ◌≢◌, ◌↔◌, refl, Bytes, true, false, none, some, Option, List, [], ◌∷◌, ◌++◌, get_elem?,
  Outcome, ok, err, arith, bytes_key, text, lookup, insert, eq_bytes,
}
use easycall.Base.Int.{pos}
use easycall.Package.Sample.{codecs}
use easycall.Middleware.{
  Middleware, call, first, set_final, list_of, add_middleware, add_service_middleware,
}
use easycall.Middleware.Chain.{compose}
use easycall.Middleware.Refinement.{added}
use easycall.Service.{Exchange}
use easycall.ServiceRegister.{
  Etcd, ServiceRegister, new_service_register, node_key, nodes_path, Host, register, unregister,
  forget, encode_node, grant_lease, put_node,
}
use easycall.ServiceRegister.Ends.{IsEtcd}
use easycall.ServiceRegister.Memory.{Memory, memory, memory-IsEtcd}
use easycall.ServiceContext.{
  ServiceInfo, ServiceContext, Place, created, failed, serving, lapsed, handled, listening,
  connected, Outside, Running, turn, go_on, run_out, move, start, Reach, started, next, expired,
  final_of, wait_returns, new_service_context, unregister_all, create_service,
  add_context_middleware,
}
use easycall.ServiceContext.Names.{Create}
use easycall.ServiceContext.Handlers.{built, built-IsNamed, handlers_run}
use easycall.ServiceContext.Waits.{wait_all_failed}
use easycall.ServiceContext.Nodes.{serving-Stands}
use easycall.ServiceContext.Touches.{Stands, key_of}
use easycall.ServiceContext.Signals.{signal_clears}

abbrev host : Host
host = record { local_ip = 49 ∷ []; now = pos 7; marshal = λ ip port weight now. ok ip }

-- No lease is prolonged: every tick registers its node anew.
abbrev etcd : Etcd Memory
etcd = record memory { keep_alive_once = λ lease e. (e, err []) }

etcd-IsEtcd : IsEtcd etcd
etcd-IsEtcd = record {
  content = memory-IsEtcd.content;
  grant_same = memory-IsEtcd.grant_same;
  put_self = memory-IsEtcd.put_self;
  put_other = memory-IsEtcd.put_other;
  delete_self = memory-IsEtcd.delete_self;
  delete_other = memory-IsEtcd.delete_other;
  get_all = memory-IsEtcd.get_all;
}

abbrev expire_key : Bytes → Memory → Memory
expire_key k e = (memory.delete_key k e).0

abbrev methods : Unit {0} → Bytes → Option (Exchange Bytes → Outcome (Exchange Bytes))
methods s name = none

abbrev a : ServiceInfo (Unit {0})
a = record { name = 97 ∷ []; port = pos 80; weight = pos 1; service = tt }

abbrev creates : List (Create (Unit {0}))
creates =
    record { name = 97 ∷ []; port = pos 80; service = tt; weight = pos 1 }
    ∷ record { name = 98 ∷ []; port = pos 81; service = tt; weight = pos 1 }
    ∷ []

abbrev pass : Middleware (Exchange Bytes)
pass none x = ok x
pass (some run) x = run x

abbrev adds : List (Bytes × Middleware (Exchange Bytes))
adds = (97 ∷ [], pass) ∷ []

abbrev svc : ServiceContext (Unit {0}) Bytes
svc = built etcd host codecs [] methods creates adds

abbrev empty : Memory
empty = record { kvs = []; leases = 0 }

abbrev fine : Outside
fine = record { server_error = none; register_error = none; now = pos 8 }

-- The handler of "a", and the state after it was made.
abbrev first_handler : Running Memory Bytes
first_handler =
    turn etcd host codecs [] methods svc 0 fine a created
      (start etcd host codecs [] methods svc empty)

abbrev again : Place → Running Memory Bytes → Running Memory Bytes
again place r = turn etcd host codecs [] methods svc 0 fine a place r

-- Its server listens, its register is made, and it is registered.
abbrev when_registered : Running Memory Bytes
when_registered =
    again (connected (0 ∷ [])) (again (listening (0 ∷ [])) (again (handled (0 ∷ [])) first_handler))

abbrev its_place : Place
its_place = elim when_registered.places [ [] ↦ failed | p ∷ ps ↦ p ]

reached_first : Reach etcd host codecs [] methods svc expire_key empty first_handler
unfolding create_service add_context_middleware insert eq_bytes
reached_first = next started 0 (97 ∷ []) a created fine refl refl refl

reached : Reach etcd host codecs [] methods svc expire_key empty when_registered
unfolding create_service add_context_middleware insert eq_bytes turn go_on set_final list_of
    add_service_middleware add_middleware lookup
reached =
    next
      (next (next reached_first 0 (97 ∷ []) a (handled (0 ∷ [])) fine refl refl refl) 0 (97 ∷ []) a
        (listening (0 ∷ [])) fine refl refl refl)
      0 (97 ∷ []) a (connected (0 ∷ [])) fine refl refl refl

handlers_run_example :
    call 3 when_registered.heap (first (0 ∷ []))
    ≡ compose (added (97 ∷ []) adds ++ final_of etcd host codecs [] methods svc a ∷ [])
unfolding create_service add_context_middleware insert eq_bytes turn go_on set_final list_of
    add_service_middleware add_middleware lookup register unregister forget encode_node grant_lease
    put_node
handlers_run_example =
    handlers_run etcd host codecs [] methods creates adds expire_key empty when_registered 0
      (97 ∷ []) a its_place (0 ∷ []) 3 reached refl refl refl (omega arith)

wait_all_failed_example :
    (wait_returns etcd host codecs [] methods svc when_registered ≡ true)
    ↔ ((i : ℕ) (place : Place) → get_elem? when_registered.places i ≡ some place → place ≡ failed)
wait_all_failed_example =
    wait_all_failed etcd host codecs [] methods svc expire_key empty when_registered reached

abbrev register_of : Place → ServiceRegister
register_of (serving list sr) = sr
register_of (lapsed list sr) = sr
register_of _ = new_service_register

-- The lease of "a" runs out.
abbrev when_lapsed : Running Memory Bytes
when_lapsed =
    move etcd host codecs [] methods svc 0
      (run_out etcd host codecs [] methods svc expire_key a its_place when_registered.store)
      when_registered

-- The tick that follows registers it anew.
abbrev when_renewed : Running Memory Bytes
when_renewed = again (lapsed (0 ∷ []) (register_of its_place)) when_lapsed

reached_renewed : Reach etcd host codecs [] methods svc expire_key empty when_renewed
unfolding create_service add_context_middleware insert eq_bytes turn go_on set_final list_of
    add_service_middleware add_middleware lookup register unregister forget encode_node grant_lease
    put_node run_out
reached_renewed =
    next (expired reached 0 (97 ∷ []) a its_place refl refl refl) 0 (97 ∷ []) a
      (lapsed (0 ∷ []) (register_of its_place)) fine refl refl refl

abbrev its_new_place : Place
its_new_place = elim when_renewed.places [ [] ↦ failed | p ∷ ps ↦ p ]

serving-Stands_example : Stands etcd etcd-IsEtcd host a when_renewed.store
unfolding create_service add_context_middleware insert eq_bytes turn go_on set_final list_of
    add_service_middleware add_middleware lookup register unregister forget encode_node grant_lease
    put_node run_out etcd-IsEtcd
serving-Stands_example =
    serving-Stands etcd etcd-IsEtcd host codecs [] methods svc expire_key empty when_renewed 0
      (97 ∷ []) a (0 ∷ []) (register_of its_new_place) (λ l e j. refl)
      (λ k e j ne. memory-IsEtcd.delete_other k e j ne)
      (built-IsNamed etcd host codecs [] methods creates adds) reached_renewed refl refl

-- No service of the context has the empty key.
no_empty_key :
    (i : ℕ) (name : Bytes) (info : ServiceInfo (Unit {0}))
    → get_elem? svc.service_list i ≡ some (name, info)
    → key_of etcd etcd-IsEtcd host info ≢ []
unfolding node_key nodes_path text
no_empty_key i name info h e = cc

signal_clears_example :
    let left =
      unregister_all etcd host codecs [] methods svc
        (λ name. false)
        svc.service_list
        when_registered.store in
    (etcd-IsEtcd.content left (key_of etcd etcd-IsEtcd host a) ≡ none)
    × (etcd-IsEtcd.content left [] ≡ etcd-IsEtcd.content when_registered.store [])
unfolding create_service add_context_middleware insert eq_bytes
signal_clears_example =
    signal_clears etcd etcd-IsEtcd host codecs [] methods svc (λ name. false) (λ k e. refl)
      when_registered.store 0 (97 ∷ []) a [] refl refl no_empty_key

-- Where no server can listen, `StartAndWait` returns.
none_listens :
    (let refused : Outside = record {
      server_error = some [];
      register_error = none;
      now = pos 8;
    } in
      let one : ServiceContext (Unit {0}) Bytes =
        create_service (97 ∷ []) (pos 80) tt (pos 1) new_service_context in
      wait_returns etcd host codecs [] methods one (
        turn etcd host codecs [] methods one 0 refused a (handled (0 ∷ [])) (
          turn etcd host codecs [] methods one 0 refused a created
            (start etcd host codecs [] methods one empty))))
    ≡ true
unfolding create_service insert turn go_on set_final list_of lookup
none_listens = refl
