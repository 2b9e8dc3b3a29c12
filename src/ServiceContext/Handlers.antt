-- ===== src/ServiceContext/Handlers.antt =====
-- The handlers that `StartAndWait` makes, from a context to which services and middlewares were added.
use easycall.Base.{
  ℕ, zero, suc, ◌<◌, ◌≤◌, ◌≡◌, ◌≢◌, refl, sym, ap, subst, ◌∙◌, Bytes, true, false, none, some,
  Option, List, [], ◌∷◌, ◌++◌, get_elem?, length, length-append, map, bytes_key, has, arith,
  Outcome,
}
use easycall.Package.{Codecs}
use easycall.Middleware.{Middleware, info, list_of, first, call}
use easycall.Middleware.Chain.{Linked, compose, has-fresh, call-Linked}
use easycall.Middleware.Refinement.{Refines, added}
use easycall.Service.{Exchange}
use easycall.ServiceRegister.{Etcd, Host}
use easycall.ServiceContext.{
  ServiceInfo, ServiceContext, Place, created, failed, crashed, handled, listening, connected,
  serving, lapsed, Running, start, Reach, started, next, expired, create_service, final_of,
  new_service_context, add_context_middleware,
}
use easycall.ServiceContext.Names.{IsNamed, names_apart}
use easycall.Middleware.Refinement.{add_all, added-Refines}
use easycall.ServiceContext.Names.{Create, create_all, create_all-IsNamed}
use easycall.ServiceContext.Handling.{turn-IsChained}
use easycall.ServiceContext.Chains.{
  handler_of, is_created, runs, Follows, IsChained, move-IsChained, run_out-Keeps,
}

pub all_created :
    {A : Type 0} (xs : List A) (i : ℕ) (place : Place)
    → get_elem? (map (λ x. created) xs) i ≡ some place
    → created ≡ place
all_created [] i place h = absurd (cc)
all_created (x ∷ xs) zero place h = cc
all_created (x ∷ xs) (suc i) place h = all_created xs i place h

handler-made :
    (place : Place) (list : List ℕ) → handler_of place ≡ some list → is_created place ≡ false
handler-made created list h = absurd (cc)
handler-made failed list h = refl
handler-made crashed list h = refl
handler-made (handled l) list h = refl
handler-made (listening l) list h = refl
handler-made (connected l) list h = refl
handler-made (serving l sr) list h = refl
handler-made (lapsed l sr) list h = refl

-- `AddMiddleware` of the context for each of these, in order.
abbrev pub add_each :
    {Svc Body : Type 0}
    → List (Bytes × Middleware (Exchange Body))
    → ServiceContext Svc Body
    → ServiceContext Svc Body
add_each [] svc = svc
add_each ((name, f) ∷ adds) svc = add_each adds (add_context_middleware name f svc)

add_each-same :
    {Svc Body : Type 0} (adds : List (Bytes × Middleware (Exchange Body)))
    (svc : ServiceContext Svc Body)
    → ((add_each adds svc).service_list ≡ svc.service_list)
      × ((add_each adds svc).middlewares ≡ add_all adds svc.middlewares)
unfolding add_context_middleware
add_each-same [] svc = (refl, refl)
add_each-same ((name, f) ∷ adds) svc = add_each-same adds (add_context_middleware name f svc)

create_all-middlewares :
    {Svc Body : Type 0} (cs : List (Create Svc)) (svc : ServiceContext Svc Body)
    → (create_all cs svc).middlewares ≡ svc.middlewares
unfolding create_service
create_all-middlewares [] svc = refl
create_all-middlewares (c ∷ cs) svc =
    create_all-middlewares cs (create_service c.name c.port c.service c.weight svc)

module _ {E Svc Body : Type 0} (etcd : Etcd E) (host : Host) (codecs : Codecs Body) (empty : Body)
    (methods : Svc → Bytes → Option (Exchange Body → Outcome (Exchange Body))) where
  module _ (svc : ServiceContext Svc Body) (spec : Bytes → List (Middleware (Exchange Body))) where
    -- The pointers of the entry's name.
    abbrev list_at : Option (Bytes × ServiceInfo Svc) → List ℕ
    list_at none = []
    list_at (some (name, info)) = list_of info.name svc.middlewares

    lists_apart :
        (a b : Option (Bytes × ServiceInfo Svc)) (q : ℕ)
        → ((n : Bytes) (x : ServiceInfo Svc) (n' : Bytes) (x' : ServiceInfo Svc)
            → a ≡ some (n, x)
            → b ≡ some (n', x')
            → x.name ≢ x'.name)
        → Refines svc.middlewares spec
        → has q (list_at a) ≡ true
        → has q (list_at b) ≡ false
    lists_apart none b q ne h k = absurd (cc)
    lists_apart (some (n, x)) none q ne h k = refl
    lists_apart (some (n, x)) (some (n', x')) q ne h k =
        h.apart x.name x'.name q (ne n x n' x' refl refl) k

    lists_bounded :
        (a : Option (Bytes × ServiceInfo Svc)) (q : ℕ)
        → Refines svc.middlewares spec
        → length svc.middlewares.heap ≤ q
        → has q (list_at a) ≡ false
    lists_bounded none q h le = refl
    lists_bounded (some (n, x)) q h le =
        has-fresh svc.middlewares.heap (list_of x.name svc.middlewares) (spec x.name) q
          (h.linked x.name) le

    Follows-start :
        (a : Option (Bytes × ServiceInfo Svc)) (name : Bytes) (info : ServiceInfo Svc)
        → Refines svc.middlewares spec
        → a ≡ some (name, info)
        → Follows etcd host codecs empty methods svc spec info created svc.middlewares.heap
            (list_at a)
    Follows-start a name info h e =
        subst
          (λ a.
            Follows etcd host codecs empty methods svc spec info created svc.middlewares.heap
              (list_at a))
          (sym e)
          (record { linked = h.linked info.name; whole = λ k. refl; heads = λ list k. absurd (cc) })

    start-IsChained :
        (e : E)
        → IsNamed svc.service_list
        → Refines svc.middlewares spec
        → IsChained etcd host codecs empty methods svc spec
            (start etcd host codecs empty methods svc e)
    start-IsChained e named h = record {
      chain = λ i. list_at (get_elem? svc.service_list i);
      follows = λ i name info place s p.
          subst
            (λ place.
              Follows etcd host codecs empty methods svc spec info place svc.middlewares.heap
                (list_at (get_elem? svc.service_list i)))
            (all_created svc.service_list i place p)
            (Follows-start (get_elem? svc.service_list i) name info h s);
      apart = λ i j q ne k.
          lists_apart (get_elem? svc.service_list i) (get_elem? svc.service_list j) q
            (λ n x n' x' s s'. names_apart svc.service_list i j n n' x x' named s s' ne) h k;
      bounded = λ i q le. lists_bounded (get_elem? svc.service_list i) q h le;
    }

    Reach-IsChained :
        (expire : Bytes → E → E) (e : E) (r : Running E Body)
        → IsNamed svc.service_list
        → Refines svc.middlewares spec
        → Reach etcd host codecs empty methods svc expire e r
        → IsChained etcd host codecs empty methods svc spec r
    Reach-IsChained expire e _ named h started = start-IsChained e named h
    Reach-IsChained expire e _ named h (next reach i name info place w s p c) =
        turn-IsChained etcd host codecs empty methods svc spec _ i name info place w s p
          (Reach-IsChained expire e _ named h reach)
    Reach-IsChained expire e _ named h (expired reach i name info place s p c) =
        move-IsChained etcd host codecs empty methods svc spec _ i place _ p
          (run_out-Keeps etcd host codecs empty methods svc expire info place _)
          (Reach-IsChained expire e _ named h reach)

  -- The context that is made by these calls.
  abbrev pub built :
      List (Create Svc) → List (Bytes × Middleware (Exchange Body)) → ServiceContext Svc Body
  built creates adds = add_each adds (create_all creates new_service_context)

  built-Refines :
      (creates : List (Create Svc)) (adds : List (Bytes × Middleware (Exchange Body)))
      → Refines (built creates adds).middlewares (λ a. added a adds)
  built-Refines creates adds =
      subst (λ m. Refines m (λ a. added a adds))
        (sym (
          (add_each-same adds (create_all creates new_service_context)).1
          ∙ ap (add_all adds) (create_all-middlewares creates new_service_context)))
        (added-Refines adds)

  pub built-IsNamed :
      (creates : List (Create Svc)) (adds : List (Bytes × Middleware (Exchange Body)))
      → IsNamed (built creates adds).service_list
  built-IsNamed creates adds =
      subst IsNamed (sym (add_each-same adds (create_all creates new_service_context)).0)
        (create_all-IsNamed creates (new_service_context {Body = Body}) tt)

  -- Let services be created and middlewares added in a new context, and the goroutines of
  -- `StartAndWait` come in any order, with any errors and leases that run out. A handler that was made runs, whatever
  -- handlers were made before and after it, the middlewares of its service in the order in which
  -- they were added, and then the methods of that service. Fuel above the number of those
  -- middlewares is enough.
  pub handlers_run :
      (creates : List (Create Svc)) (adds : List (Bytes × Middleware (Exchange Body)))
      (expire : Bytes → E → E) (e : E) (r : Running E Body) (i : ℕ) (name : Bytes)
      (info : ServiceInfo Svc) (place : Place) (list : List ℕ) (fuel : ℕ)
      → Reach etcd host codecs empty methods (built creates adds) expire e r
      → get_elem? (built creates adds).service_list i ≡ some (name, info)
      → get_elem? r.places i ≡ some place
      → handler_of place ≡ some list
      → length (added info.name adds) < fuel
      → call fuel r.heap (first list)
        ≡ compose (
            added info.name adds
            ++ final_of etcd host codecs empty methods (built creates adds) info ∷ [])
  handlers_run creates adds expire e r i name info place list fuel reach s p made lt =
      let svc = built creates adds in
      let h =
        Reach-IsChained svc (λ a. added a adds) expire e r (built-IsNamed creates adds)
          (built-Refines creates adds) reach in
      let f = h.follows i name info place s p in
      let run = final_of etcd host codecs empty methods svc info in
      let l =
        subst
          (λ b.
            Linked r.heap (h.chain i)
              (runs etcd host codecs empty methods svc (λ a. added a adds) info b))
          (handler-made place list made) f.linked in
      ap (call fuel r.heap) (f.heads list made)
      ∙ call-Linked r.heap (h.chain i) (added info.name adds ++ run ∷ []) fuel l
          (omega (arith, lt, length-append (added info.name adds) (run ∷ [])))
