-- ===== src/ServiceContext/Handling.antt =====
-- One more handler is made.
use easycall.Base.{
  ℕ, ◌≤◌, ◌≡◌, ◌≢◌, refl, sym, ap, subst, ◌∙◌, Bytes, true, false, none, some, Option, List, [],
  ◌∷◌, ◌++◌, get_elem?, get_elem?-set_cases, length, length-append, bytes_key, has, has-snoc, ◌==◌,
  ==_iff, inl, inr, arith, if◌then◌else◌, Outcome, some_inj,
}
use easycall.Package.{Codecs}
use easycall.Middleware.{Middleware, MiddlewareInfo, info, link_last, list_of, set_final, first}
use easycall.Middleware.Chain.{Linked, length-link_last}
use easycall.Middleware.Refinement.{grown, grown-Linked, grown-apart, first-snoc}
use easycall.Service.{Exchange}
use easycall.ServiceRegister.{Etcd, Host}
use easycall.ServiceContext.{
  ServiceInfo, ServiceContext, Place, created, failed, crashed, handled, listening, connected,
  serving, lapsed, Outside, Running, turn, go_on, move,
}
use easycall.ServiceContext.Chains.{
  is_created, runs, final_for, Follows, IsChained, move-IsChained, go_on-Keeps,
}

module _ {E Svc Body : Type 0} (etcd : Etcd E) (host : Host) (codecs : Codecs Body) (empty : Body)
    (methods : Svc → Bytes → Option (Exchange Body → Outcome (Exchange Body)))
    (svc : ServiceContext Svc Body) where
  module _ (spec : Bytes → List (Middleware (Exchange Body))) where
    -- The pointers of each service after a handler was made for the service at `i`.
    abbrev longer : ℕ → ℕ → (ℕ → List ℕ) → ℕ → List ℕ
    longer i new chain j = if i == j then chain j ++ new ∷ [] else chain j

    longer-apart :
        (i new : ℕ) (chain : ℕ → List ℕ)
        → ((i j q : ℕ) → i ≢ j → has q (chain i) ≡ true → has q (chain j) ≡ false)
        → ((i : ℕ) → has new (chain i) ≡ false)
        → (j k q : ℕ) → j ≢ k
        → has q (longer i new chain j) ≡ true
        → has q (longer i new chain k) ≡ false
    longer-apart i new chain apart fresh j k q ne h = ground (
      arith,
      apart j k q ne,
      fresh k,
      fresh j,
      has-snoc q new (chain j),
      has-snoc q new (chain k),
    )

    longer_here :
        (i j new : ℕ) (chain : ℕ → List ℕ) → i ≡ j → longer i new chain j ≡ chain j ++ new ∷ []
    longer_here i j new chain e = rw ((==_iff i j).1 e) refl

    longer_ne : (i j new : ℕ) (chain : ℕ → List ℕ) → i ≢ j → longer i new chain j ≡ chain j
    longer_ne i j new chain ne = ground (arith, ne)

    longer-bounded :
        (i : ℕ) (f : Middleware (Exchange Body)) (heap : List (MiddlewareInfo (Exchange Body)))
        (ps : List ℕ) (chain : ℕ → List ℕ)
        → ((j q : ℕ) → length heap ≤ q → has q (chain j) ≡ false)
        → (j q : ℕ) → length (grown f heap ps) ≤ q
        → has q (longer i (length heap) chain j) ≡ false
    longer-bounded i f heap ps chain bounded j q le =
        let new = length heap in
        let size = length-append (link_last ps new heap) (info f none ∷ []) in
        let old = length-link_last ps new heap in
        ground
          (arith, bounded j q (omega (arith, le, size, old)), has-snoc q new (chain j), size, old)

    Follows-new :
        (info : ServiceInfo Svc) (heap : List (MiddlewareInfo (Exchange Body))) (ps : List ℕ)
        → Linked heap ps (spec info.name)
        → Follows etcd host codecs empty methods svc spec info
            (handled (set_final (final_for etcd host codecs empty methods svc info) heap ps).1)
            (grown (final_for etcd host codecs empty methods svc info) heap ps)
            (ps ++ length heap ∷ [])
    Follows-new info heap ps l = record {
      linked =
          grown-Linked (final_for etcd host codecs empty methods svc info) heap ps (spec info.name)
            l;
      whole = λ h. absurd (cc);
      heads = λ list h.
          ap first (some_inj (sym h))
          ∙ first-snoc (final_for etcd host codecs empty methods svc info) heap ps;
    }

    Follows-other :
        (info info' : ServiceInfo Svc) (place : Place)
        (heap : List (MiddlewareInfo (Exchange Body))) (ps qs : List ℕ)
        → Follows etcd host codecs empty methods svc spec info' place heap qs
        → ((q : ℕ) → has q qs ≡ true → has q ps ≡ false)
        → Follows etcd host codecs empty methods svc spec info' place
            (grown (final_for etcd host codecs empty methods svc info) heap ps)
            qs
    Follows-other info info' place heap ps qs f k = record {
      linked =
          grown-apart (final_for etcd host codecs empty methods svc info) heap ps qs
            (runs etcd host codecs empty methods svc spec info' (is_created place)) f.linked k;
      whole = f.whole;
      heads = f.heads;
    }

    handle-IsChained :
        (r : Running E Body) (i : ℕ) (name : Bytes) (info : ServiceInfo Svc) (w : Outside)
        → get_elem? svc.service_list i ≡ some (name, info)
        → get_elem? r.places i ≡ some created
        → IsChained etcd host codecs empty methods svc spec r
        → IsChained etcd host codecs empty methods svc spec
            (turn etcd host codecs empty methods svc i w info created r)
    unfolding turn set_final
    handle-IsChained r i name info w s p h =
        let f = h.follows i name info created s p in
        let whole = f.whole refl in
        let ps = list_of info.name svc.middlewares in
        let list = (set_final (final_for etcd host codecs empty methods svc info) r.heap ps).1 in
        let new = length r.heap in
        record {
          chain = longer i new h.chain;
          follows = λ j name' info' q t u.
              elim (get_elem?-set_cases r.places i j created (handled list) q p u) [
                | inl (here, is_new) ↦
                    let same : info ≡ info' = cc in
                    subst
                      (Follows etcd host codecs empty methods svc spec info' q
                        (grown (final_for etcd host codecs empty methods svc info) r.heap ps))
                      (sym (longer_here i j new h.chain here))
                      (subst
                        (λ qs.
                          Follows etcd host codecs empty methods svc spec info' q
                            (grown (final_for etcd host codecs empty methods svc info) r.heap ps)
                            (qs ++ new ∷ []))
                        (sym whole ∙ ap h.chain here)
                        (subst
                          (λ q.
                            Follows etcd host codecs empty methods svc spec info' q
                              (grown (final_for etcd host codecs empty methods svc info) r.heap ps)
                              (ps ++ new ∷ []))
                          is_new
                          (subst
                            (λ x.
                              Follows etcd host codecs empty methods svc spec x (handled list)
                                (grown (final_for etcd host codecs empty methods svc info) r.heap
                                  ps)
                                (ps ++ new ∷ []))
                            same
                            (Follows-new info r.heap ps
                              (subst (λ qs. Linked r.heap qs (spec info.name)) whole f.linked)))))
                | inr (ne, old) ↦
                    subst
                      (Follows etcd host codecs empty methods svc spec info' q
                        (grown (final_for etcd host codecs empty methods svc info) r.heap ps))
                      (sym (longer_ne i j new h.chain ne))
                      (Follows-other info info' q r.heap ps (h.chain j)
                        (h.follows j name' info' q t old)
                        (λ a k. ap (has a) (sym whole) ∙ h.apart j i a (λ e. ne (sym e)) k))
              ];
          apart = longer-apart i new h.chain h.apart (λ i. h.bounded i new (omega arith));
          bounded =
              longer-bounded i (final_for etcd host codecs empty methods svc info) r.heap ps h.chain
                h.bounded;
        }

    -- A turn after the first.
    later-IsChained :
        (r : Running E Body) (i : ℕ) (info : ServiceInfo Svc) (place : Place) (w : Outside)
        → get_elem? r.places i ≡ some place
        → IsChained etcd host codecs empty methods svc spec r
        → IsChained etcd host codecs empty methods svc spec (
            move etcd host codecs empty methods svc i
              (go_on etcd host codecs empty methods svc w info place r.store)
              r)
    later-IsChained r i info place w p h =
        move-IsChained etcd host codecs empty methods svc spec r i place _ p
          (go_on-Keeps etcd host codecs empty methods svc w info place r.store) h

    pub turn-IsChained :
        (r : Running E Body) (i : ℕ) (name : Bytes) (info : ServiceInfo Svc) (place : Place)
        (w : Outside)
        → get_elem? svc.service_list i ≡ some (name, info)
        → get_elem? r.places i ≡ some place
        → IsChained etcd host codecs empty methods svc spec r
        → IsChained etcd host codecs empty methods svc spec
            (turn etcd host codecs empty methods svc i w info place r)
    unfolding turn
    turn-IsChained r i name info created w s p h = handle-IsChained r i name info w s p h
    turn-IsChained r i name info failed w s p h = later-IsChained r i info failed w p h
    turn-IsChained r i name info crashed w s p h = later-IsChained r i info crashed w p h
    turn-IsChained r i name info (handled l) w s p h = later-IsChained r i info (handled l) w p h
    turn-IsChained r i name info (listening l) w s p h =
        later-IsChained r i info (listening l) w p h
    turn-IsChained r i name info (connected l) w s p h =
        later-IsChained r i info (connected l) w p h
    turn-IsChained r i name info (serving l sr) w s p h =
        later-IsChained r i info (serving l sr) w p h
    turn-IsChained r i name info (lapsed l sr) w s p h =
        later-IsChained r i info (lapsed l sr) w p h
