-- ===== src/Middleware/Refinement.antt =====
-- The chains of a service context, against a list of middlewares for each name.
use easycall.Base.{
  ℕ, ◌<◌, ◌≡◌, ◌≢◌, inl, inr, refl, sym, ap, subst, ◌∙◌, Bytes, true, false, none, some, List, [],
  ◌∷◌, ◌++◌, length, length-append, append-nil, append_assoc, get_elem?, get_elem?-snoc,
  get_elem?-append, lookup, bytes_key, eq_bytes, eq_bytes_iff, lookup-insert, if◌then◌else◌,
  Bool-cases, arith, has, has-snoc,
}
use easycall.Middleware.{
  Middleware, MiddlewareInfo, info, link_last, add_middleware, set_final, call, first, Middlewares,
  list_of, or_empty, add_service_middleware,
}
use easycall.Middleware.Chain.{
  has-fresh, compose, Linked, Linked-snoc, Linked-frame, link_last_ne, length-link_last,
  call-Linked,
}

-- Each name has its middlewares in the order in which they were added.
abbrev pub note :
    {S : Type 0}
    → Bytes
    → Middleware S
    → (Bytes → List (Middleware S))
    → Bytes
    → List (Middleware S)
note name f spec a = if eq_bytes name a then spec a ++ f ∷ [] else spec a

module _ {S : Type 0} where
  pub record Refines (m : Middlewares S) (spec : Bytes → List (Middleware S)) : Type 0 where
    pub linked : (a : Bytes) → Linked m.heap (list_of a m) (spec a)
    pub apart :
        (a b : Bytes) (r : ℕ) → a ≢ b → has r (list_of a m) ≡ true → has r (list_of b m) ≡ false

  -- The heap after `list[mlen-1].Next = minfo` and with the new object.
  abbrev pub grown : Middleware S → List (MiddlewareInfo S) → List ℕ → List (MiddlewareInfo S)
  grown f heap ps = link_last ps (length heap) heap ++ info f none ∷ []

  grown-new :
      (f : Middleware S) (heap : List (MiddlewareInfo S)) (ps : List ℕ)
      → get_elem? (grown f heap ps) (length heap) ≡ some (info f none)
  grown-new f heap ps =
      subst (λ k. get_elem? (grown f heap ps) k ≡ some (info f none))
        (length-link_last ps (length heap) heap)
        (get_elem?-append (link_last ps (length heap) heap) (info f none) [])

  pub grown-Linked :
      (f : Middleware S) (heap : List (MiddlewareInfo S)) (ps : List ℕ) (fs : List (Middleware S))
      → Linked heap ps fs
      → Linked (grown f heap ps) (ps ++ length heap ∷ []) (fs ++ f ∷ [])
  grown-Linked f heap ps fs l =
      Linked-snoc heap (grown f heap ps) ps fs f (length heap) l
        (has-fresh heap ps fs (length heap) l (omega arith))
        (λ r m e. get_elem?-snoc (link_last ps (length heap) heap) r m (info f none) e)
        (grown-new f heap ps)

  -- Another chain stays as it is.
  pub grown-apart :
      (f : Middleware S) (heap : List (MiddlewareInfo S)) (ps qs : List ℕ)
      (gs : List (Middleware S))
      → Linked heap qs gs
      → ((r : ℕ) → has r qs ≡ true → has r ps ≡ false)
      → Linked (grown f heap ps) qs gs
  grown-apart f heap ps qs gs l k = Linked-frame heap (grown f heap ps) qs gs l (λ r m h e.
      get_elem?-snoc (link_last ps (length heap) heap) r m (info f none)
        (link_last_ne heap ps (length heap) r (k r h) ∙ e))

  list_of-add :
      (name a : Bytes) (f : Middleware S) (m : Middlewares S)
      → list_of a (add_service_middleware name f m)
        ≡ (if eq_bytes name a then list_of name m ++ length m.heap ∷ [] else list_of a m)
  unfolding list_of add_service_middleware add_middleware
  list_of-add name a f m =
      let list = list_of name m ++ length m.heap ∷ [] in
      ap or_empty (lookup-insert name a list m.lists)
      ∙ elim (Bool-cases (eq_bytes name a)) [ inl e ↦ rw e refl | inr e ↦ rw e refl ]

  heap-add :
      (name : Bytes) (f : Middleware S) (m : Middlewares S)
      → (add_service_middleware name f m).heap ≡ grown f m.heap (list_of name m)
  unfolding add_service_middleware add_middleware
  heap-add name f m = refl

  Linked-add :
      (name : Bytes) (f : Middleware S) (m : Middlewares S) (spec : Bytes → List (Middleware S))
      → Refines m spec
      → (a : Bytes)
      → Linked
          (add_service_middleware name f m).heap
          (list_of a (add_service_middleware name f m))
          (note name f spec a)
  Linked-add name f m spec h a = elim (Bool-cases (eq_bytes name a)) [
    | inl e ↦
        rw (list_of-add name a f m, heap-add name f m, e)
          (subst
            (λ b.
              Linked (grown f m.heap (list_of name m)) (list_of name m ++ length m.heap ∷ [])
                (spec b ++ f ∷ []))
            ((eq_bytes_iff name a).0 e)
            (grown-Linked f m.heap (list_of name m) (spec name) (h.linked name)))
    | inr e ↦
        rw (list_of-add name a f m, heap-add name f m, e)
          (grown-apart f m.heap (list_of name m) (list_of a m) (spec a) (h.linked a)
            (λ r k. h.apart a name r (λ p. ground (arith, eq_bytes_iff name a)) k))
  ]

  apart-add :
      (name : Bytes) (f : Middleware S) (m : Middlewares S) (spec : Bytes → List (Middleware S))
      → Refines m spec
      → (a b : Bytes) (r : ℕ) → a ≢ b
      → has r (list_of a (add_service_middleware name f m)) ≡ true
      → has r (list_of b (add_service_middleware name f m)) ≡ false
  apart-add name f m spec h a b r ne k =
      let fresh = λ (c : Bytes).
        has-fresh m.heap (list_of c m) (spec c) (length m.heap) (h.linked c) (omega arith) in
      let k' = rw (list_of-add name a f m) at k in
      rw (list_of-add name b f m) (
        ground (
          arith,
          k',
          fresh a,
          fresh b,
          h.apart a b r ne,
          h.apart name b r,
          h.apart a name r,
          has-snoc r (length m.heap) (list_of name m),
          eq_bytes_iff name a,
          eq_bytes_iff name b,
        ))

  pub add_service_middleware-Refines :
      (name : Bytes) (f : Middleware S) (m : Middlewares S) (spec : Bytes → List (Middleware S))
      → Refines m spec
      → Refines (add_service_middleware name f m) (note name f spec)
  add_service_middleware-Refines name f m spec h = record {
    linked = Linked-add name f m spec h;
    apart = apart-add name f m spec h;
  }

  pub first-snoc :
      (f : Middleware S) (heap : List (MiddlewareInfo S)) (ps : List ℕ)
      → first (set_final f heap ps).1 ≡ first (ps ++ length heap ∷ [])
  unfolding set_final
  first-snoc f heap [] = refl
  first-snoc f heap (p ∷ ps) = refl

  pub heap-final :
      (f : Middleware S) (heap : List (MiddlewareInfo S)) (ps : List ℕ)
      → (set_final f heap ps).0 ≡ grown f heap ps
  unfolding set_final
  heap-final f heap ps = refl

  set_final-compose :
      (f : Middleware S) (heap : List (MiddlewareInfo S)) (ps : List ℕ) (fs : List (Middleware S))
      (fuel : ℕ)
      → Linked heap ps fs
      → length fs < fuel
      → call fuel (set_final f heap ps).0 (first (set_final f heap ps).1) ≡ compose (fs ++ f ∷ [])
  set_final-compose f heap ps fs fuel l lt =
      rw (heap-final f heap ps, first-snoc f heap ps)
        (call-Linked (grown f heap ps) (ps ++ length heap ∷ []) (fs ++ f ∷ []) fuel
          (grown-Linked f heap ps fs l) (omega (arith, length-append fs (f ∷ []))))

  -- The calls of `AddMiddleware`, in order.
  abbrev pub add_all : List (Bytes × Middleware S) → Middlewares S → Middlewares S
  add_all [] m = m
  add_all ((name, f) ∷ adds) m = add_all adds (add_service_middleware name f m)

  abbrev pub note_all :
      List (Bytes × Middleware S) → (Bytes → List (Middleware S)) → Bytes → List (Middleware S)
  note_all [] spec = spec
  note_all ((name, f) ∷ adds) spec = note_all adds (note name f spec)

  abbrev pub no_middlewares : Middlewares S
  no_middlewares = record { heap = []; lists = [] }

  no_middlewares-Refines : Refines no_middlewares (λ a. [])
  unfolding list_of lookup
  no_middlewares-Refines = record { linked = λ a. tt; apart = λ a b r ne k. refl }

  add_all-Refines :
      (adds : List (Bytes × Middleware S)) (m : Middlewares S) (spec : Bytes → List (Middleware S))
      → Refines m spec
      → Refines (add_all adds m) (note_all adds spec)
  add_all-Refines [] m spec h = h
  add_all-Refines ((name, f) ∷ adds) m spec h =
      add_all-Refines adds (add_service_middleware name f m) (note name f spec)
        (add_service_middleware-Refines name f m spec h)

  -- The middlewares of one name among all that were added, in order.
  abbrev pub added : Bytes → List (Bytes × Middleware S) → List (Middleware S)
  added a [] = []
  added a ((name, f) ∷ adds) = if eq_bytes name a then f ∷ added a adds else added a adds

  note_all-added :
      (adds : List (Bytes × Middleware S)) (spec : Bytes → List (Middleware S)) (a : Bytes)
      → note_all adds spec a ≡ spec a ++ added a adds
  note_all-added [] spec a = sym (append-nil (spec a))
  note_all-added ((name, f) ∷ adds) spec a =
      note_all-added adds (note name f spec) a ∙ elim (Bool-cases (eq_bytes name a)) [
        | inl e ↦ rw e (append_assoc (spec a) (f ∷ []) (added a adds))
        | inr e ↦ rw e refl
      ]

  -- The pointers of every name lead through its middlewares, in the order in which they were added.
  pub added-Refines :
      (adds : List (Bytes × Middleware S))
      → Refines (add_all adds no_middlewares) (λ a. added a adds)
  added-Refines adds =
      let h = add_all-Refines adds no_middlewares (λ a. []) no_middlewares-Refines in
      record {
        linked = λ a.
            subst
              (Linked (add_all adds no_middlewares).heap (list_of a (add_all adds no_middlewares)))
              (note_all-added adds (λ a. []) a) (h.linked a);
        apart = h.apart;
      }

  -- Whatever middlewares are added to a new context, under any names and in any order: what a
  -- service handler for a name runs through its chain of pointers is that name's middlewares, one
  -- inside the other in the order in which they were added, and `final` innermost; and the chain
  -- without `final`, as a gateway runs it, is the same list. Fuel above the number of middlewares is enough.
  pub add_all-compose :
      (adds : List (Bytes × Middleware S)) (name : Bytes) (final : Middleware S) (fuel : ℕ)
      → length (added name adds) < fuel
      → let m = add_all adds no_middlewares in
        let (heap, list) = set_final final m.heap (list_of name m) in
        (call fuel heap (first list) ≡ compose (added name adds ++ final ∷ []))
        × (call fuel m.heap (first (list_of name m)) ≡ compose (added name adds))
  add_all-compose adds name final fuel lt =
      let m = add_all adds no_middlewares in
      let l = (added-Refines adds).linked name in
      (
        set_final-compose final m.heap (list_of name m) (added name adds) fuel l lt,
        call-Linked m.heap (list_of name m) (added name adds) fuel l (omega arith),
      )
