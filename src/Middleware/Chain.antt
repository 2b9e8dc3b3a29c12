-- ===== src/Middleware/Chain.antt =====
-- A chain of pointers, and the list of middlewares that it stands for.
use easycall.Base.{
  ℕ, zero, suc, ◌≤◌, ◌≡◌, ◌≢◌, inl, inr, refl, ap, ◌∙◌, true, false, Option, none, some, List, [],
  ◌∷◌, ◌++◌, length, length-set, get_elem?-set_self, get_elem?-set_ne, get_elem?-bound, get_elem?,
  bytes_key, has, has-snoc, Option-cases, arith, Outcome,
}
use easycall.Middleware.{Middleware, MiddlewareInfo, info, set_next, link_last, call, first}

-- What the calls of a list of middlewares do, one inside the other.
abbrev pub compose : {S : Type 0} → List (Middleware S) → Option (S → Outcome S)
compose [] = none
compose (f ∷ fs) = some (f (compose fs))

module _ {S : Type 0} where
  -- The pointers lead through distinct objects that hold the middlewares, each to the next.
  abbrev pub Linked : List (MiddlewareInfo S) → List ℕ → List (Middleware S) → Type 0
  Linked heap [] [] = Unit {0}
  Linked heap [] (f ∷ fs) = ⊥
  Linked heap (p ∷ ps) [] = ⊥
  Linked heap (p ∷ ps) (f ∷ fs) =
      (get_elem? heap p ≡ some (info f (first ps))) × (has p ps ≡ false) × Linked heap ps fs

  set_next_ne :
      (heap : List (MiddlewareInfo S)) (p q r : ℕ)
      → p ≢ r
      → get_elem? (set_next p q heap) r ≡ get_elem? heap r
  unfolding set_next
  set_next_ne heap p q r ne = elim (Option-cases (get_elem? heap p)) [
    | inl e ↦ rw (set_next, e) refl
    | inr (m, e) ↦ rw (set_next, e) (get_elem?-set_ne heap p r (record m { next = some q }) ne)
  ]

  set_next_self :
      (heap : List (MiddlewareInfo S)) (p q : ℕ) (m : MiddlewareInfo S)
      → get_elem? heap p ≡ some m
      → get_elem? (set_next p q heap) p ≡ some (record m { next = some q })
  unfolding set_next
  set_next_self heap p q m e =
      rw (set_next, e) (get_elem?-set_self heap p m (record m { next = some q }) e)

  -- What is not in the slice stays as it was.
  pub link_last_ne :
      (heap : List (MiddlewareInfo S)) (ps : List ℕ) (q r : ℕ)
      → has r ps ≡ false
      → get_elem? (link_last ps q heap) r ≡ get_elem? heap r
  unfolding link_last
  link_last_ne heap [] q r h = refl
  link_last_ne heap (p ∷ []) q r h = set_next_ne heap p q r (λ e. ground arith)
  link_last_ne heap (p ∷ p' ∷ ps) q r h = link_last_ne heap (p' ∷ ps) q r (ground arith)

  -- A new object is not in any chain.
  pub has-fresh :
      (heap : List (MiddlewareInfo S)) (ps : List ℕ) (fs : List (Middleware S)) (q : ℕ)
      → Linked heap ps fs
      → length heap ≤ q
      → has q ps ≡ false
  has-fresh heap [] fs q l le = refl
  has-fresh heap (p ∷ ps) [] q l le = absurd l
  has-fresh heap (p ∷ ps) (f ∷ fs) q (e, n, l) le =
      ground (arith, get_elem?-bound heap p _ e, has-fresh heap ps fs q l le)

  pub Linked-snoc :
      (heap heap' : List (MiddlewareInfo S)) (ps : List ℕ) (fs : List (Middleware S))
      (f : Middleware S) (q : ℕ)
      → Linked heap ps fs
      → has q ps ≡ false
      → ((r : ℕ) (m : MiddlewareInfo S)
          → get_elem? (link_last ps q heap) r ≡ some m
          → get_elem? heap' r ≡ some m)
      → get_elem? heap' q ≡ some (info f none)
      → Linked heap' (ps ++ q ∷ []) (fs ++ f ∷ [])
  unfolding link_last
  Linked-snoc heap heap' [] [] f q l n k e = (e, refl, tt)
  Linked-snoc heap heap' (p ∷ []) (g ∷ []) f q (d, m, l) n k e =
      (k p _ (set_next_self heap p q (info g none) d), ground arith, (e, refl, tt))
  Linked-snoc heap heap' (p ∷ p' ∷ ps) (g ∷ g' ∷ fs) f q (d, m, l) n k e = (
    k p _ (link_last_ne heap (p' ∷ ps) q p m ∙ d),
    has-snoc p q (p' ∷ ps) ∙ (ground arith),
    Linked-snoc heap heap' (p' ∷ ps) (g' ∷ fs) f q l (ground arith) k e,
  )
  Linked-snoc heap heap' [] (g ∷ fs) f q l n k e = absurd l
  Linked-snoc heap heap' (p ∷ ps) [] f q l n k e = absurd l
  Linked-snoc heap heap' (p ∷ []) (g ∷ g' ∷ fs) f q (d, m, l) n k e = absurd l
  Linked-snoc heap heap' (p ∷ p' ∷ ps) (g ∷ []) f q (d, m, l) n k e = absurd l

  pub Linked-frame :
      (heap heap' : List (MiddlewareInfo S)) (ps : List ℕ) (fs : List (Middleware S))
      → Linked heap ps fs
      → ((r : ℕ) (m : MiddlewareInfo S)
          → has r ps ≡ true
          → get_elem? heap r ≡ some m
          → get_elem? heap' r ≡ some m)
      → Linked heap' ps fs
  Linked-frame heap heap' [] [] l k = tt
  Linked-frame heap heap' [] (f ∷ fs) l k = absurd l
  Linked-frame heap heap' (p ∷ ps) [] l k = absurd l
  Linked-frame heap heap' (p ∷ ps) (f ∷ fs) (e, n, l) k =
      (k p _ (ground arith) e, n, Linked-frame heap heap' ps fs l (λ r m h. k r m (ground arith)))

  length-set_next :
      (p q : ℕ) (heap : List (MiddlewareInfo S)) → length (set_next p q heap) ≡ length heap
  unfolding set_next
  length-set_next p q heap = elim (Option-cases (get_elem? heap p)) [
    | inl e ↦ rw (set_next, e) refl
    | inr (m, e) ↦ rw (set_next, e) (length-set heap p (record m { next = some q }))
  ]

  pub length-link_last :
      (ps : List ℕ) (q : ℕ) (heap : List (MiddlewareInfo S))
      → length (link_last ps q heap) ≡ length heap
  unfolding link_last
  length-link_last [] q heap = refl
  length-link_last (p ∷ []) q heap = length-set_next p q heap
  length-link_last (p ∷ p' ∷ ps) q heap = length-link_last (p' ∷ ps) q heap

  pub call-Linked :
      (heap : List (MiddlewareInfo S)) (ps : List ℕ) (fs : List (Middleware S)) (fuel : ℕ)
      → Linked heap ps fs
      → length fs ≤ fuel
      → call fuel heap (first ps) ≡ compose fs
  unfolding call
  call-Linked heap [] [] zero l h = refl
  call-Linked heap [] [] (suc fuel) l h = refl
  call-Linked heap [] (f ∷ fs) fuel l h = absurd l
  call-Linked heap (p ∷ ps) [] fuel l h = absurd l
  call-Linked heap (p ∷ ps) (f ∷ fs) zero l h = elim h [ ]
  call-Linked heap (p ∷ ps) (f ∷ fs) (suc fuel) (e, n, l) h =
      rw (call, e) (ap (λ k. some (f k)) (call-Linked heap ps fs fuel l (omega arith)))
