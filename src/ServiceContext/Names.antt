-- ===== src/ServiceContext/Names.antt =====
-- The services of a context stand under their names, each under one of its own.
use easycall.Base.{
  ℕ, zero, suc, ◌≡◌, ◌≢◌, refl, sym, ap, ◌∙◌, Bytes, none, some, List, [], ◌∷◌, get_elem?, lookup,
  insert, lookup-insert, bytes_key, eq_bytes, eq_bytes_iff, Bool-cases, inl, inr, none-ne-some,
  arith,
}
use easycall.Base.Int.{ℤ}
use easycall.ServiceContext.{ServiceInfo, ServiceContext, create_service}

module _ {Svc : Type 0} where
  abbrev pub IsNamed : List (Bytes × ServiceInfo Svc) → Type 0
  IsNamed [] = Unit {0}
  IsNamed ((name, info) ∷ m) = (info.name ≡ name) × (lookup name m ≡ none) × IsNamed m

  insert-IsNamed :
      (info : ServiceInfo Svc) (m : List (Bytes × ServiceInfo Svc))
      → IsNamed m
      → IsNamed (insert info.name info m)
  unfolding insert lookup
  insert-IsNamed info [] h = (refl, refl, tt)
  insert-IsNamed info ((name, other) ∷ m) (n, l, h) = elim (Bool-cases (eq_bytes name info.name)) [
    | inl y ↦
        let same = (eq_bytes_iff name info.name).0 y in
        rw (insert, y) (refl, ap (λ k. lookup k m) (sym same) ∙ l, h)
    | inr d ↦
        let away : eq_bytes info.name name ≡ eq_bytes name info.name =
          ground (arith, eq_bytes_iff name info.name, eq_bytes_iff info.name name) in
        rw (insert, d)
          (n, lookup-insert info.name name info m ∙ (rw (away, d) l), insert-IsNamed info m h)
  ]

  pub entry-lookup :
      (m : List (Bytes × ServiceInfo Svc)) (i : ℕ) (name : Bytes) (info : ServiceInfo Svc)
      → IsNamed m
      → get_elem? m i ≡ some (name, info)
      → (info.name ≡ name) × (lookup name m ≡ some info)
  unfolding lookup
  entry-lookup [] i name info h e = absurd (cc)
  entry-lookup ((k, v) ∷ m) zero name info (n, l, h) e =
      let k_same : k ≡ name = cc in
      let v_same : v ≡ info = cc in
      (
        ap (λ x. x.name) (sym v_same) ∙ n ∙ k_same,
        rw ((eq_bytes_iff k name).1 k_same) (ap some v_same),
      )
  entry-lookup ((k, v) ∷ m) (suc i) name info (n, l, h) e =
      let (a, b) = entry-lookup m i name info h e in
      (
        a,
        elim (Bool-cases (eq_bytes k name)) [
          | inl y ↦
              let same = (eq_bytes_iff k name).0 y in
              absurd (none-ne-some info (sym l ∙ ap (λ x. lookup x m) same ∙ b))
          | inr d ↦ rw d b
        ],
      )

  head_apart :
      (k : Bytes) (m : List (Bytes × ServiceInfo Svc)) (i : ℕ) (name : Bytes)
      (info : ServiceInfo Svc)
      → lookup k m ≡ none
      → IsNamed m
      → get_elem? m i ≡ some (name, info)
      → k ≢ info.name
  head_apart k m i name info l h e same =
      let (n, found) = entry-lookup m i name info h e in
      none-ne-some info (sym l ∙ ap (λ x. lookup x m) (same ∙ n) ∙ found)

  -- Different entries have different names.
  pub names_apart :
      (m : List (Bytes × ServiceInfo Svc)) (i j : ℕ) (name name' : Bytes)
      (info info' : ServiceInfo Svc)
      → IsNamed m
      → get_elem? m i ≡ some (name, info)
      → get_elem? m j ≡ some (name', info')
      → i ≢ j
      → info.name ≢ info'.name
  names_apart [] i j name name' info info' h e e' ne same = absurd (cc)
  names_apart ((k, v) ∷ m) zero zero name name' info info' h e e' ne same = ne refl
  names_apart ((k, v) ∷ m) zero (suc j) name name' info info' (n, l, h) e e' ne same =
      let first : v ≡ info = cc in
      head_apart k m j name' info' l h e' (sym n ∙ ap (λ x. x.name) first ∙ same)
  names_apart ((k, v) ∷ m) (suc i) zero name name' info info' (n, l, h) e e' ne same =
      let first : v ≡ info' = cc in
      head_apart k m i name info l h e (sym n ∙ ap (λ x. x.name) first ∙ sym same)
  names_apart ((k, v) ∷ m) (suc i) (suc j) name name' info info' (n, l, h) e e' ne same =
      names_apart m i j name name' info info' h e e' (λ q. ne (ap suc q)) same

-- The services that are created, one after the other.
pub record Create (Svc : Type 0) : Type 0 where
  pub name : Bytes
  pub port : ℤ
  pub service : Svc
  pub weight : ℤ

module _ {Svc Body : Type 0} where
  abbrev pub create_all : List (Create Svc) → ServiceContext Svc Body → ServiceContext Svc Body
  create_all [] svc = svc
  create_all (c ∷ cs) svc = create_all cs (create_service c.name c.port c.service c.weight svc)

  pub create_all-IsNamed :
      (cs : List (Create Svc)) (svc : ServiceContext Svc Body)
      → IsNamed svc.service_list
      → IsNamed (create_all cs svc).service_list
  unfolding create_service
  create_all-IsNamed [] svc h = h
  create_all-IsNamed (c ∷ cs) svc h =
      create_all-IsNamed cs (create_service c.name c.port c.service c.weight svc) (
        insert-IsNamed
          (record { name = c.name; port = c.port; weight = c.weight; service = c.service })
          svc.service_list h)
