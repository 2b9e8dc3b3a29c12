-- ===== src/LoadBalancer/Active.antt =====
-- Dynamic load, `getNodeByLoadBalanceActive`: the node with the fewest requests under way.
use easycall.Base.{
  ℕ, zero, suc, ◌+◌, ◌%◌, ◌<◌, ◌≡◌, ◌≢◌, ◌⊎◌, inl, inr, refl, sym, ap, ◌∙◌, subst, Bytes, some,
  List, [], ◌∷◌, ◌++◌, append_assoc, append-nil, length, length-append, get_elem?, get_elem?-append,
  get_elem?_lt, arith, dec_lt, ok, or_panic, ◌==◌, if◌then◌else◌, Bool-cases,
}
use easycall.Base.Int.{ℤ, pos, half64, leb_ℤ, ◌≤ℤ◌, ◌<ℤ◌}
use easycall.NodeManager.{Node}
use easycall.LoadBalancer.{
  LoadBalancer, lb_active, lb_round_robin, active_loop, get_node_active, get_node_round_robin,
  get_node,
}
use easycall.LoadBalancer.RoundRobin.{get_node-round_robin, round_robin_index}

-- `node` stands at index `r` and is the least loaded one, and of several such the last.
pub record IsLastLeast (xs : List Node) (r : ℕ) (node : Node) : Type 0 where
  pub there : get_elem? xs r ≡ some node
  pub least : (j : ℕ) (m : Node) → get_elem? xs j ≡ some m → node.active ≤ℤ m.active
  pub last : (j : ℕ) (m : Node) → r < j → get_elem? xs j ≡ some m → node.active <ℤ m.active

get_elem?-concat :
    (xs : List Node) (n : Node) (j : ℕ) (m : Node)
    → get_elem? (xs ++ n ∷ []) j ≡ some m
    → ((get_elem? xs j ≡ some m) × (j < length xs)) ⊎ ((j ≡ length xs) × (n ≡ m))
get_elem?-concat [] n zero m e = inr (refl, ground arith)
get_elem?-concat [] n (suc j) m e = cc
get_elem?-concat (x ∷ xs) n zero m e = inl (e, omega arith)
get_elem?-concat (x ∷ xs) n (suc j) m e = elim (get_elem?-concat xs n j m e) [
  | inl (f, h) ↦ inl (f, omega arith)
  | inr (f, g) ↦ inr (ap suc f, g)
]

get_elem?-left :
    (xs ys : List Node) (j : ℕ) (m : Node)
    → get_elem? xs j ≡ some m
    → get_elem? (xs ++ ys) j ≡ some m
get_elem?-left [] ys j m e = cc
get_elem?-left (x ∷ xs) ys zero m e = e
get_elem?-left (x ∷ xs) ys (suc j) m e = get_elem?-left xs ys j m e

get_elem?-length : (xs : List Node) (j : ℕ) (m : Node) → get_elem? xs j ≡ some m → j < length xs
get_elem?-length [] j m e = cc
get_elem?-length (x ∷ xs) zero m e = omega arith
get_elem?-length (x ∷ xs) (suc j) m e = omega (arith, get_elem?-length xs j m e)

-- A further node takes over if its load is no greater.
extend_new :
    (xs : List Node) (r : ℕ) (node : Node) (n : Node)
    → IsLastLeast xs r node
    → n.active ≤ℤ node.active
    → IsLastLeast (xs ++ n ∷ []) (length xs) n
extend_new xs r node n l h = record {
  there = get_elem?-append xs n [];
  least = λ j m e. elim (get_elem?-concat xs n j m e) [
    | inl (f, _) ↦ omega (arith, l.least j m f)
    | inr (_, g) ↦ rw g (omega arith)
  ];
  last = λ j m lt e. elim (get_elem?-concat xs n j m e) [
    | inl (_, g) ↦ absurd (omega arith)
    | inr (f, _) ↦ absurd (omega arith)
  ];
}

extend_old :
    (xs : List Node) (r : ℕ) (node : Node) (n : Node)
    → IsLastLeast xs r node
    → node.active <ℤ n.active
    → IsLastLeast (xs ++ n ∷ []) r node
extend_old xs r node n l h = record {
  there = get_elem?-left xs (n ∷ []) r node l.there;
  least = λ j m e. elim (get_elem?-concat xs n j m e) [
    | inl (f, _) ↦ l.least j m f
    | inr (_, g) ↦ rw (← g) (omega arith)
  ];
  last = λ j m lt e. elim (get_elem?-concat xs n j m e) [
    | inl (f, _) ↦ l.last j m lt f
    | inr (_, g) ↦ rw (← g) h
  ];
}

-- What the loop over `ns` finds behind the nodes `xs`, of which `node` at `r` is the best.
abbrev Found : List Node → List Node → ℕ → ℤ → ℕ → Type 0
Found ns xs i a r = (node : Node) × IsLastLeast (xs ++ ns) (active_loop ns i a r) node

regroup :
    (xs : List Node) (n : Node) (ns : List Node) (a : ℤ) (r : ℕ)
    → Found ns (xs ++ n ∷ []) (length (xs ++ n ∷ [])) a r
    → (node : Node) × IsLastLeast (xs ++ n ∷ ns) (active_loop ns (suc (length xs)) a r) node
regroup xs n ns a r (node, l) = (
  node,
  subst (λ k. IsLastLeast (xs ++ n ∷ ns) (active_loop ns k a r) node)
      (omega (arith, length-append xs (n ∷ [])))
      (subst (λ zs. IsLastLeast zs (active_loop ns (length (xs ++ n ∷ [])) a r) node)
        (append_assoc xs (n ∷ []) ns) l),
)

-- The loop keeps that its two variables describe the part of the list that it has seen.
active_loop-Found :
    (ns xs : List Node) (r : ℕ) (node : Node)
    → IsLastLeast xs r node
    → Found ns xs (length xs) node.active r
unfolding active_loop
active_loop-Found [] xs r node l = (node, rw append-nil l)
active_loop-Found (n ∷ ns) xs r node l = elim (Bool-cases (leb_ℤ n.active node.active)) [
  | inl better ↦ rw better (
      regroup xs n ns n.active (length xs) (
        active_loop-Found ns (xs ++ n ∷ []) (length xs) n
          (extend_new xs r node n l (ground arith))))
  | inr worse ↦ rw worse (
      regroup xs n ns node.active r
        (active_loop-Found ns (xs ++ n ∷ []) r node (extend_old xs r node n l (ground arith))))
]

single-IsLastLeast : (n : Node) → IsLastLeast (n ∷ []) 0 n
single-IsLastLeast n = record {
  there = refl;
  least = λ j m e. elim (get_elem?-concat [] n j m e) [
    | inl (f, h) ↦ elim h [ ]
    | inr (_, g) ↦ rw g (omega arith)
  ];
  last = λ j m lt e. absurd (omega (arith, get_elem?-length (n ∷ []) j m e));
}

get_node-active :
    (lb : LoadBalancer) (key : Bytes) (draw : ℕ)
    → length lb.node_list ≢ 0
    → get_node lb lb_active key draw ≡ get_node_active lb
unfolding get_node
get_node-active lb key draw h = ground arith

active_cases :
    (lb : LoadBalancer) (n : Node) (ns : List Node) (node : Node)
    → lb.node_list ≡ n ∷ ns
    → get_elem? (n ∷ ns) (active_loop ns 1 n.active 0) ≡ some node
    → get_node_active lb ≡ (
        if suc (active_loop ns 1 n.active 0) == length (n ∷ ns)
        then get_node_round_robin lb
        else (lb, ok node))
unfolding get_node_active
active_cases lb n ns node e g = rw (e, get_node_active) (ground arith)

-- The answer over the list `xs`.
abbrev PicksLeast : LoadBalancer → Bytes → ℕ → List Node → Type 0
PicksLeast lb key draw xs =
    (r : ℕ) × (node : Node) × IsLastLeast xs r node
    × (get_node lb lb_active key draw
        ≡ (if suc r == length xs then get_node lb lb_round_robin key draw else (lb, ok node)))

active_of_cons :
    (lb : LoadBalancer) (key : Bytes) (draw : ℕ) (n : Node) (ns : List Node)
    → lb.node_list ≡ n ∷ ns
    → PicksLeast lb key draw (n ∷ ns)
active_of_cons lb key draw n ns e =
    let (node, l) = active_loop-Found ns (n ∷ []) 0 n (single-IsLastLeast n) in
    (
      active_loop ns 1 n.active 0,
      node,
      l,
      get_node-active lb key draw ne
          ∙ active_cases lb n ns node e l.there
          ∙ rw (get_node-round_robin lb draw key ne) refl,
    )
  where
    ne : length lb.node_list ≢ 0
    ne = rw e (omega arith)

-- Dynamic load balancing over a list that is not empty finds the least loaded node, of several
-- the last one. It returns that node and leaves the counter alone, unless the node stands last in
-- the list: then it does what round robin does.
pub active_least :
    (lb : LoadBalancer) (key : Bytes) (draw : ℕ)
    → length lb.node_list ≢ 0
    → (r : ℕ) × (node : Node) × IsLastLeast lb.node_list r node
      × (get_node lb lb_active key draw ≡ (
          if suc r == length lb.node_list
          then get_node lb lb_round_robin key draw
          else (lb, ok node)))
active_least lb key draw ne = go lb.node_list refl
  where
    go : (xs : List Node) → lb.node_list ≡ xs → PicksLeast lb key draw lb.node_list
    go [] e = absurd (ne (ap length e))
    go (n ∷ ns) e = subst (PicksLeast lb key draw) (sym e) (active_of_cons lb key draw n ns e)

IsLastLeast-unique :
    (xs : List Node) (r k : ℕ) (a b : Node) → IsLastLeast xs r a → IsLastLeast xs k b → r ≡ k
IsLastLeast-unique xs r k a b l m = elim (dec_lt r k) [
  | yes h ↦ absurd (omega (arith, l.last k b h m.there, m.least r a l.there))
  | no h ↦ elim (dec_lt k r) [
    | yes g ↦ absurd (omega (arith, m.last r a g l.there, l.least k b m.there))
    | no g ↦ omega arith
  ]
]

if_eq {ℓ} : {A : Type ℓ} (a b : ℕ) (x y : A) → a ≡ b → (if a == b then x else y) ≡ x
if_eq a b x y h = ground arith

-- Let the least loaded node stand last in the list, with every other node under more load. While
-- the counter points elsewhere and is below 2^63 - 1, dynamic load balancing does not choose that
-- node: the request goes to one under more load.
pub active_last_skipped :
    (lb : LoadBalancer) (key : Bytes) (draw s r : ℕ) (node : Node)
    → IsLastLeast lb.node_list r node
    → suc r ≡ length lb.node_list
    → ((j : ℕ) (m : Node) → j ≢ r → get_elem? lb.node_list j ≡ some m → node.active <ℤ m.active)
    → lb.seq ≡ pos s
    → s + 1 < half64
    → (s + 1) % length lb.node_list ≢ r
    → (m : Node) × ((get_node lb lb_active key draw).1 ≡ ok m) × (node.active <ℤ m.active)
active_last_skipped lb key draw s r node l e more q h ne =
    let (r', node', l', f) = active_least lb key draw nonempty in
    let (m, g) = get_elem?_lt lb.node_list ((s + 1) % length lb.node_list) (omega arith) in
    (
      m,
      ap (λ p. p.1)
            (f
              ∙ if_eq (suc r') (length lb.node_list) (get_node lb lb_round_robin key draw)
                  (lb, ok node')
                  (omega (arith, IsLastLeast-unique lb.node_list r r' node node' l l')))
          ∙ round_robin_index lb s draw key nonempty q h
          ∙ ap or_panic g,
      more _ m ne g,
    )
  where
    nonempty : length lb.node_list ≢ 0
    nonempty = omega arith
