-- ===== src/LoadBalancer/Weight.antt =====
-- Random weight, `getNodeByLoadBalanceRandomWeight`: which draws choose which node.
use native.Mathlib.Nat.{zero-add}
use easycall.Base.{
  ℕ, zero, suc, ◌+◌, ◌-◌, ◌%◌, ◌<◌, ◌≤◌, ◌≡◌, ◌≢◌, ◌⊎◌, refl, ap, subst, ◌∙◌, Bytes, true, some,
  List, [], ◌∷◌, ◌++◌, length, get_elem?, arith, ok, dec_le, inl, inr,
}
use easycall.Base.Int.{
  ℤ, pos, pos_part, neg_part, half64, wrap_lem, ◌+ℤ◌, ◌-ℤ◌, add64, sub64, leb_ℤ,
}
use easycall.NodeManager.{Node}
use easycall.LoadBalancer.{
  LoadBalancer, lb_random_weight, intn, total_weight, pick_weight, get_node_random_weight, get_node,
}

-- Weights as the register service writes them: none is negative.
abbrev pub AreWeights : List Node → Type 0
AreWeights [] = Unit
AreWeights (n ∷ ns) = (neg_part n.weight ≡ 0) × AreWeights ns

abbrev pub sum_weights : List Node → ℕ
sum_weights [] = 0
sum_weights (n ∷ ns) = pos_part n.weight + sum_weights ns

add64_pos :
    (a : ℕ) (b : ℤ)
    → neg_part b ≡ 0
    → a + pos_part b < half64
    → add64 (pos a) b ≡ pos (a + pos_part b)
add64_pos a b h lt =
    wrap_lem half64 (pos a +ℤ b) (unfold ◌+ℤ◌ in ground arith) ∙ (unfold ◌+ℤ◌ in ground arith)

sub64_pos :
    (a : ℕ) (b : ℤ)
    → neg_part b ≡ 0
    → pos_part b ≤ a
    → a < half64
    → sub64 (pos a) b ≡ pos (a - pos_part b)
sub64_pos a b h le lt =
    wrap_lem half64 (pos a -ℤ b) (unfold ◌-ℤ◌ in ground arith) ∙ (unfold ◌-ℤ◌ in ground arith)

-- A draw that the weight covers leaves nothing.
sub64_covered :
    (a : ℕ) (b : ℤ)
    → neg_part b ≡ 0
    → a ≤ pos_part b
    → pos_part b < half64
    → leb_ℤ (sub64 (pos a) b) (pos 0) ≡ true
sub64_covered a b h le lt =
    ap (λ z. leb_ℤ z (pos 0)) (wrap_lem half64 (pos a -ℤ b) (unfold ◌-ℤ◌ in ground arith))
    ∙ (unfold ◌-ℤ◌ in ground arith)

total_weight-sum :
    (ns : List Node) (t : ℕ)
    → AreWeights ns
    → t + sum_weights ns < half64
    → total_weight (pos t) ns ≡ pos (t + sum_weights ns)
unfolding total_weight
total_weight-sum [] t w h = ap pos (omega arith)
total_weight-sum (n ∷ ns) t w h =
    rw
      (
        add64_pos t n.weight w.0 (omega arith),
        total_weight-sum ns (t + pos_part n.weight) w.1 (omega arith),
      )
      (ap pos (omega arith))

sum_weights-append : (xs ys : List Node) → sum_weights (xs ++ ys) ≡ sum_weights xs + sum_weights ys
sum_weights-append [] ys = omega arith
sum_weights-append (x ∷ xs) ys = omega (arith, sum_weights-append xs ys)

-- One round of the loop at a node whose weight the draw exceeds.
pick_weight_pass :
    (n : Node) (ns : List Node) (r : ℕ)
    → neg_part n.weight ≡ 0
    → pos_part n.weight < r
    → r < half64
    → pick_weight (pos r) (n ∷ ns) ≡ pick_weight (pos (r - pos_part n.weight)) ns
unfolding pick_weight
pick_weight_pass n ns r w low high = rw (sub64_pos r n.weight w (omega arith) high) (ground arith)

-- The loop passes over the nodes whose weights the draw exceeds, and stops at the next one.
pick_weight-append :
    (pre : List Node) (n : Node) (post : List Node) (r : ℕ)
    → AreWeights (pre ++ n ∷ post)
    → sum_weights (pre ++ n ∷ post) < half64
    → (sum_weights pre < r) ⊎ (pre ≡ [])
    → r ≤ sum_weights pre + pos_part n.weight
    → pick_weight (pos r) (pre ++ n ∷ post) ≡ some n
unfolding pick_weight
pick_weight-append [] n post r w h low high =
    rw (sub64_covered r n.weight w.0 (omega arith) (omega arith)) refl
pick_weight-append (m ∷ pre) n post r w h (inl low) high =
    pick_weight_pass m (pre ++ n ∷ post) r w.0 (omega arith)
      (omega (arith, sum_weights-append pre (n ∷ post)))
    ∙ pick_weight-append pre n post (r - pos_part m.weight) w.1 (omega arith) (inl (omega arith))
        (omega arith)
pick_weight-append (m ∷ pre) n post r w h (inr e) high = cc

AreWeights-left : (xs ys : List Node) → AreWeights (xs ++ ys) → AreWeights xs
AreWeights-left [] ys w = tt
AreWeights-left (x ∷ xs) ys w = (w.0, AreWeights-left xs ys w.1)

-- A draw that the weights of a first part cover chooses within that part.
pub pick_weight_within :
    (pre post : List Node) (r : ℕ)
    → AreWeights pre
    → sum_weights pre < half64
    → pre ≢ []
    → r ≤ sum_weights pre
    → (j : ℕ) × (m : Node) × (get_elem? pre j ≡ some m)
      × (pick_weight (pos r) (pre ++ post) ≡ some m)
unfolding pick_weight
pick_weight_within [] post r w h ne le = absurd (ne refl)
pick_weight_within (m ∷ pre) post r w h ne le = elim (dec_le r (pos_part m.weight)) [
  | yes c ↦ (0, m, refl, rw (sub64_covered r m.weight w.0 c (omega arith)) refl)
  | no c ↦
      let (j, n, e, f) =
        pick_weight_within pre post (r - pos_part m.weight) w.1 (omega arith)
          (λ e. c (omega (arith, ap sum_weights e))) (omega arith) in
      (suc j, n, e, pick_weight_pass m (pre ++ post) r w.0 (omega arith) (omega arith) ∙ f)
]

pub intn_pos : (total draw : ℕ) → 0 < total → intn (pos total) draw ≡ ok (pos (draw % total))
unfolding intn
intn_pos zero draw h = elim h [ ]
intn_pos (suc n) draw h = refl

length-pos : (ns : List Node) → 0 < sum_weights ns → length ns ≢ 0
length-pos [] h = elim h [ ]
length-pos (n ∷ ns) h = omega arith

dispatch_random_weight :
    (lb : LoadBalancer) (key : Bytes) (draw : ℕ)
    → length lb.node_list ≢ 0
    → get_node lb lb_random_weight key draw ≡ get_node_random_weight lb draw
unfolding get_node
dispatch_random_weight lb key draw h = ground arith

run_random_weight :
    (lb : LoadBalancer) (draw : ℕ) (total random : ℤ) (n : Node)
    → total_weight (pos 0) lb.node_list ≡ total
    → intn total draw ≡ ok random
    → pick_weight random lb.node_list ≡ some n
    → get_node_random_weight lb draw ≡ (lb, ok n)
unfolding get_node_random_weight
run_random_weight lb draw total random n e f g =
    rw (e, get_node_random_weight) (rw (f, get_node_random_weight) (rw g))

-- The request goes where the loop stops, for a draw reduced to the total.
pub get_node-random_weight :
    (lb : LoadBalancer) (key : Bytes) (draw : ℕ) (n : Node)
    → AreWeights lb.node_list
    → sum_weights lb.node_list < half64
    → 0 < sum_weights lb.node_list
    → pick_weight (pos (draw % sum_weights lb.node_list)) lb.node_list ≡ some n
    → get_node lb lb_random_weight key draw ≡ (lb, ok n)
get_node-random_weight lb key draw n w h p e =
    dispatch_random_weight lb key draw (length-pos lb.node_list p)
    ∙ run_random_weight lb draw (pos (sum_weights lb.node_list))
        (pos (draw % sum_weights lb.node_list)) n
        (total_weight-sum lb.node_list 0 w (omega arith) ∙ rw zero-add)
        (intn_pos (sum_weights lb.node_list) draw p) e

-- With weights that are not negative, a positive total below 2^63, and the draw reduced to r below
-- the total, the node behind the nodes `pre` is chosen for r in (S, S + w], where S is the sum of
-- the weights before it and w its own; the first node is chosen for 0 too.
pub weight_interval :
    (lb : LoadBalancer) (key : Bytes) (draw : ℕ) (pre : List Node) (n : Node) (post : List Node)
    → lb.node_list ≡ pre ++ n ∷ post
    → AreWeights lb.node_list
    → sum_weights lb.node_list < half64
    → 0 < sum_weights lb.node_list
    → (sum_weights pre < draw % sum_weights lb.node_list) ⊎ (pre ≡ [])
    → draw % sum_weights lb.node_list ≤ sum_weights pre + pos_part n.weight
    → get_node lb lb_random_weight key draw ≡ (lb, ok n)
weight_interval lb key draw pre n post e w h p low high =
    get_node-random_weight lb key draw n w h p (
      ap (pick_weight (pos (draw % sum_weights lb.node_list))) e
      ∙ pick_weight-append pre n post (draw % sum_weights lb.node_list) (subst AreWeights e w)
          (subst (λ xs. sum_weights xs < half64) e h) low high)

-- A last node of weight 1 is never chosen, whatever the draw: the request goes to one of the nodes
-- before it, if there is one.
pub weight_last_never :
    (lb : LoadBalancer) (key : Bytes) (draw : ℕ) (pre : List Node) (last : Node)
    → lb.node_list ≡ pre ++ last ∷ []
    → last.weight ≡ pos 1
    → pre ≢ []
    → AreWeights lb.node_list
    → sum_weights lb.node_list < half64
    → (j : ℕ) × (m : Node) × (get_elem? pre j ≡ some m)
      × (get_node lb lb_random_weight key draw ≡ (lb, ok m))
weight_last_never lb key draw pre last e one ne w h =
    let (j, m, f, g) =
      pick_weight_within pre (last ∷ []) r (AreWeights-left pre (last ∷ []) (subst AreWeights e w))
        (omega (arith, total)) ne (omega (arith, total)) in
    (
      j,
      m,
      f,
      get_node-random_weight lb key draw m w h (omega (arith, total))
          (ap (pick_weight (pos r)) e ∙ g),
    )
  where
    r : ℕ
    r = draw % sum_weights lb.node_list

    total : sum_weights lb.node_list ≡ sum_weights pre + 1
    total = ap sum_weights e ∙ sum_weights-append pre (last ∷ []) ∙ rw one (omega arith)
