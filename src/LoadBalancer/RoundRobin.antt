-- ===== src/LoadBalancer/RoundRobin.antt =====
-- Round robin, `getNodeByLoadBalanceRoundRobin`: fairness, and the end of the counter.
use Prim.Native.Nat.add
use native.Mathlib.Nat.{add-zero, zero-add, add-suc}
use native.Mathlib.Numerals.{add-one}
use easycall.Base.{
  ℕ, zero, suc, ◌+◌, ◌-◌, ◌%◌, ◌<◌, ◌≤◌, ◌≡◌, ◌≢◌, refl, sym, ap, ap₂, subst, ◌∙◌, Bytes, List, [],
  ◌∷◌, ◌++◌, map, map-append, append_assoc, append-nil, length, length-append, take, drop,
  take-append-drop, length-take, length-drop, get_elem?, get_elem?-append, arith, Outcome, ok,
  panic, or_panic,
}
use easycall.Base.Int.{pos, half64, wrap, wrap_lem, rem, ◌+ℤ◌, add64}
use easycall.NodeManager.{Node}
use easycall.LoadBalancer.{LoadBalancer, lb_round_robin, get_node_round_robin, get_node}

-- The results of so many requests in a row.
pub picks : ℕ → LoadBalancer → List (Outcome Node)
picks zero lb = []
picks (suc k) lb = let (lb', result) = get_node lb lb_round_robin [] 0 in result ∷ picks k lb'

mod_step : (s l : ℕ) → s % l + 1 < l → (s + 1) % l ≡ s % l + 1
mod_step s l h = grind arith

mod_turn : (s l : ℕ) → s % l + 1 ≡ l → (s + 1) % l ≡ 0
mod_turn s l h = grind arith

-- The counter below its bound goes up by one.
add64-one : (s : ℕ) → s + 1 < half64 → add64 (pos s) (pos 1) ≡ pos (s + 1)
add64-one s h =
    wrap_lem half64 (pos s +ℤ pos 1) (unfold ◌+ℤ◌ in ground arith) ∙ (unfold ◌+ℤ◌ in ground arith)

pub get_node-round_robin :
    (lb : LoadBalancer) (draw : ℕ) (key : Bytes)
    → length lb.node_list ≢ 0
    → get_node lb lb_round_robin key draw ≡ get_node_round_robin lb
unfolding get_node
get_node-round_robin lb draw key h = ground arith

-- One request, by the index of its node.
pub round_robin_index :
    (lb : LoadBalancer) (s draw : ℕ) (key : Bytes)
    → length lb.node_list ≢ 0
    → lb.seq ≡ pos s
    → s + 1 < half64
    → (get_node lb lb_round_robin key draw).1
      ≡ or_panic (get_elem? lb.node_list ((s + 1) % length lb.node_list))
unfolding get_node_round_robin rem
round_robin_index lb s draw key ne q h =
    ap (λ p. p.1) (get_node-round_robin lb draw key ne) ∙ rw (q, add64-one s h) refl

-- One request at a known place of the list.
pub round_robin_step :
    (lb : LoadBalancer) (s : ℕ) (pre : List Node) (n : Node) (post : List Node)
    → lb.node_list ≡ pre ++ n ∷ post
    → lb.seq ≡ pos s
    → s + 1 < half64
    → (s + 1) % length lb.node_list ≡ length pre
    → get_node lb lb_round_robin [] 0 ≡ (record lb { seq = pos (s + 1) }, ok n)
unfolding get_node_round_robin rem
round_robin_step lb s pre n post e q h m =
    get_node-round_robin lb 0 [] (rw (e, length-append pre (n ∷ post)) (omega arith))
    ∙ rw (q, add64-one s h, m, e, get_elem?-append pre n post) refl

-- Requests that start at the head of `mid` walk through it.
picks_mid :
    (mid : List Node) (lb : LoadBalancer) (s : ℕ) (pre post : List Node)
    → lb.node_list ≡ pre ++ (mid ++ post)
    → lb.seq ≡ pos s
    → s + length mid < half64
    → (s + 1) % length lb.node_list ≡ length pre
    → picks (length mid) lb ≡ map ok mid
unfolding picks
picks_mid [] lb s pre post e q h m = refl
picks_mid (n ∷ []) lb s pre post e q h m =
    rw (round_robin_step lb s pre n post e q (omega arith) m) refl
picks_mid (n ∷ n' ∷ mid) lb s pre post e q h m =
    rw (round_robin_step lb s pre n _ e q (omega arith) m) (
      ap (◌∷◌ (ok n))
        (picks_mid (n' ∷ mid) _ (s + 1) (pre ++ n ∷ []) post later refl (omega arith) next))
  where
    later : lb.node_list ≡ (pre ++ n ∷ []) ++ ((n' ∷ mid) ++ post)
    later = e ∙ sym (append_assoc pre (n ∷ []) ((n' ∷ mid) ++ post))

    room : (s + 1) % length lb.node_list + 1 < length lb.node_list
    room = rw (m, e) (omega (arith, length-append pre (n ∷ n' ∷ mid ++ post)))

    next : (s + 1 + 1) % length lb.node_list ≡ length (pre ++ n ∷ [])
    next = omega (arith, mod_step (s + 1) _ room, length-append pre (n ∷ []))

-- Any request moves the counter up by one.
round_robin_state :
    (lb : LoadBalancer) (s : ℕ)
    → length lb.node_list ≢ 0
    → lb.seq ≡ pos s
    → s + 1 < half64
    → (get_node lb lb_round_robin [] 0).0 ≡ record lb { seq = pos (s + 1) }
unfolding get_node_round_robin
round_robin_state lb s ne q h =
    ap (λ p. p.0) (get_node-round_robin lb 0 [] ne) ∙ rw (q, add64-one s h) refl

-- A row of requests is cut in two, and the counter stands after the first part.
picks_append :
    (j k : ℕ) (lb : LoadBalancer) (s : ℕ)
    → length lb.node_list ≢ 0
    → lb.seq ≡ pos s
    → s + j < half64
    → picks (j + k) lb ≡ picks j lb ++ picks k (record lb { seq = pos (s + j) })
unfolding picks
picks_append zero k lb s ne q h = rw (add-zero, zero-add, ← q) refl
picks_append (suc j) k lb s ne q h =
    rw
      (
        add.suc j k,
        round_robin_state lb s ne q (omega arith),
        picks_append j k (record lb { seq = pos (s + 1) }) (s + 1) ne refl (omega arith),
        add-suc s j,
        add-one,
        add.suc s j,
      )
      refl

mod_rest : (t l : ℕ) → 0 < l → (t + (l - t % l)) % l ≡ 0
mod_rest t l h = grind arith

-- The rotation, for a list that is already cut at the next node.
rotate_cut :
    (pre mid : List Node) (lb : LoadBalancer) (s : ℕ)
    → length lb.node_list ≢ 0
    → lb.node_list ≡ pre ++ mid
    → lb.seq ≡ pos s
    → s + length lb.node_list < half64
    → (s + 1) % length lb.node_list ≡ length pre
    → picks (length mid + length pre) lb ≡ map ok (mid ++ pre)
rotate_cut pre mid lb s ne e q h m =
    picks_append (length mid) (length pre) lb s ne q (omega (arith, sizes))
    ∙ ap₂ ◌++◌
        (picks_mid mid lb s pre [] (e ∙ ap (◌++◌ pre) (sym (append-nil mid))) q
          (omega (arith, sizes)) m)
        (picks_mid pre (record lb { seq = pos (s + length mid) }) (s + length mid) [] mid e refl
          (omega (arith, sizes)) back)
    ∙ sym (map-append ok mid pre)
  where
    sizes : length lb.node_list ≡ length pre + length mid
    sizes = ap length e ∙ length-append pre mid

    back : (s + length mid + 1) % length lb.node_list ≡ 0
    back =
        subst (λ t. t % length lb.node_list ≡ 0) (omega (arith, sizes, m))
          (mod_rest (s + 1) (length lb.node_list) (omega arith))

-- Over n nodes, n requests in a row visit every node exactly once: they return the node list,
-- rotated to begin behind the node that was served last. The counter must not reach 2^63 - 1.
pub round_robin_rotates :
    (lb : LoadBalancer) (s : ℕ)
    → length lb.node_list ≢ 0
    → lb.seq ≡ pos s
    → s + length lb.node_list < half64
    → picks (length lb.node_list) lb
      ≡ map ok (
          drop ((s + 1) % length lb.node_list) lb.node_list
          ++ take ((s + 1) % length lb.node_list) lb.node_list)
round_robin_rotates lb s ne q h =
    subst (λ k. picks k lb ≡ map ok (drop r lb.node_list ++ take r lb.node_list)) whole
      (rotate_cut (take r lb.node_list) (drop r lb.node_list) lb s ne
        (sym (take-append-drop r lb.node_list)) q h (sym (length-take r lb.node_list r_le)))
  where
    r : ℕ
    r = (s + 1) % length lb.node_list

    r_le : r ≤ length lb.node_list
    r_le = omega arith

    whole : length (drop r lb.node_list) + length (take r lb.node_list) ≡ length lb.node_list
    whole = omega (arith, length-take r lb.node_list r_le, length-drop r lb.node_list r_le)

-- At 2^63 - 1 the counter wraps to -2^63, and the negative index is a panic whenever the number of
-- nodes does not divide 2^63.
pub round_robin_overflow :
    (lb : LoadBalancer) (draw : ℕ) (key : Bytes)
    → lb.seq ≡ pos (half64 - 1)
    → half64 % length lb.node_list ≢ 0
    → length lb.node_list ≢ 0
    → (get_node lb lb_round_robin key draw).1 ≡ panic
unfolding get_node_round_robin rem wrap ◌+ℤ◌
round_robin_overflow lb draw key q h ne =
    ap (λ p. p.1) (get_node-round_robin lb draw key ne) ∙ rw q (ground arith)
