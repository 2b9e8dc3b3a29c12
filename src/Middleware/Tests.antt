-- ===== src/Middleware/Tests.antt =====
-- Chains at concrete middlewares: each notes its number and goes on.
use easycall.Base.{
  ℕ, ◌≡◌, refl, none, some, List, [], ◌∷◌, ◌++◌, lookup, insert, bytes_key, eq_bytes, arith, ok,
}
use easycall.Middleware.{
  Middleware, set_next, link_last, add_middleware, set_final, call, first, list_of,
  add_service_middleware,
}
use easycall.Middleware.Chain.{compose}
use easycall.Middleware.Refinement.{add_all, no_middlewares, added, add_all-compose}

abbrev noting : ℕ → Middleware (List ℕ)
noting n next s = elim next [ none ↦ ok (s ++ n ∷ []) | some run ↦ run (s ++ n ∷ []) ]

abbrev adds : List (List ℕ × Middleware (List ℕ))
adds = (97 ∷ [], noting 1) ∷ (98 ∷ [], noting 2) ∷ (97 ∷ [], noting 3) ∷ []

-- The handler of the first name runs 1, 3 and then the final one.
run_a :
    (let m = add_all adds no_middlewares in
      let (heap, list) = set_final (noting 9) m.heap (list_of (97 ∷ []) m) in
      elim (call 5 heap (first list)) [ none ↦ ok [] | some run ↦ run [] ])
    ≡ ok (1 ∷ 3 ∷ 9 ∷ [])
unfolding set_final call link_last set_next add_middleware add_service_middleware list_of lookup
    insert eq_bytes
run_a = refl

add_all-compose_example :
    let m = add_all adds no_middlewares in
    let (heap, list) = set_final (noting 9) m.heap (list_of (97 ∷ []) m) in
    (call 5 heap (first list) ≡ compose (added (97 ∷ []) adds ++ noting 9 ∷ []))
    × (call 5 m.heap (first (list_of (97 ∷ []) m)) ≡ compose (added (97 ∷ []) adds))
unfolding eq_bytes
add_all-compose_example = add_all-compose adds (97 ∷ []) (noting 9) 5 (omega arith)
