-- ===== src/Gateway/Chains.antt =====
-- The chain of a gateway.
use easycall.Base.{
  ℕ, ◌≤◌, ◌≡◌, refl, sym, subst, Bytes, true, Option, none, some, List, [], ◌∷◌, ◌++◌, append_assoc,
  append-nil, length, Outcome, ok, ◌>>=◌,
}
use easycall.Package.{EasyPackage, Codecs, decode_with_body_data}
use easycall.Connection.Writes.{EasyConnection}
use easycall.Middleware.{Middleware, MiddlewareInfo, add_middleware}
use easycall.Middleware.Chain.{compose, Linked, call-Linked}
use easycall.Middleware.Refinement.{grown, grown-Linked}
use easycall.EasyClient.{EasyClient}
use easycall.Gateway.{Proxied, gateway_dispatch}

-- `AddMiddleware` for each of these, in order.
abbrev pub add_each :
    {S : Type 0}
    → List (Middleware S)
    → List (MiddlewareInfo S) × List ℕ
    → List (MiddlewareInfo S) × List ℕ
add_each [] (heap, list) = (heap, list)
add_each (f ∷ fs) (heap, list) = add_each fs (add_middleware f heap list)

add_each-Linked :
    {S : Type 0} (fs gs : List (Middleware S)) (heap : List (MiddlewareInfo S)) (list : List ℕ)
    → Linked heap list gs
    → Linked (add_each fs (heap, list)).0 (add_each fs (heap, list)).1 (gs ++ fs)
unfolding add_middleware
add_each-Linked [] gs heap list l = subst (Linked heap list) (sym (append-nil gs)) l
add_each-Linked (f ∷ fs) gs heap list l =
    subst (Linked (add_each (f ∷ fs) (heap, list)).0 (add_each (f ∷ fs) (heap, list)).1)
      (append_assoc gs (f ∷ []) fs)
      (add_each-Linked fs (gs ++ f ∷ []) (grown f heap list) (list ++ length heap ∷ [])
        (grown-Linked f heap list gs l))

-- What a chain does to a new request: an empty one does nothing.
abbrev pub run_chain :
    {Body : Type 0}
    → Option (Proxied Body → Outcome (Proxied Body))
    → Proxied Body
    → Outcome (Option (Proxied Body))
run_chain none x = ok none
run_chain (some run) x = do x' ← run x; ok (some x')

module _ {Body : Type 0} (codecs : Codecs Body) where
  dispatch-Linked :
      (heap : List (MiddlewareInfo (Proxied Body))) (list : List ℕ)
      (fs : List (Middleware (Proxied Body))) (fuel : ℕ) (pkg_data : Bytes) (pkg : EasyPackage Body)
      (client : EasyConnection) (upstream : EasyClient Body)
      → Linked heap list fs
      → length fs ≤ fuel
      → decode_with_body_data codecs pkg_data ≡ ok pkg
      → gateway_dispatch codecs heap list fuel true pkg_data client upstream
        ≡ run_chain (compose fs) (record { pkg = pkg; client = client; upstream = upstream })
  unfolding gateway_dispatch
  dispatch-Linked heap [] [] fuel d pkg client upstream l le e = rw (gateway_dispatch, e) refl
  dispatch-Linked heap [] (f ∷ fs) fuel d pkg client upstream l le e = absurd l
  dispatch-Linked heap (p ∷ ps) [] fuel d pkg client upstream l le e = absurd l
  dispatch-Linked heap (p ∷ ps) (f ∷ fs) fuel d pkg client upstream l le e =
      let c = call-Linked heap (p ∷ ps) (f ∷ fs) fuel l le in rw (gateway_dispatch, e) (rw c refl)

  -- A gateway to which middlewares were added, one after the other, runs on a package that it can
  -- decode all of them in that order, each with the rest as its next; with none it does nothing.
  pub gateway-compose :
      (fs : List (Middleware (Proxied Body))) (fuel : ℕ) (pkg_data : Bytes) (pkg : EasyPackage Body)
      (client : EasyConnection) (upstream : EasyClient Body)
      → length fs ≤ fuel
      → decode_with_body_data codecs pkg_data ≡ ok pkg
      → (let (heap, list) = add_each fs ([], []) in
          gateway_dispatch codecs heap list fuel true pkg_data client upstream)
        ≡ run_chain (compose fs) (record { pkg = pkg; client = client; upstream = upstream })
  gateway-compose fs fuel d pkg client upstream le e =
      dispatch-Linked (add_each fs ([], [])).0 (add_each fs ([], [])).1 fs fuel d pkg client
        upstream (add_each-Linked fs [] [] [] tt) le e
