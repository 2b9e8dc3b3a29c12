-- ===== src/ServiceContext/Chains.antt =====
-- The handlers of the services that `StartAndWait` starts, in any order.
use easycall.Base.{
  ℕ, ◌≤◌, ◌≡◌, ◌≢◌, refl, sym, ap, subst, ◌∙◌, Bytes, Bool, true, false, none, some, Option, List,
  [], ◌∷◌, ◌++◌, get_elem?, get_elem?-set_cases, length, bytes_key, has, inl, inr, Outcome, ok, err,
  panic,
}
use easycall.Package.{Codecs}
use easycall.Middleware.{Middleware, MiddlewareInfo, info, list_of, first}
use easycall.Middleware.Chain.{Linked}
use easycall.Service.{Exchange}
use easycall.ServiceRegister.{Etcd, Host, ServiceRegister}
use easycall.ServiceContext.{
  ServiceInfo, ServiceContext, Place, created, failed, crashed, handled, listening, connected,
  serving, lapsed, Outside, Running, go_on, run_out, move, final_of, after_register, after_renewal,
  after_alive, unless_error,
}

-- The slice of a handler that was made.
abbrev pub handler_of : Place → Option (List ℕ)
handler_of (handled list) = some list
handler_of (listening list) = some list
handler_of (connected list) = some list
handler_of (serving list sr) = some list
handler_of (lapsed list sr) = some list
handler_of _ = none

abbrev pub is_created : Place → Bool
is_created created = true
is_created _ = false

-- A handler that is held begins where this chain does.
abbrev pub Heads : List ℕ → Place → Type 0
Heads ps place = (list : List ℕ) → handler_of place ≡ some list → first list ≡ first ps

module _ {E Svc Body : Type 0} (etcd : Etcd E) (host : Host) (codecs : Codecs Body) (empty : Body)
    (methods : Svc → Bytes → Option (Exchange Body → Outcome (Exchange Body)))
    (svc : ServiceContext Svc Body) where
  abbrev pub final_for : ServiceInfo Svc → Middleware (Exchange Body)
  final_for info = final_of etcd host codecs empty methods svc info

  -- What a chain holds before and after its handler was made.
  abbrev pub runs :
      (Bytes → List (Middleware (Exchange Body)))
      → ServiceInfo Svc
      → Bool
      → List (Middleware (Exchange Body))
  runs spec info true = spec info.name
  runs spec info false = spec info.name ++ final_for info ∷ []

  -- The chain that the pointers of one service lead through.
  pub record Follows (spec : Bytes → List (Middleware (Exchange Body))) (info : ServiceInfo Svc)
      (place : Place) (heap : List (MiddlewareInfo (Exchange Body))) (ps : List ℕ) : Type 0 where
    pub linked : Linked heap ps (runs spec info (is_created place))
    pub whole : is_created place ≡ true → ps ≡ list_of info.name svc.middlewares
    pub heads : Heads ps place

  pub record IsChained (spec : Bytes → List (Middleware (Exchange Body))) (r : Running E Body)
      : Type 0 where
    pub chain : ℕ → List ℕ
    pub follows :
        (i : ℕ) (name : Bytes) (info : ServiceInfo Svc) (place : Place)
        → get_elem? svc.service_list i ≡ some (name, info)
        → get_elem? r.places i ≡ some place
        → Follows spec info place r.heap (chain i)
    pub apart : (i j q : ℕ) → i ≢ j → has q (chain i) ≡ true → has q (chain j) ≡ false
    pub bounded : (i q : ℕ) → length r.heap ≤ q → has q (chain i) ≡ false

  -- A call after the handler was made keeps its slice or drops it.
  abbrev pub Keeps : Place → E × Place × ℕ → Type 0
  Keeps place out =
      ((list : List ℕ) → handler_of out.1 ≡ some list → handler_of place ≡ some list)
      × (is_created out.1 ≡ is_created place)

  unless_error-Keeps :
      (o : Option Bytes) (place place' : Place) (e : E)
      → ((list : List ℕ) → handler_of place' ≡ some list → handler_of place ≡ some list)
      → is_created place' ≡ is_created place
      → is_created place ≡ false
      → Keeps place (unless_error o place' e)
  unless_error-Keeps none place place' e k c f = (k, c)
  unless_error-Keeps (some m) place place' e k c f = (λ list h. absurd (cc), sym f)

  after_register-Keeps :
      (list : List ℕ) (out : ServiceRegister × E × Outcome (Unit {0}))
      → Keeps (connected list) (after_register list out)
  after_register-Keeps list (sr, e, ok u) = (λ l h. h, refl)
  after_register-Keeps list (sr, e, err m) = (λ l h. absurd (cc), refl)
  after_register-Keeps list (sr, e, panic) = (λ l h. absurd (cc), refl)

  after_renewal-Keeps :
      (list : List ℕ) (place : Place) (out : ServiceRegister × E × Outcome (Unit {0}))
      → handler_of place ≡ some list
      → is_created place ≡ false
      → Keeps place (after_renewal list out)
  after_renewal-Keeps list place (sr, e, ok u) h c = (λ l k. h ∙ k, sym c)
  after_renewal-Keeps list place (sr, e, err m) h c = (λ l k. h ∙ k, sym c)
  after_renewal-Keeps list place (sr, e, panic) h c = (λ l k. absurd (cc), sym c)

  after_alive-Keeps :
      (w : Outside) (info : ServiceInfo Svc) (list : List ℕ) (sr : ServiceRegister) (place : Place)
      (out : E × Outcome (Unit {0}))
      → handler_of place ≡ some list
      → is_created place ≡ false
      → Keeps place (after_alive etcd host codecs empty methods svc w info list sr place out)
  after_alive-Keeps w info list sr place (e, ok u) h c = (λ l k. k, refl)
  after_alive-Keeps w info list sr place (e, err m) h c = after_renewal-Keeps list place _ h c
  after_alive-Keeps w info list sr place (e, panic) h c = (λ l k. absurd (cc), sym c)

  pub go_on-Keeps :
      (w : Outside) (info : ServiceInfo Svc) (place : Place) (e : E)
      → Keeps place (go_on etcd host codecs empty methods svc w info place e)
  unfolding go_on
  go_on-Keeps w info created e = (λ l h. h, refl)
  go_on-Keeps w info failed e = (λ l h. h, refl)
  go_on-Keeps w info crashed e = (λ l h. h, refl)
  go_on-Keeps w info (handled list) e =
      unless_error-Keeps w.server_error (handled list) (listening list) e (λ l h. h) refl refl
  go_on-Keeps w info (listening list) e =
      unless_error-Keeps w.register_error (listening list) (connected list) e (λ l h. h) refl refl
  go_on-Keeps w info (connected list) e = after_register-Keeps list _
  go_on-Keeps w info (serving list sr) e =
      after_alive-Keeps w info list sr (serving list sr) _ refl refl
  go_on-Keeps w info (lapsed list sr) e =
      after_alive-Keeps w info list sr (lapsed list sr) _ refl refl

  pub run_out-Keeps :
      (expire : Bytes → E → E) (info : ServiceInfo Svc) (place : Place) (e : E)
      → Keeps place (run_out etcd host codecs empty methods svc expire info place e)
  unfolding run_out
  run_out-Keeps expire info created e = (λ l h. h, refl)
  run_out-Keeps expire info failed e = (λ l h. h, refl)
  run_out-Keeps expire info crashed e = (λ l h. h, refl)
  run_out-Keeps expire info (handled list) e = (λ l h. h, refl)
  run_out-Keeps expire info (listening list) e = (λ l h. h, refl)
  run_out-Keeps expire info (connected list) e = (λ l h. h, refl)
  run_out-Keeps expire info (serving list sr) e = (λ l h. h, refl)
  run_out-Keeps expire info (lapsed list sr) e = (λ l h. h, refl)

  module _ (spec : Bytes → List (Middleware (Exchange Body))) where
    Follows-moved :
        (info : ServiceInfo Svc) (place place' : Place)
        (heap : List (MiddlewareInfo (Exchange Body))) (ps : List ℕ)
        → ((list : List ℕ) → handler_of place' ≡ some list → handler_of place ≡ some list)
        → is_created place' ≡ is_created place
        → Follows spec info place heap ps
        → Follows spec info place' heap ps
    Follows-moved info place place' heap ps k c f = record {
      linked = subst (λ b. Linked heap ps (runs spec info b)) (sym c) f.linked;
      whole = λ h. f.whole (sym c ∙ h);
      heads = λ list h. f.heads list (k list h);
    }

    pub move-IsChained :
        (r : Running E Body) (i : ℕ) (place : Place) (out : E × Place × ℕ)
        → get_elem? r.places i ≡ some place
        → Keeps place out
        → IsChained spec r
        → IsChained spec (move etcd host codecs empty methods svc i out r)
    move-IsChained r i place out p (kept, same) h =
        let place' = out.1 in
        record {
          chain = h.chain;
          follows = λ j name' info' q t u.
              elim (get_elem?-set_cases r.places i j place place' q p u) [
                | inl (here, new) ↦
                    subst (λ q. Follows spec info' q r.heap (h.chain j)) new
                      (Follows-moved info' place place' r.heap (h.chain j) kept same
                        (h.follows j name' info' place t (ap (get_elem? r.places) (sym here) ∙ p)))
                | inr (ne, old) ↦ h.follows j name' info' q t old
              ];
          apart = h.apart;
          bounded = h.bounded;
        }
