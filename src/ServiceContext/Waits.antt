-- ===== src/ServiceContext/Waits.antt =====
-- When `StartAndWait` returns.
use easycall.Base.{
  ℕ, zero, suc, ◌+◌, ◌≤◌, ◌≡◌, ◌↔◌, refl, ap, ◌∙◌, Bytes, true, none, some, Option, List, [], ◌∷◌,
  get_elem?, set, length, length-set, map, ==_iff, arith, Outcome, ok, err, panic,
}
use easycall.Package.{Codecs}
use easycall.Service.{Exchange}
use easycall.ServiceRegister.{Etcd, Host, ServiceRegister}
use easycall.ServiceContext.{
  ServiceInfo, ServiceContext, Place, created, failed, crashed, handled, listening, connected,
  serving, lapsed, Outside, Running, go_on, run_out, move, turn, Reach, started, next, expired,
  after_register, after_renewal, after_alive, unless_error, wait_returns,
}

-- 1 for a goroutine that has failed.
abbrev fails : Place → ℕ
fails failed = 1
fails _ = 0

abbrev pub failures : List Place → ℕ
failures [] = 0
failures (p ∷ ps) = fails p + failures ps

failures-set :
    (ps : List Place) (i : ℕ) (p q : Place)
    → get_elem? ps i ≡ some p
    → failures (set ps i q) + fails p ≡ failures ps + fails q
failures-set [] i p q e = absurd (cc)
failures-set (x ∷ ps) zero p q e =
    let same : x ≡ p = cc in let f : fails x ≡ fails p = ap fails same in omega (arith, f)
failures-set (x ∷ ps) (suc i) p q e = omega (arith, failures-set ps i p q e)

failures_le : (ps : List Place) → failures ps ≤ length ps
failures_le [] = omega arith
failures_le (created ∷ ps) = omega (arith, failures_le ps)
failures_le (failed ∷ ps) = omega (arith, failures_le ps)
failures_le (crashed ∷ ps) = omega (arith, failures_le ps)
failures_le (handled l ∷ ps) = omega (arith, failures_le ps)
failures_le (listening l ∷ ps) = omega (arith, failures_le ps)
failures_le (connected l ∷ ps) = omega (arith, failures_le ps)
failures_le (serving l sr ∷ ps) = omega (arith, failures_le ps)
failures_le (lapsed l sr ∷ ps) = omega (arith, failures_le ps)

all_failed :
    (ps : List Place)
    → failures ps ≡ length ps
    → (i : ℕ) (p : Place) → get_elem? ps i ≡ some p
    → p ≡ failed
all_failed [] e i p h = absurd (cc)
all_failed (failed ∷ ps) e zero p h = cc
all_failed (failed ∷ ps) e (suc i) p h = all_failed ps (omega (arith, e)) i p h
all_failed (created ∷ ps) e i p h = absurd (omega (arith, failures_le ps, e))
all_failed (crashed ∷ ps) e i p h = absurd (omega (arith, failures_le ps, e))
all_failed (handled l ∷ ps) e i p h = absurd (omega (arith, failures_le ps, e))
all_failed (listening l ∷ ps) e i p h = absurd (omega (arith, failures_le ps, e))
all_failed (connected l ∷ ps) e i p h = absurd (omega (arith, failures_le ps, e))
all_failed (serving l sr ∷ ps) e i p h = absurd (omega (arith, failures_le ps, e))
all_failed (lapsed l sr ∷ ps) e i p h = absurd (omega (arith, failures_le ps, e))

failures_all :
    (ps : List Place)
    → ((i : ℕ) (p : Place) → get_elem? ps i ≡ some p → p ≡ failed)
    → failures ps ≡ length ps
failures_all [] h = refl
failures_all (p ∷ ps) h =
    let f : fails p ≡ 1 = ap fails (h 0 p refl) in
    omega (arith, f, failures_all ps (λ i. h (suc i)))

module _ {E : Type 0} where
  -- `wg.Done` is called exactly where a goroutine fails.
  abbrev Counts : Place → E × Place × ℕ → Type 0
  Counts place out = fails out.1 ≡ fails place + out.2

  unless_error-Counts :
      (o : Option Bytes) (place place' : Place) (e : E)
      → fails place ≡ 0
      → fails place' ≡ 0
      → Counts place (unless_error o place' e)
  unless_error-Counts none place place' e z z' = omega (arith, z, z')
  unless_error-Counts (some m) place place' e z z' = omega (arith, z)

  after_register-Counts :
      (list : List ℕ) (out : ServiceRegister × E × Outcome (Unit {0}))
      → Counts (connected list) (after_register list out)
  after_register-Counts list (sr, e, ok u) = refl
  after_register-Counts list (sr, e, err m) = refl
  after_register-Counts list (sr, e, panic) = refl

  after_renewal-Counts :
      (list : List ℕ) (place : Place) (out : ServiceRegister × E × Outcome (Unit {0}))
      → fails place ≡ 0
      → Counts place (after_renewal list out)
  after_renewal-Counts list place (sr, e, ok u) z = omega (arith, z)
  after_renewal-Counts list place (sr, e, err m) z = omega (arith, z)
  after_renewal-Counts list place (sr, e, panic) z = omega (arith, z)

module _ {E Svc Body : Type 0} (etcd : Etcd E) (host : Host) (codecs : Codecs Body) (empty : Body)
    (methods : Svc → Bytes → Option (Exchange Body → Outcome (Exchange Body)))
    (svc : ServiceContext Svc Body) where
  after_alive-Counts :
      (w : Outside) (info : ServiceInfo Svc) (list : List ℕ) (sr : ServiceRegister) (place : Place)
      (out : E × Outcome (Unit {0}))
      → fails place ≡ 0
      → Counts place (after_alive etcd host codecs empty methods svc w info list sr place out)
  after_alive-Counts w info list sr place (e, ok u) z = omega arith
  after_alive-Counts w info list sr place (e, err m) z = after_renewal-Counts list place _ z
  after_alive-Counts w info list sr place (e, panic) z = omega (arith, z)

  go_on-Counts :
      (w : Outside) (info : ServiceInfo Svc) (place : Place) (e : E)
      → Counts place (go_on etcd host codecs empty methods svc w info place e)
  unfolding go_on
  go_on-Counts w info created e = refl
  go_on-Counts w info failed e = refl
  go_on-Counts w info crashed e = refl
  go_on-Counts w info (handled list) e =
      unless_error-Counts w.server_error (handled list) (listening list) e refl refl
  go_on-Counts w info (listening list) e =
      unless_error-Counts w.register_error (listening list) (connected list) e refl refl
  go_on-Counts w info (connected list) e = after_register-Counts list _
  go_on-Counts w info (serving list sr) e =
      after_alive-Counts w info list sr (serving list sr) _ refl
  go_on-Counts w info (lapsed list sr) e = after_alive-Counts w info list sr (lapsed list sr) _ refl

  run_out-Counts :
      (expire : Bytes → E → E) (info : ServiceInfo Svc) (place : Place) (e : E)
      → Counts place (run_out etcd host codecs empty methods svc expire info place e)
  unfolding run_out
  run_out-Counts expire info created e = refl
  run_out-Counts expire info failed e = refl
  run_out-Counts expire info crashed e = refl
  run_out-Counts expire info (handled list) e = refl
  run_out-Counts expire info (listening list) e = refl
  run_out-Counts expire info (connected list) e = refl
  run_out-Counts expire info (serving list sr) e = refl
  run_out-Counts expire info (lapsed list sr) e = refl

  abbrev IsTallied : Running E Body → Type 0
  IsTallied r = (r.done ≡ failures r.places) × (length r.places ≡ length svc.service_list)

  move-IsTallied :
      (i : ℕ) (place : Place) (out : E × Place × ℕ) (r : Running E Body)
      → get_elem? r.places i ≡ some place
      → Counts place out
      → IsTallied r
      → IsTallied (move etcd host codecs empty methods svc i out r)
  move-IsTallied i place (e, place', k) r p c (d, n) = (
    omega (arith, d, c, failures-set r.places i place place' p),
    length-set r.places i place' ∙ n,
  )

  later-IsTallied :
      (i : ℕ) (info : ServiceInfo Svc) (place : Place) (w : Outside) (r : Running E Body)
      → get_elem? r.places i ≡ some place
      → IsTallied r
      → IsTallied (
          move etcd host codecs empty methods svc i
            (go_on etcd host codecs empty methods svc w info place r.store)
            r)
  later-IsTallied i info place w r p h =
      move-IsTallied i place (go_on etcd host codecs empty methods svc w info place r.store) r p
        (go_on-Counts w info place r.store) h

  turn-IsTallied :
      (i : ℕ) (info : ServiceInfo Svc) (place : Place) (w : Outside) (r : Running E Body)
      → get_elem? r.places i ≡ some place
      → IsTallied r
      → IsTallied (turn etcd host codecs empty methods svc i w info place r)
  unfolding turn
  turn-IsTallied i info created w r p (d, n) =
      (omega (arith, d, failures-set r.places i created (handled _) p), length-set r.places i _ ∙ n)
  turn-IsTallied i info failed w r p h = later-IsTallied i info failed w r p h
  turn-IsTallied i info crashed w r p h = later-IsTallied i info crashed w r p h
  turn-IsTallied i info (handled l) w r p h = later-IsTallied i info (handled l) w r p h
  turn-IsTallied i info (listening l) w r p h = later-IsTallied i info (listening l) w r p h
  turn-IsTallied i info (connected l) w r p h = later-IsTallied i info (connected l) w r p h
  turn-IsTallied i info (serving l sr) w r p h = later-IsTallied i info (serving l sr) w r p h
  turn-IsTallied i info (lapsed l sr) w r p h = later-IsTallied i info (lapsed l sr) w r p h

  start_tallied :
      {A : Type 0} (xs : List A)
      → (0 ≡ failures (map (λ x. created) xs)) × (length (map (λ x. created) xs) ≡ length xs)
  start_tallied [] = (refl, refl)
  start_tallied (x ∷ xs) = let (a, b) = start_tallied xs in (omega (arith, a), ap suc b)

  Reach-IsTallied :
      (expire : Bytes → E → E) (e : E) (r : Running E Body)
      → Reach etcd host codecs empty methods svc expire e r
      → IsTallied r
  Reach-IsTallied expire e _ started = start_tallied svc.service_list
  Reach-IsTallied expire e _ (next reach i name info place w s p c) =
      turn-IsTallied i info place w _ p (Reach-IsTallied expire e _ reach)
  Reach-IsTallied expire e _ (expired {r} reach i name info place s p c) =
      let out = run_out etcd host codecs empty methods svc expire info place r.store in
      move-IsTallied i place out r p (run_out-Counts expire info place r.store)
        (Reach-IsTallied expire e r reach)

  -- However the goroutines come and whatever errors they get, `StartAndWait` returns exactly when
  -- the goroutine of every service has failed: while one of them has not, the program goes on.
  pub wait_all_failed :
      (expire : Bytes → E → E) (e : E) (r : Running E Body)
      → Reach etcd host codecs empty methods svc expire e r
      → (wait_returns etcd host codecs empty methods svc r ≡ true)
        ↔ ((i : ℕ) (place : Place) → get_elem? r.places i ≡ some place → place ≡ failed)
  wait_all_failed expire e r reach =
      let (d, n) = Reach-IsTallied expire e r reach in
      (
        λ y.
            let same = (==_iff r.done (length svc.service_list)).0 y in
            all_failed r.places (omega (arith, d, n, same)),
        λ h.
            let all = failures_all r.places h in
            (==_iff r.done (length svc.service_list)).1 (omega (arith, d, n, all)),
      )
