-- ===== src/ServiceContext/Nodes.antt =====
-- What stands in etcd while the services of a context run.
use easycall.Base.{
  ℕ, ◌≡◌, refl, ap, subst, ◌∙◌, Bytes, true, some, Option, List, get_elem?, get_elem?-set_cases,
  inl, inr, Outcome,
}
use easycall.Package.{Codecs}
use easycall.Service.{Exchange}
use easycall.ServiceRegister.{Etcd, Host, ServiceRegister}
use easycall.ServiceRegister.Ends.{IsEtcd}
use easycall.ServiceRegister.Keys.{node_key_inj}
use easycall.ServiceContext.{
  ServiceInfo, ServiceContext, Place, created, failed, crashed, handled, listening, connected,
  serving, lapsed, Outside, Running, go_on, move, turn, start, Reach, started, next, expired,
}
use easycall.ServiceContext.Handlers.{all_created}
use easycall.ServiceContext.Names.{IsNamed, names_apart}
use easycall.ServiceContext.Touches.{
  is_serving, key_of, Stands, Touches, IsKept, IsExpiry, go_on-Touches, run_out-Touches,
}

module _ {E Svc : Type 0} (etcd : Etcd E) (law : IsEtcd etcd) (host : Host) where
  module _ {Body : Type 0} (codecs : Codecs Body) (empty : Body)
      (methods : Svc → Bytes → Option (Exchange Body → Outcome (Exchange Body)))
      (svc : ServiceContext Svc Body) where
    -- Every service that is registered stands in etcd.
    abbrev AllStand : Running E Body → Type 0
    AllStand r =
        (i : ℕ) (name : Bytes) (info : ServiceInfo Svc) (place : Place)
        → get_elem? svc.service_list i ≡ some (name, info)
        → get_elem? r.places i ≡ some place
        → is_serving place ≡ true
        → Stands etcd law host info r.store

    move-AllStand :
        (i : ℕ) (name : Bytes) (info : ServiceInfo Svc) (place : Place) (out : E × Place × ℕ)
        (r : Running E Body)
        → IsNamed svc.service_list
        → get_elem? svc.service_list i ≡ some (name, info)
        → get_elem? r.places i ≡ some place
        → Touches etcd law host info r.store out
        → AllStand r
        → AllStand (move etcd host codecs empty methods svc i out r)
    move-AllStand i name info place out r named s p touches h j name' info' place' t u y =
        elim (get_elem?-set_cases r.places i j place out.1 place' p u) [
          | inl (here, new) ↦
              let same : info ≡ info' = cc in
              subst (λ x. Stands etcd law host x out.0) same
                (touches.stands (ap is_serving new ∙ y))
          | inr (ne, old) ↦
              let (now, d, enc, at) = h j name' info' place' t old y in
              let apart = names_apart svc.service_list i j name name' info info' named s t ne in
              (
                now,
                d,
                enc,
                touches.others (key_of etcd law host info') (λ e.
                      apart
                        (node_key_inj info.name info'.name host.local_ip info.port info'.port e))
                    ∙ at,
              )
        ]

    later-AllStand :
        (i : ℕ) (name : Bytes) (info : ServiceInfo Svc) (place : Place) (w : Outside)
        (r : Running E Body)
        → IsKept etcd law
        → IsNamed svc.service_list
        → get_elem? svc.service_list i ≡ some (name, info)
        → get_elem? r.places i ≡ some place
        → AllStand r
        → AllStand (
            move etcd host codecs empty methods svc i
              (go_on etcd host codecs empty methods svc w info place r.store)
              r)
    later-AllStand i name info place w r kept named s p h =
        move-AllStand i name info place
          (go_on etcd host codecs empty methods svc w info place r.store) r named s p
          (go_on-Touches etcd law host codecs empty methods svc w info place r.store kept
            (h i name info place s p))
          h

    turn-AllStand :
        (i : ℕ) (name : Bytes) (info : ServiceInfo Svc) (place : Place) (w : Outside)
        (r : Running E Body)
        → IsKept etcd law
        → IsNamed svc.service_list
        → get_elem? svc.service_list i ≡ some (name, info)
        → get_elem? r.places i ≡ some place
        → AllStand r
        → AllStand (turn etcd host codecs empty methods svc i w info place r)
    unfolding turn
    turn-AllStand i name info created w r kept named s p h = λ j name' info' place' t u y.
        elim (get_elem?-set_cases r.places i j created (handled _) place' p u) [
          | inl (here, new) ↦ absurd (cc)
          | inr (ne, old) ↦ h j name' info' place' t old y
        ]
    turn-AllStand i name info failed w r kept named s p h =
        later-AllStand i name info failed w r kept named s p h
    turn-AllStand i name info crashed w r kept named s p h =
        later-AllStand i name info crashed w r kept named s p h
    turn-AllStand i name info (handled l) w r kept named s p h =
        later-AllStand i name info (handled l) w r kept named s p h
    turn-AllStand i name info (listening l) w r kept named s p h =
        later-AllStand i name info (listening l) w r kept named s p h
    turn-AllStand i name info (connected l) w r kept named s p h =
        later-AllStand i name info (connected l) w r kept named s p h
    turn-AllStand i name info (serving l sr) w r kept named s p h =
        later-AllStand i name info (serving l sr) w r kept named s p h
    turn-AllStand i name info (lapsed l sr) w r kept named s p h =
        later-AllStand i name info (lapsed l sr) w r kept named s p h

    start-AllStand : (e : E) → AllStand (start etcd host codecs empty methods svc e)
    start-AllStand e i name info place s p y =
        let none_serves = all_created svc.service_list i place p in absurd (cc)

    Reach-AllStand :
        (expire : Bytes → E → E) (e : E) (r : Running E Body)
        → IsKept etcd law
        → IsExpiry etcd law expire
        → IsNamed svc.service_list
        → Reach etcd host codecs empty methods svc expire e r
        → AllStand r
    Reach-AllStand expire e _ kept gone named started = start-AllStand e
    Reach-AllStand expire e _ kept gone named (next reach i name info place w s p c) =
        turn-AllStand i name info place w _ kept named s p
          (Reach-AllStand expire e _ kept gone named reach)
    Reach-AllStand expire e _ kept gone named (expired {r} reach i name info place s p c) =
        move-AllStand i name info place _ r named s p
          (run_out-Touches etcd law host codecs empty methods svc expire info place r.store gone)
          (Reach-AllStand expire e _ kept gone named reach)

    -- Let each service stand in the context under its name, each under one of its own, as
    -- `CreateService` puts them. Let `KeepAliveOnce` change no value in etcd, and a lease that runs out
    -- only what is under the key of its node; let nobody else write under these keys, and no
    -- signal have come. However the goroutines, the ticks and the leases that run out come, and
    -- whatever errors the calls get: while a service is registered, that is, its last `Register`
    -- succeeded and no lease of its node has run out since, what the encoder made of its node stands
    -- in etcd under its key. Neither its own ticks nor anything that the other services do or lose
    -- takes it away.
    pub serving-Stands :
        (expire : Bytes → E → E) (e : E) (r : Running E Body) (i : ℕ) (name : Bytes)
        (info : ServiceInfo Svc) (list : List ℕ) (sr : ServiceRegister)
        → IsKept etcd law
        → IsExpiry etcd law expire
        → IsNamed svc.service_list
        → Reach etcd host codecs empty methods svc expire e r
        → get_elem? svc.service_list i ≡ some (name, info)
        → get_elem? r.places i ≡ some (serving list sr)
        → Stands etcd law host info r.store
    serving-Stands expire e r i name info list sr kept gone named reach s p =
        Reach-AllStand expire e r kept gone named reach i name info (serving list sr) s p refl
