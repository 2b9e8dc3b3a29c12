-- ===== src/ServiceContext/Signals.antt =====
-- What the handler of a signal leaves in etcd.
use easycall.Base.{
  ℕ, zero, suc, ◌≡◌, ◌≢◌, refl, ap, subst, ◌∙◌, Bytes, Bool, false, none, some, Option, List, [],
  ◌∷◌, get_elem?, Bool-cases, inl, inr, arith, if◌then◌else◌, Outcome, ok, eq_bytes, eq_bytes_iff,
}
use easycall.Package.{Codecs}
use easycall.Service.{Exchange}
use easycall.ServiceRegister.{Etcd, Host, unregister, new_service_register}
use easycall.ServiceRegister.Ends.{IsEtcd}
use easycall.ServiceContext.{ServiceInfo, ServiceContext, unregister_all}
use easycall.ServiceContext.Touches.{key_of}

module _ {E Svc Body : Type 0} (etcd : Etcd E) (law : IsEtcd etcd) (host : Host)
    (codecs : Codecs Body) (empty : Body)
    (methods : Svc → Bytes → Option (Exchange Body → Outcome (Exchange Body)))
    (svc : ServiceContext Svc Body) (refuses : Bytes → Bool)
    (works : (k : Bytes) (e : E) → (etcd.delete_key k e).1 ≡ ok tt) where
  abbrev key_for : ServiceInfo Svc → Bytes
  key_for info = key_of etcd law host info

  -- `Unregister` of a new register, in etcd.
  abbrev gone : ServiceInfo Svc → E → E
  gone info e = (unregister etcd host info.name info.port new_service_register e).1

  gone_self : (info : ServiceInfo Svc) (e : E) → law.content (gone info e) (key_for info) ≡ none
  unfolding unregister
  gone_self info e = law.delete_self (key_for info) e (works (key_for info) e)

  gone_other :
      (info : ServiceInfo Svc) (e : E) (j : Bytes)
      → key_for info ≢ j
      → law.content (gone info e) j ≡ law.content e j
  unfolding unregister
  gone_other info e j ne = law.delete_other (key_for info) e j ne

  gone-none :
      (info : ServiceInfo Svc) (e : E) (j : Bytes)
      → law.content e j ≡ none
      → law.content (gone info e) j ≡ none
  gone-none info e j h = elim (Bool-cases (eq_bytes (key_for info) j)) [
    | inl y ↦
        subst (λ k. law.content (gone info e) k ≡ none) ((eq_bytes_iff (key_for info) j).0 y)
          (gone_self info e)
    | inr n ↦
        gone_other info e j (λ same. ground (arith, n, (eq_bytes_iff (key_for info) j).1 same)) ∙ h
  ]

  abbrev after : List (Bytes × ServiceInfo Svc) → E → E
  after list e = unregister_all etcd host codecs empty methods svc refuses list e

  after-none :
      (list : List (Bytes × ServiceInfo Svc)) (e : E) (j : Bytes)
      → law.content e j ≡ none
      → law.content (after list e) j ≡ none
  unfolding unregister_all
  after-none [] e j h = h
  after-none ((name, info) ∷ list) e j h = elim (Bool-cases (refuses name)) [
    | inl y ↦ rw (unregister_all, y) (after-none list e j h)
    | inr n ↦ rw (unregister_all, n) (after-none list (gone info e) j (gone-none info e j h))
  ]

  after_self :
      (list : List (Bytes × ServiceInfo Svc)) (e : E) (i : ℕ) (name : Bytes)
      (info : ServiceInfo Svc)
      → get_elem? list i ≡ some (name, info)
      → refuses name ≡ false
      → law.content (after list e) (key_for info) ≡ none
  unfolding unregister_all
  after_self [] e i name info h n = absurd (cc)
  after_self ((name', info') ∷ list) e zero name info h n =
      let same_name : name' ≡ name = cc in
      let same : info' ≡ info = cc in
      let n' : refuses name' ≡ false = ap refuses same_name ∙ n in
      rw (unregister_all, n')
        (after-none list (gone info' e) (key_for info)
          (subst (λ x. law.content (gone info' e) (key_for x) ≡ none) same (gone_self info' e)))
  after_self ((name', info') ∷ list) e (suc i) name info h n =
      after_self list (if refuses name' then e else gone info' e) i name info h n

  after_other :
      (list : List (Bytes × ServiceInfo Svc)) (e : E) (j : Bytes)
      → ((i : ℕ) (name : Bytes) (info : ServiceInfo Svc)
          → get_elem? list i ≡ some (name, info)
          → key_for info ≢ j)
      → law.content (after list e) j ≡ law.content e j
  unfolding unregister_all
  after_other [] e j ne = refl
  after_other ((name, info) ∷ list) e j ne =
      let rest = λ (e : E). after_other list e j (λ i. ne (suc i)) in
      elim (Bool-cases (refuses name)) [
        | inl y ↦ rw (unregister_all, y) (rest e)
        | inr n ↦
            rw (unregister_all, n) (rest (gone info e) ∙ gone_other info e j (ne 0 name info refl))
      ]

  -- Where every deletion in etcd succeeds, the handler of a signal, whatever the goroutines did
  -- before it, leaves no node of a service of the context for which it gets a register, and leaves
  -- everything as it is that stands under the key of no service of the context.
  pub signal_clears :
      (e : E) (i : ℕ) (name : Bytes) (info : ServiceInfo Svc) (j : Bytes)
      → get_elem? svc.service_list i ≡ some (name, info)
      → refuses name ≡ false
      → ((i : ℕ) (name : Bytes) (info : ServiceInfo Svc)
          → get_elem? svc.service_list i ≡ some (name, info)
          → key_for info ≢ j)
      → (law.content (after svc.service_list e) (key_for info) ≡ none)
        × (law.content (after svc.service_list e) j ≡ law.content e j)
  signal_clears e i name info j h r ne =
      (after_self svc.service_list e i name info h r, after_other svc.service_list e j ne)
