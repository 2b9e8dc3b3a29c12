-- ===== src/ServiceRegister/Leases.antt =====
-- The leases of a register that has two services.
use easycall.Base.{◌≡◌, refl, subst, ◌∙◌, [], ◌∷◌, ok}
use easycall.ServiceRegister.{
  Etcd, NodeInfo, ServiceRegister, Host, new_service_register, node_key, register, heartbeat,
}
use easycall.ServiceRegister.Ends.{IsEtcd, Ends, register-Ends}

module _ {E : Type 0} (etcd : Etcd E) (law : IsEtcd etcd) (host : Host) where
  -- Let two registrations of one new register succeed, and every later call of `KeepAliveOnce` for
  -- its lease at this tick too. Then there is one goroutine, that of the first service; the lease is
  -- the one that was granted to the second; and a tick keeps that lease alive and does nothing else.
  pub second_lease_only :
      (a b : NodeInfo) (sr sr' : ServiceRegister) (e e' e'' tick : E)
      → register etcd host a new_service_register e ≡ (sr, e', ok tt)
      → register etcd host b sr e' ≡ (sr', e'', ok tt)
      → (etcd.keep_alive_once sr'.lease_id tick).1 ≡ ok tt
      → (sr'.heartbeats ≡ a ∷ [])
        × ((etcd.grant (etcd.delete_key (node_key b.name host.local_ip b.port) e').0).1
            ≡ ok sr'.lease_id)
        × (heartbeat etcd host a sr' tick ≡ (sr', (etcd.keep_alive_once sr'.lease_id tick).0))
  unfolding heartbeat
  second_lease_only a b sr sr' e e' e'' tick r s k =
      let first =
        subst (Ends etcd law host a new_service_register e) r
          (register-Ends etcd law host a new_service_register e) in
      let second = subst (Ends etcd law host b sr e') s (register-Ends etcd law host b sr e') in
      ((rw first.marked at second.beating) ∙ first.beating, second.leased, rw (heartbeat, k) refl)
