-- ===== src/ServiceContext/Touches.antt =====
-- What one turn of a goroutine, or a lease that runs out, does to the node of its service in etcd.
use easycall.Base.{
  ℕ, ◌≡◌, ◌≢◌, refl, ◌∙◌, Bytes, Bool, true, false, none, some, Option, List, Outcome, ok, err,
  panic,
}
use easycall.Base.Int.{ℤ}
use easycall.Package.{Codecs}
use easycall.Service.{Exchange}
use easycall.ServiceRegister.{Etcd, Host, ServiceRegister, node_key, new_service_register}
use easycall.ServiceRegister.Ends.{IsEtcd, Ends, register-Ends}
use easycall.ServiceContext.{
  ServiceInfo, ServiceContext, Place, created, failed, crashed, handled, listening, connected,
  serving, lapsed, Outside, go_on, run_out, after_register, after_renewal, after_alive,
  unless_error, node_of,
}

abbrev pub is_serving : Place → Bool
is_serving (serving list sr) = true
is_serving _ = false

module _ {E : Type 0} (etcd : Etcd E) (law : IsEtcd etcd) where
  -- Prolonging a lease changes no value.
  abbrev pub IsKept : Type 0
  IsKept =
      (l : ℕ) (e : E) (j : Bytes) → law.content (etcd.keep_alive_once l e).0 j ≡ law.content e j

  -- What etcd deletes since a lease has run out is under the key of that node.
  abbrev pub IsExpiry : (Bytes → E → E) → Type 0
  IsExpiry expire =
      (k : Bytes) (e : E) (j : Bytes) → k ≢ j → law.content (expire k e) j ≡ law.content e j

module _ {E Svc : Type 0} (etcd : Etcd E) (law : IsEtcd etcd) (host : Host) where
  abbrev pub key_of : ServiceInfo Svc → Bytes
  key_of info = node_key info.name host.local_ip info.port

  -- Under the key of the service stands what the encoder made of its node at some time.
  abbrev pub Stands : ServiceInfo Svc → E → Type 0
  Stands info e =
      (t : ℤ) × (d : Bytes) × (host.marshal host.local_ip info.port info.weight t ≡ ok d)
      × (law.content e (key_of info) ≡ some d)

  -- What one call of the goroutine of a service does to etcd.
  pub record Touches (info : ServiceInfo Svc) (e : E) (out : E × Place × ℕ) : Type 0 where
    pub stands : is_serving out.1 ≡ true → Stands info out.0
    pub others : (j : Bytes) → key_of info ≢ j → law.content out.0 j ≡ law.content e j

  unless_error-Touches :
      (info : ServiceInfo Svc) (o : Option Bytes) (place : Place) (e : E)
      → is_serving place ≡ false
      → Touches info e (unless_error o place e)
  unless_error-Touches info none place e n = record {
    stands = λ y. absurd (cc);
    others = λ j ne. refl;
  }
  unless_error-Touches info (some m) place e n = record {
    stands = λ y. absurd (cc);
    others = λ j ne. refl;
  }

  after_register-Touches :
      (info : ServiceInfo Svc) (now : ℤ) (list : List ℕ) (e : E) (sr : ServiceRegister)
      (out : ServiceRegister × E × Outcome (Unit {0}))
      → Ends etcd law
          (record host { now = now })
          (record { name = info.name; port = info.port; weight = info.weight })
          sr
          e
          out
      → Touches info e (after_register list out)
  after_register-Touches info now list e sr0 (sr, e', ok u) h = record {
    stands = λ y. (now, h.node_data, h.encoded, h.stored);
    others = h.others;
  }
  after_register-Touches info now list e sr0 (sr, e', err m) (a, b, same) = record {
    stands = λ y. absurd (cc);
    others = same;
  }
  after_register-Touches info now list e sr0 (sr, e', panic) (a, b, same) = record {
    stands = λ y. absurd (cc);
    others = same;
  }

  after_renewal-Touches :
      (info : ServiceInfo Svc) (now : ℤ) (list : List ℕ) (e : E) (sr : ServiceRegister)
      (out : ServiceRegister × E × Outcome (Unit {0}))
      → Ends etcd law
          (record host { now = now })
          (record { name = info.name; port = info.port; weight = info.weight })
          sr
          e
          out
      → Touches info e (after_renewal list out)
  after_renewal-Touches info now list e sr0 (sr, e', ok u) h = record {
    stands = λ y. (now, h.node_data, h.encoded, h.stored);
    others = h.others;
  }
  after_renewal-Touches info now list e sr0 (sr, e', err m) (a, b, same) = record {
    stands = λ y. absurd (cc);
    others = same;
  }
  after_renewal-Touches info now list e sr0 (sr, e', panic) (a, b, same) = record {
    stands = λ y. absurd (cc);
    others = same;
  }

  module _ {Body : Type 0} (codecs : Codecs Body) (empty : Body)
      (methods : Svc → Bytes → Option (Exchange Body → Outcome (Exchange Body)))
      (svc : ServiceContext Svc Body) where
    -- A tick; `KeepAliveOnce` changes no value.
    after_alive-Touches :
        (w : Outside) (info : ServiceInfo Svc) (list : List ℕ) (sr : ServiceRegister)
        (place : Place) (e : E) (out : E × Outcome (Unit {0}))
        → ((j : Bytes) → law.content out.0 j ≡ law.content e j)
        → (is_serving place ≡ true → Stands info e)
        → Touches info e (after_alive etcd host codecs empty methods svc w info list sr place out)
    after_alive-Touches w info list sr place e (e', ok u) same k = record {
      stands = λ y. let (t, d, enc, at) = k y in (t, d, enc, same (key_of info) ∙ at);
      others = λ j ne. same j;
    }
    after_alive-Touches w info list sr place e (e', err m) same k =
        let node = node_of etcd host codecs empty methods svc info in
        let touches =
          after_renewal-Touches info w.now list e' sr _
            (register-Ends etcd law (record host { now = w.now }) node sr e') in
        record { stands = touches.stands; others = λ j ne. touches.others j ne ∙ same j }
    after_alive-Touches w info list sr place e (e', panic) same k = record {
      stands = λ y. absurd (cc);
      others = λ j ne. same j;
    }

    pub go_on-Touches :
        (w : Outside) (info : ServiceInfo Svc) (place : Place) (e : E)
        → IsKept etcd law
        → (is_serving place ≡ true → Stands info e)
        → Touches info e (go_on etcd host codecs empty methods svc w info place e)
    unfolding go_on
    go_on-Touches w info created e kept k = record { stands = k; others = λ j ne. refl }
    go_on-Touches w info failed e kept k = record { stands = k; others = λ j ne. refl }
    go_on-Touches w info crashed e kept k = record { stands = k; others = λ j ne. refl }
    go_on-Touches w info (handled list) e kept k =
        unless_error-Touches info w.server_error (listening list) e refl
    go_on-Touches w info (listening list) e kept k =
        unless_error-Touches info w.register_error (connected list) e refl
    go_on-Touches w info (connected list) e kept k =
        after_register-Touches info w.now list e new_service_register _ (
          register-Ends etcd law (record host { now = w.now })
            (node_of etcd host codecs empty methods svc info) new_service_register e)
    go_on-Touches w info (serving list sr) e kept k =
        after_alive-Touches w info list sr (serving list sr) e _ (kept sr.lease_id e) k
    go_on-Touches w info (lapsed list sr) e kept k =
        after_alive-Touches w info list sr (lapsed list sr) e _ (kept sr.lease_id e) k

    pub run_out-Touches :
        (expire : Bytes → E → E) (info : ServiceInfo Svc) (place : Place) (e : E)
        → IsExpiry etcd law expire
        → Touches info e (run_out etcd host codecs empty methods svc expire info place e)
    unfolding run_out
    run_out-Touches expire info created e gone = record {
      stands = λ y. absurd (cc);
      others = gone (key_of info) e;
    }
    run_out-Touches expire info failed e gone = record {
      stands = λ y. absurd (cc);
      others = gone (key_of info) e;
    }
    run_out-Touches expire info crashed e gone = record {
      stands = λ y. absurd (cc);
      others = gone (key_of info) e;
    }
    run_out-Touches expire info (handled l) e gone = record {
      stands = λ y. absurd (cc);
      others = gone (key_of info) e;
    }
    run_out-Touches expire info (listening l) e gone = record {
      stands = λ y. absurd (cc);
      others = gone (key_of info) e;
    }
    run_out-Touches expire info (connected l) e gone = record {
      stands = λ y. absurd (cc);
      others = gone (key_of info) e;
    }
    run_out-Touches expire info (serving l sr) e gone = record {
      stands = λ y. absurd (cc);
      others = gone (key_of info) e;
    }
    run_out-Touches expire info (lapsed l sr) e gone = record {
      stands = λ y. absurd (cc);
      others = gone (key_of info) e;
    }
