-- ===== src/ServiceRegister/Memory.antt =====
-- An etcd that holds its keys in memory, and answers every call.
use easycall.Base.{
  ok_inj, ℕ, suc, ◌+◌, ◌≡◌, refl, sym, ap, ◌∙◌, Bytes, Bool, true, false, ◌&&◌, some, List, [], ◌∷◌,
  ◌++◌, get_elem?, lookup, insert, delete, lookup-insert_self, lookup-insert_ne, lookup-delete_self,
  lookup-delete_ne, bytes_key, eq_bytes, eq_bytes_iff, ◌==◌, ==_iff, if◌then◌else◌, Bool-cases, inl,
  inr, ok,
}
use easycall.ServiceRegister.{Etcd}
use easycall.ServiceRegister.Ends.{IsEtcd}

pub record Memory : Type 0 where
  pub kvs : List (Bytes × Bytes)
  pub leases : ℕ

abbrev pub starts_with : Bytes → Bytes → Bool
starts_with [] k = true
starts_with (x ∷ p) [] = false
starts_with (x ∷ p) (y ∷ k) = x == y && starts_with p k

unfoldable pub prefix_values : Bytes → List (Bytes × Bytes) → List Bytes
prefix_values p [] = []
prefix_values p ((k, v) ∷ m) =
    let rest = prefix_values p m in if starts_with p k then v ∷ rest else rest

abbrev pub memory : Etcd Memory
memory = record {
  grant = λ e. (record e { leases = e.leases + 1 }, ok (e.leases + 1));
  put = λ k v lease e. (record e { kvs = insert k v e.kvs }, ok tt);
  delete_key = λ k e. (record e { kvs = delete k e.kvs }, ok tt);
  keep_alive_once = λ lease e. (e, ok tt);
  get = λ p e. ok (prefix_values p e.kvs);
}

starts_with-append : (p r : Bytes) → starts_with p (p ++ r) ≡ true
starts_with-append [] r = refl
starts_with-append (x ∷ p) r = rw ((==_iff x x).1 refl) (starts_with-append p r)

prefix_values-elem :
    (p r v : Bytes) (m : List (Bytes × Bytes))
    → lookup (p ++ r) m ≡ some v
    → (i : ℕ) × (get_elem? (prefix_values p m) i ≡ some v)
unfolding lookup prefix_values
prefix_values-elem p r v [] e = absurd (cc)
prefix_values-elem p r v ((k, w) ∷ m) e = elim (Bool-cases (eq_bytes k (p ++ r))) [
  | inl y ↦
      let same = (eq_bytes_iff k (p ++ r)).0 y in
      let found : starts_with p k ≡ true = ap (starts_with p) same ∙ starts_with-append p r in
      (0, rw (prefix_values, found) (rw (lookup, y) at e))
  | inr n ↦
      let (i, f) = prefix_values-elem p r v m (rw (lookup, n) at e) in
      elim (Bool-cases (starts_with p k)) [
        | inl s ↦ (suc i, rw (prefix_values, s) f)
        | inr s ↦ (i, rw (prefix_values, s) f)
      ]
]

pub memory-IsEtcd : IsEtcd memory
memory-IsEtcd = record {
  content = λ e k. lookup k e.kvs;
  grant_same = λ e k. refl;
  put_self = λ k v l e h. lookup-insert_self k v e.kvs;
  put_other = λ k v l e j ne. lookup-insert_ne k j v e.kvs ne;
  delete_self = λ k e h. lookup-delete_self k e.kvs;
  delete_other = λ k e j ne. lookup-delete_ne k j e.kvs ne;
  get_all = λ p r v e vs got h.
      let (i, f) = prefix_values-elem p r v e.kvs h in
      let same : prefix_values p e.kvs ≡ vs = ok_inj got in
      (i, ap (λ vs. get_elem? vs i) (sym same) ∙ f);
}
