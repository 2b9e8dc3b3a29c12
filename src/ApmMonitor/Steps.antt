-- ===== src/ApmMonitor/Steps.antt =====
-- Calls of a monitored service that overlap each other and the reports.
use easycall.Base.{
  some_inj, ℕ, ◌+◌, ◌≤◌, ◌<◌, ◌≡◌, ◌≢◌, refl, sym, ap, ◌∙◌, Bytes, Bool, some, List, [], ◌∷◌, ◌++◌,
  length, get_elem?, get_elem?-set_self, get_elem?-set_ne, length-append, set, bytes_key, ◌==◌,
  ==_iff, if◌then◌else◌, Bool-cases, Option-cases, inl, inr, arith, none-ne-some, length-set,
  lookup, lookup-insert, eq_bytes,
}
use easycall.ApmMonitor.{
  ApmMonitorStatus, ApmMonitor, new_apm_monitor, new_status, find_status, at_status, add_total,
  add_time, add_error, with_time, take_statuses,
}

-- The monitor, and the statuses of the calls under way: those that have found their status, those
-- that have counted themselves, and those whose time is added. `started` calls have counted themselves.
pub record Run : Type 0 where
  pub apm : ApmMonitor
  pub arrived : List ℕ
  pub running : List ℕ
  pub timed : List ℕ
  pub started : ℕ

-- Each atomic operation of `Middleware`, and what `reportAndReset` does in one access, is a step.
pub data Step : Run → Run → Type 0 where
  enter :
      {r : Run} (method : Bytes)
      → Step r
          (let (am, p) = find_status method r.apm in record r { apm = am; arrived = p ∷ r.arrived })
  count :
      {r : Run} (p : ℕ) (before after : List ℕ)
      → r.arrived ≡ before ++ p ∷ after
      → Step r (record r {
        apm = at_status p add_total r.apm;
        arrived = before ++ after;
        running = p ∷ r.running;
        started = r.started + 1;
      })
  add_spent :
      {r : Run} (p spend_time : ℕ) (before after : List ℕ)
      → r.running ≡ before ++ p ∷ after
      → Step r (record r {
        apm = at_status p (add_time spend_time) r.apm;
        running = before ++ after;
        timed = p ∷ r.timed;
      })
  succeed :
      {r : Run} (p : ℕ) (before after : List ℕ)
      → r.timed ≡ before ++ p ∷ after
      → Step r (record r { timed = before ++ after })
  fail :
      {r : Run} (p : ℕ) (before after : List ℕ)
      → r.timed ≡ before ++ p ∷ after
      → Step r (record r { apm = at_status p add_error r.apm; timed = before ++ after })
  swap : {r : Run} → Step r (record r { apm = (take_statuses r.apm).0 })
  -- The write of a mean. Its quotient was read before, in accesses of which calls may come between,
  -- so that it may be any number here.
  average_one : {r : Run} (p t : ℕ) → Step r (record r { apm = at_status p (with_time t) r.apm })

pub data Reach : Run → Type 0 where
  start :
      Reach (record { apm = new_apm_monitor; arrived = []; running = []; timed = []; started = 0 })
  step : {r r' : Run} → Reach r → Step r r' → Reach r'

abbrev pub one_if : Bool → ℕ
one_if b = if b then 1 else 0

abbrev pub occurrences : ℕ → List ℕ → ℕ
occurrences p [] = 0
occurrences p (q ∷ qs) = one_if (p == q) + occurrences p qs

-- Of the calls counted at a status, those that are under way have not counted as failed.
abbrev pub IsCounted : Run → Type 0
IsCounted r =
    (p : ℕ) (s : ApmMonitorStatus)
    → get_elem? r.apm.heap p ≡ some s
    → (s.error + (occurrences p r.running + occurrences p r.timed) ≤ s.total)
      × (s.total ≤ r.started)

occurrences-append :
    (p : ℕ) (xs ys : List ℕ) → occurrences p (xs ++ ys) ≡ occurrences p xs + occurrences p ys
occurrences-append p [] ys = omega arith
occurrences-append p (x ∷ xs) ys = omega (arith, occurrences-append p xs ys)

pub occurrences_out :
    (p q : ℕ) (xs before after : List ℕ)
    → xs ≡ before ++ q ∷ after
    → occurrences p xs ≡ one_if (p == q) + occurrences p (before ++ after)
occurrences_out p q xs before after e =
    ap (occurrences p) e
    ∙ omega (arith, occurrences-append p before (q ∷ after), occurrences-append p before after)

-- What an update of one status leaves for each.
pub at_status-elem :
    (q : ℕ) (f : ApmMonitorStatus → ApmMonitorStatus) (am : ApmMonitor) (p : ℕ)
    (s : ApmMonitorStatus)
    → get_elem? (at_status q f am).heap p ≡ some s
    → (o : ApmMonitorStatus) × (get_elem? am.heap p ≡ some o) × (s ≡ (if p == q then f o else o))
unfolding at_status
at_status-elem q f am p s e = elim (Option-cases (get_elem? am.heap q)) [
  | inl n ↦ elim (Bool-cases (p == q)) [
    | inl y ↦ absurd (
        none-ne-some s
          (sym n ∙ ap (get_elem? am.heap) (sym ((==_iff p q).0 y)) ∙ (rw (at_status, n) at e)))
    | inr d ↦ (s, rw (at_status, n) at e, rw d refl)
  ]
  | inr (o, found) ↦ elim (Bool-cases (p == q)) [
    | inl y ↦
        let same = (==_iff p q).0 y in
        (
          o,
          ap (get_elem? am.heap) same ∙ found,
          rw y (
              some_inj (
                sym (rw (at_status, found) at e)
                ∙ ap (get_elem? (set am.heap q (f o))) same
                ∙ get_elem?-set_self am.heap q o (f o) found)),
        )
    | inr d ↦
        let ne : q ≢ p = λ g. let y = (==_iff p q).1 (sym g) in absurd (cc) in
        (s, sym (get_elem?-set_ne am.heap q p (f o) ne) ∙ (rw (at_status, found) at e), rw d refl)
  ]
]

length-at_status :
    (q : ℕ) (f : ApmMonitorStatus → ApmMonitorStatus) (am : ApmMonitor)
    → length (at_status q f am).heap ≡ length am.heap
unfolding at_status
length-at_status q f am = elim (Option-cases (get_elem? am.heap q)) [
  | inl n ↦ rw (at_status, n) refl
  | inr (o, found) ↦ rw (at_status, found) (length-set am.heap q (f o))
]

at_status-statuses :
    (q : ℕ) (f : ApmMonitorStatus → ApmMonitorStatus) (am : ApmMonitor)
    → (at_status q f am).statuses ≡ am.statuses
unfolding at_status
at_status-statuses q f am = elim (Option-cases (get_elem? am.heap q)) [
  | inl n ↦ rw (at_status, n) refl
  | inr (o, found) ↦ rw (at_status, found) refl
]

differs : (p q n : ℕ) → n ≤ p → q < n → one_if (p == q) ≡ 0
differs p q n h lt = ground (arith, ==_iff p q)

-- Every pointer is that of an object.
pub record Inside (r : Run) : Type 0 where
  pub calls :
      (p : ℕ)
      → length r.apm.heap ≤ p
      → occurrences p r.arrived + (occurrences p r.running + occurrences p r.timed) ≡ 0
  pub within : (m : Bytes) (p : ℕ) → lookup m r.apm.statuses ≡ some p → p < length r.apm.heap

-- An update of one status keeps this, if every call under way was so before.
updated-Inside :
    (q : ℕ) (f : ApmMonitorStatus → ApmMonitorStatus) (r r' : Run)
    → Inside r
    → r'.apm ≡ at_status q f r.apm
    → ((p : ℕ)
        → occurrences p r'.arrived + (occurrences p r'.running + occurrences p r'.timed)
          ≤ occurrences p r.arrived + (occurrences p r.running + occurrences p r.timed))
    → Inside r'
updated-Inside q f r r' k e le =
    let len : length r'.apm.heap ≡ length r.apm.heap =
      ap (λ am. length am.heap) e ∙ length-at_status q f r.apm in
    record {
      calls = λ p h. let z = k.calls p (omega (arith, h, len)) in omega (arith, le p, z);
      within = λ m p h.
          let lt = k.within m p (
            ap (lookup m) (sym (at_status-statuses q f r.apm))
            ∙ ap (λ am. lookup m am.statuses) (sym e)
            ∙ h) in
          omega (arith, lt, len);
    }

entered-Inside :
    (method : Bytes) (r : Run)
    → Inside r
    → Inside
        (let (am, p) = find_status method r.apm in record r { apm = am; arrived = p ∷ r.arrived })
unfolding find_status
entered-Inside method r k = elim (Option-cases (lookup method r.apm.statuses)) [
  | inr (q, e) ↦
      let lt = k.within method q e in
      rw (find_status, e)
        (record {
          calls = λ p h.
              let z = k.calls p h in
              let d = differs p q (length r.apm.heap) h lt in omega (arith, z, d);
          within = k.within;
        })
  | inl n ↦
      let len : length (r.apm.heap ++ new_status ∷ []) ≡ length r.apm.heap + 1 =
        length-append r.apm.heap (new_status ∷ []) in
      rw (find_status, n)
        (record {
          calls = λ p h.
              let z = k.calls p (omega (arith, h, len)) in
              let d =
                differs p (length r.apm.heap) (length r.apm.heap + 1) (omega (arith, h, len))
                  (omega arith) in
              omega (arith, z, d);
          within = λ m p h.
              let l = lookup-insert {V = ℕ} method m (length r.apm.heap) r.apm.statuses in
              elim (Bool-cases (eq_bytes method m)) [
                | inl y ↦ let same = some_inj (sym (rw y at l) ∙ h) in omega (arith, len, same)
                | inr d ↦ let lt = k.within m p (sym (rw d at l) ∙ h) in omega (arith, len, lt)
              ];
        })
]

swapped-Inside : (r : Run) → Inside r → Inside (record r { apm = (take_statuses r.apm).0 })
unfolding take_statuses lookup
swapped-Inside r k = record { calls = k.calls; within = λ m p h. absurd (cc) }

pub step-Inside : {r r' : Run} → Step r r' → Inside r → Inside r'
step-Inside (enter method) k = entered-Inside method _ k
step-Inside (count p before after e) k =
    updated-Inside p add_total _ _ k refl (λ q. omega (arith, occurrences_out q p _ before after e))
step-Inside (add_spent p spend_time before after e) k =
    updated-Inside p (add_time spend_time) _ _ k refl
      (λ q. omega (arith, occurrences_out q p _ before after e))
step-Inside (succeed p before after e) k = record {
  calls = λ q h. let z = k.calls q h in omega (arith, z, occurrences_out q p _ before after e);
  within = k.within;
}
step-Inside (fail p before after e) k =
    updated-Inside p add_error _ _ k refl (λ q. omega (arith, occurrences_out q p _ before after e))
step-Inside (average_one p t) k = updated-Inside p (with_time t) _ _ k refl (λ q. omega arith)
step-Inside swap k = swapped-Inside _ k
