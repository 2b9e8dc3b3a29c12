-- ===== src/ApmMonitor/Counts.antt =====
-- The counts of the monitor, in every order of the steps.
use easycall.Base.{
  some_inj, ℕ, ◌+◌, ◌^◌, ◌≤◌, ◌<◌, ◌≡◌, refl, sym, ap, subst, ◌∙◌, Bytes, Bool, true, false, [],
  ◌∷◌, ◌++◌, length, get_elem?, get_elem?-append, length-append, bytes_key, ltb, ◌==◌,
  if◌then◌else◌, Bool-cases, Option-cases, inl, inr, arith, get_elem?_lt, get_elem?-snoc,
  get_elem?-bound, ltb→lt, lookup,
}
use easycall.ApmMonitor.{
  ApmMonitorStatus, new_status, add_uint64, find_status, at_status, add_total, add_time, add_error,
  with_time, take_statuses,
}
use easycall.ApmMonitor.Steps.{
  Run, Step, enter, count, add_spent, succeed, fail, swap, average_one, Reach, start, step, one_if,
  occurrences, occurrences_out, IsCounted, at_status-elem, Inside, step-Inside,
}

abbrev Holds : ApmMonitorStatus → ℕ → ℕ → Type 0
Holds s busy started = (s.error + busy ≤ s.total) × (s.total ≤ started)

count-Holds :
    (b : Bool) (o : ApmMonitorStatus) (busy started : ℕ)
    → Holds o busy started
    → started + 1 < 2 ^ 64
    → Holds (if b then add_total o else o) (one_if b + busy) (started + 1)
unfolding add_uint64
count-Holds true o busy started (h, k) lt = (omega arith, omega arith)
count-Holds false o busy started (h, k) lt = (omega arith, omega arith)

add_spent-Holds :
    (b : Bool) (f : ApmMonitorStatus → ApmMonitorStatus) (o : ApmMonitorStatus) (busy started : ℕ)
    → (f o).total ≡ o.total
    → (f o).error ≡ o.error
    → Holds o busy started
    → Holds (if b then f o else o) busy started
add_spent-Holds true f o busy started e g (h, k) = rw (e, g) (h, k)
add_spent-Holds false f o busy started e g h = h

fail-Holds :
    (b : Bool) (o : ApmMonitorStatus) (busy started : ℕ)
    → Holds o (one_if b + busy) started
    → started < 2 ^ 64
    → Holds (if b then add_error o else o) busy started
unfolding add_uint64
fail-Holds true o busy started (h, k) lt = (omega arith, omega arith)
fail-Holds false o busy started (h, k) lt = (omega arith, omega arith)

weaker-Holds :
    (s : ApmMonitorStatus) (busy busy' started : ℕ)
    → busy' ≤ busy
    → Holds s busy started
    → Holds s busy' started
weaker-Holds s busy busy' started le (h, k) = (omega arith, k)

update-IsCounted :
    (q : ℕ) (f : ApmMonitorStatus → ApmMonitorStatus) (r r' : Run)
    → IsCounted r
    → r'.apm ≡ at_status q f r.apm
    → ((p : ℕ) (o : ApmMonitorStatus)
        → Holds o (occurrences p r.running + occurrences p r.timed) r.started
        → Holds
            (if p == q then f o else o)
            (occurrences p r'.running + occurrences p r'.timed)
            r'.started)
    → IsCounted r'
update-IsCounted q f r r' c e each p s there =
    let (o, was, now) =
      at_status-elem q f r.apm p s (ap (λ am. get_elem? am.heap p) (sym e) ∙ there) in
    subst (λ s. Holds s (occurrences p r'.running + occurrences p r'.timed) r'.started) (sym now)
      (each p o (c p o was))

not_below : (a b : ℕ) → ltb a b ≡ false → b ≤ a
not_below a b e = ground arith

entered-IsCounted :
    (method : Bytes) (r : Run)
    → Inside r
    → IsCounted r
    → IsCounted
        (let (am, p) = find_status method r.apm in record r { apm = am; arrived = p ∷ r.arrived })
unfolding find_status
entered-IsCounted method r k c = elim (Option-cases (lookup method r.apm.statuses)) [
  | inr (q, e) ↦ rw (find_status, e) c
  | inl n ↦
      rw (find_status, n)
        (λ p s there. elim (Bool-cases (ltb p (length r.apm.heap))) [
          | inl y ↦
              let (o, was) = get_elem?_lt r.apm.heap p (ltb→lt p (length r.apm.heap) y) in
              subst (λ s. Holds s (occurrences p r.running + occurrences p r.timed) r.started)
                (some_inj (sym (get_elem?-snoc r.apm.heap p o new_status was) ∙ there)) (c p o was)
          | inr d ↦
              let ge = not_below p (length r.apm.heap) d in
              let lt = get_elem?-bound (r.apm.heap ++ new_status ∷ []) p s there in
              let len : length (r.apm.heap ++ new_status ∷ []) ≡ length r.apm.heap + 1 =
                length-append r.apm.heap (new_status ∷ []) in
              let same : p ≡ length r.apm.heap = omega (arith, ge, lt, len) in
              let z = k.calls p ge in
              subst (λ s. Holds s (occurrences p r.running + occurrences p r.timed) r.started)
                (some_inj (
                  sym (
                    ap (get_elem? (r.apm.heap ++ new_status ∷ [])) same
                    ∙ get_elem?-append r.apm.heap new_status [])
                  ∙ there))
                (omega (arith, z), omega arith)
        ])
]

swapped-IsCounted : (r : Run) → IsCounted r → IsCounted (record r { apm = (take_statuses r.apm).0 })
unfolding take_statuses
swapped-IsCounted r c = c

step-IsCounted :
    {r r' : Run} → Step r r' → r'.started < 2 ^ 64 → Inside r → IsCounted r → IsCounted r'
step-IsCounted (enter method) lt k c = entered-IsCounted method _ k c
step-IsCounted {r} (count q before after e) lt k c =
    update-IsCounted q add_total r
      (record r {
        apm = at_status q add_total r.apm;
        arrived = before ++ after;
        running = q ∷ r.running;
        started = r.started + 1;
      })
      c refl
      (λ p o h.
        weaker-Holds (if p == q then add_total o else o)
          (one_if (p == q) + (occurrences p r.running + occurrences p r.timed))
          (occurrences p (q ∷ r.running) + occurrences p r.timed) (r.started + 1) (omega arith)
          (count-Holds (p == q) o (occurrences p r.running + occurrences p r.timed) r.started h lt))
step-IsCounted {r} (add_spent q spend_time before after e) lt k c =
    update-IsCounted q (add_time spend_time) r
      (record r {
        apm = at_status q (add_time spend_time) r.apm;
        running = before ++ after;
        timed = q ∷ r.timed;
      })
      c refl
      (λ p o h.
        weaker-Holds (if p == q then add_time spend_time o else o)
          (occurrences p r.running + occurrences p r.timed)
          (occurrences p (before ++ after) + occurrences p (q ∷ r.timed)) r.started
          (omega (arith, occurrences_out p q r.running before after e))
          (add_spent-Holds (p == q) (add_time spend_time) o
            (occurrences p r.running + occurrences p r.timed) r.started refl refl h))
step-IsCounted {r} (succeed q before after e) lt k c = λ p s there.
    weaker-Holds s (occurrences p r.running + occurrences p r.timed)
      (occurrences p r.running + occurrences p (before ++ after)) r.started
      (omega (arith, occurrences_out p q r.timed before after e)) (c p s there)
step-IsCounted {r} (fail q before after e) lt k c =
    update-IsCounted q add_error r
      (record r { apm = at_status q add_error r.apm; timed = before ++ after }) c refl
      (λ p o h.
        fail-Holds (p == q) o (occurrences p r.running + occurrences p (before ++ after)) r.started
          (weaker-Holds o (occurrences p r.running + occurrences p r.timed)
            (one_if (p == q) + (occurrences p r.running + occurrences p (before ++ after)))
            r.started (omega (arith, occurrences_out p q r.timed before after e)) h)
          lt)
step-IsCounted {r} (average_one q t) lt k c =
    update-IsCounted q (with_time t) r (record r { apm = at_status q (with_time t) r.apm }) c refl
      (λ p o h.
        add_spent-Holds (p == q) (with_time t) o (occurrences p r.running + occurrences p r.timed)
          r.started refl refl h)
step-IsCounted {r} swap lt k c = swapped-IsCounted r c

started_grows : {r r' : Run} → Step r r' → r.started ≤ r'.started
started_grows (enter method) = omega arith
started_grows (count q before after e) = omega arith
started_grows (add_spent q spend_time before after e) = omega arith
started_grows (succeed q before after e) = omega arith
started_grows (fail q before after e) = omega arith
started_grows (average_one q t) = omega arith
started_grows swap = omega arith

Reach-Inside : {r : Run} → Reach r → Inside r
unfolding lookup
Reach-Inside start = record { calls = λ p h. refl; within = λ m p h. absurd (cc) }
Reach-Inside (step reach s) = step-Inside s (Reach-Inside reach)

-- In every order of the steps of calls and reports in which fewer than 2^64 calls have counted
-- themselves: the errors of each status, and the calls under way that count there, are together no
-- more than its total, and its total is no more than the calls that have counted themselves.
pub Reach-IsCounted : {r : Run} → Reach r → r.started < 2 ^ 64 → IsCounted r
Reach-IsCounted start lt = λ p s there. absurd (cc)
Reach-IsCounted (step reach s) lt =
    let le = started_grows s in
    step-IsCounted s lt (Reach-Inside reach) (Reach-IsCounted reach (omega (arith, le, lt)))
