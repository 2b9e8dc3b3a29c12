-- ===== src/ApmMonitor/Tally.antt =====
-- The counts of a monitor, one call after the other, against plain numbers for each method.
use easycall.Base.{
  ℕ, zero, suc, ◌+◌, ◌%◌, ◌^◌, ◌<◌, ◌≡◌, refl, ap, ◌∙◌, Bytes, Bool, Option, none, some, List, [],
  ◌∷◌, length, get_elem?, get_elem?-set_self, set, lookup, bytes_key, eq_bytes, if◌then◌else◌,
  Bool-cases, inl, inr, arith,
}
use easycall.ApmMonitor.{
  ApmMonitorStatus, ApmMonitor, add_uint64, find_status, at_status, add_total, add_time, add_error,
  leave,
}

pub record Done : Type 0 where
  pub method : Bytes
  pub spend_time : ℕ
  pub failed : Bool

-- What the middleware does to the monitor around the call of `next`.
abbrev pub one_call : Done → ApmMonitor → ApmMonitor
one_call c am =
    let (am', status) = find_status c.method am in
    leave status c.spend_time c.failed (at_status status add_total am')

abbrev pub run_calls : List Done → ApmMonitor → ApmMonitor
run_calls [] am = am
run_calls (c ∷ cs) am = run_calls cs (one_call c am)

-- The status of a method, since the last report.
abbrev pub view : Bytes → ApmMonitor → Option ApmMonitorStatus
view method am = elim (lookup method am.statuses) [ none ↦ none | some p ↦ get_elem? am.heap p ]

-- Calls, failures and milliseconds.
pub record Sums : Type 0 where
  pub calls : ℕ
  pub failures : ℕ
  pub millis : ℕ

abbrev pub or_zero : Option Sums → Sums
or_zero none = record { calls = 0; failures = 0; millis = 0 }
or_zero (some t) = t

abbrev pub note : Done → Sums → Sums
note c t = record {
  calls = t.calls + 1;
  failures = if c.failed then t.failures + 1 else t.failures;
  millis = t.millis + c.spend_time;
}

abbrev pub put : Bytes → Sums → (Bytes → Option Sums) → Bytes → Option Sums
put method t sums b = if eq_bytes method b then some t else sums b

abbrev pub note_all : List Done → (Bytes → Option Sums) → Bytes → Option Sums
note_all [] sums = sums
note_all (c ∷ cs) sums = note_all cs (put c.method (note c (or_zero (sums c.method))) sums)

abbrev pub wrapped : Sums → ApmMonitorStatus
wrapped t = record {
  total = t.calls % 2 ^ 64;
  error = t.failures % 2 ^ 64;
  time = t.millis % 2 ^ 64;
}

abbrev pub shows : Option Sums → Option ApmMonitorStatus
shows none = none
shows (some t) = some (wrapped t)

pub record Tallies (am : ApmMonitor) (sums : Bytes → Option Sums) : Type 0 where
  pub shown : (b : Bytes) → view b am ≡ shows (sums b)
  pub apart :
      (a b : Bytes) (p : ℕ) → lookup a am.statuses ≡ some p → lookup b am.statuses ≡ some p → a ≡ b
  pub bound : (a : Bytes) (p : ℕ) → lookup a am.statuses ≡ some p → p < length am.heap

abbrev pub bump : Done → ApmMonitorStatus → ApmMonitorStatus
bump c s = (let s' = add_time c.spend_time (add_total s) in if c.failed then add_error s' else s')

set-set : {A : Type 0} (xs : List A) (i : ℕ) (a b : A) → set (set xs i a) i b ≡ set xs i b
set-set [] i a b = refl
set-set (x ∷ xs) zero a b = refl
set-set (x ∷ xs) (suc i) a b = ap (λ ys. x ∷ ys) (set-set xs i a b)

at_status-found :
    (p : ℕ) (f : ApmMonitorStatus → ApmMonitorStatus) (am : ApmMonitor) (s : ApmMonitorStatus)
    → get_elem? am.heap p ≡ some s
    → at_status p f am ≡ record am { heap = set am.heap p (f s) }
unfolding at_status
at_status-found p f am s e = rw (at_status, e) refl

-- An update of a status that was updated before.
at_status_again :
    (p : ℕ) (f : ApmMonitorStatus → ApmMonitorStatus) (am : ApmMonitor) (s s' : ApmMonitorStatus)
    → get_elem? am.heap p ≡ some s
    → at_status p f (record am { heap = set am.heap p s' })
      ≡ record am { heap = set am.heap p (f s') }
at_status_again p f am s s' e =
    at_status-found p f (record am { heap = set am.heap p s' }) s'
      (get_elem?-set_self am.heap p s s' e)
    ∙ ap (λ h. record am { heap = h }) (set-set am.heap p s' (f s'))

-- What one call does to its status.
pub touch :
    (p : ℕ) (c : Done) (am : ApmMonitor) (s : ApmMonitorStatus)
    → get_elem? am.heap p ≡ some s
    → leave p c.spend_time c.failed (at_status p add_total am)
      ≡ record am { heap = set am.heap p (bump c s) }
unfolding leave
touch p c am s e =
    let one = at_status-found p add_total am s e in
    let two = at_status_again p (add_time c.spend_time) am s (add_total s) e in
    let three = at_status_again p add_error am s (add_time c.spend_time (add_total s)) e in
    elim (Bool-cases c.failed) [ inl y ↦ rw (y, one, two) three | inr n ↦ rw (n, one, two) refl ]

mod_add : (a b : ℕ) → (a % 2 ^ 64 + b) % 2 ^ 64 ≡ (a + b) % 2 ^ 64
mod_add a b = omega arith

pub bump-wrapped : (c : Done) (t : Sums) → bump c (wrapped t) ≡ wrapped (note c t)
unfolding add_uint64
bump-wrapped c t = elim (Bool-cases c.failed) [
  | inl y ↦ rw (y, mod_add t.calls 1, mod_add t.failures 1, mod_add t.millis c.spend_time) refl
  | inr n ↦ rw (n, mod_add t.calls 1, mod_add t.millis c.spend_time) refl
]
