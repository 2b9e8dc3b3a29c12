-- ===== src/ApmMonitor/Sums.antt =====
-- The calls of each method, counted one after the other.
use easycall.Base.{
  some_inj, ℕ, ◌+◌, ◌≡◌, ◌≢◌, refl, sym, ap, subst, ◌∙◌, Bytes, Bool, true, false, Option, none,
  some, List, [], ◌∷◌, ◌++◌, length, length-append, get_elem?, get_elem?_lt, get_elem?-append,
  get_elem?-snoc, get_elem?-set_self, get_elem?-set_ne, length-set, set, lookup, insert,
  lookup-insert, bytes_key, eq_bytes, eq_bytes_iff, if◌then◌else◌, Bool-cases, Option-cases, inl,
  inr, arith, none-ne-some,
}
use easycall.ApmMonitor.{
  ApmMonitor, new_apm_monitor, new_status, find_status, at_status, add_total, leave,
}
use easycall.ApmMonitor.Tally.{
  Done, one_call, run_calls, view, Sums, or_zero, note, put, note_all, wrapped, shows, Tallies,
  touch, bump-wrapped,
}

insert_hit :
    (m b : Bytes) (v : ℕ) (st : List (Bytes × ℕ))
    → eq_bytes m b ≡ true
    → lookup b (insert m v st) ≡ some v
insert_hit m b v st y =
    lookup-insert m b v st ∙ ap (λ (t : Bool). if t then some v else lookup b st) y

insert_miss :
    (m b : Bytes) (v : ℕ) (st : List (Bytes × ℕ))
    → eq_bytes m b ≡ false
    → lookup b (insert m v st) ≡ lookup b st
insert_miss m b v st n =
    lookup-insert m b v st ∙ ap (λ (t : Bool). if t then some v else lookup b st) n

-- The status of one method changes.
touched-Tallies :
    (m : Bytes) (p : ℕ) (t t' : Sums) (am : ApmMonitor) (sums : Bytes → Option Sums)
    → Tallies am sums
    → lookup m am.statuses ≡ some p
    → get_elem? am.heap p ≡ some (wrapped t)
    → Tallies (record am { heap = set am.heap p (wrapped t') }) (put m t' sums)
touched-Tallies m p t t' am sums k e f = record {
  shown = λ b. elim (Bool-cases (eq_bytes m b)) [
    | inl y ↦
        let at : lookup b am.statuses ≡ some p =
          subst (λ b. lookup b am.statuses ≡ some p) ((eq_bytes_iff m b).0 y) e in
        rw (y, view, at) (get_elem?-set_self am.heap p (wrapped t) (wrapped t') f)
    | inr n ↦ rw n (elim (Option-cases (lookup b am.statuses)) [
      | inl none_there ↦ rw (view, none_there) (rw (view, none_there) at (k.shown b))
      | inr (q, there) ↦
          let ne : p ≢ q = λ same.
            let y = (eq_bytes_iff m b).1 (k.apart m b p e (there ∙ ap some (sym same))) in
            absurd (cc) in
          rw (view, there)
            (get_elem?-set_ne am.heap p q (wrapped t') ne ∙ (rw (view, there) at (k.shown b)))
    ])
  ];
  apart = k.apart;
  bound = λ a q h. rw (length-set am.heap p (wrapped t')) (k.bound a q h);
}

-- The new status is none of the old ones.
old_new :
    (m a b : Bytes) (p : ℕ) (am : ApmMonitor) (sums : Bytes → Option Sums)
    → Tallies am sums
    → eq_bytes m a ≡ true
    → eq_bytes m b ≡ false
    → lookup a (insert m (length am.heap) am.statuses) ≡ some p
    → lookup b (insert m (length am.heap) am.statuses) ≡ some p
    → ⊥
old_new m a b p am sums k y n g h =
    let same : length am.heap ≡ p =
      some_inj (sym (insert_hit m a (length am.heap) am.statuses y) ∙ g) in
    let lt = k.bound b p (sym (insert_miss m b (length am.heap) am.statuses n) ∙ h) in
    omega (arith, same, lt)

-- A method gets its status.
added-Tallies :
    (m : Bytes) (am : ApmMonitor) (sums : Bytes → Option Sums)
    → Tallies am sums
    → lookup m am.statuses ≡ none
    → Tallies
        (record am {
          heap = am.heap ++ new_status ∷ [];
          statuses = insert m (length am.heap) am.statuses;
        })
        (put m (or_zero none) sums)
added-Tallies m am sums k e =
    let first_at : get_elem? (am.heap ++ new_status ∷ []) (length am.heap) ≡ some new_status =
      get_elem?-append am.heap new_status [] in
    let len : length (am.heap ++ new_status ∷ []) ≡ length am.heap + 1 =
      length-append am.heap (new_status ∷ []) in
    let hit =
      λ (b : Bytes) (y : eq_bytes m b ≡ true). insert_hit m b (length am.heap) am.statuses y in
    let miss =
      λ (b : Bytes) (n : eq_bytes m b ≡ false). insert_miss m b (length am.heap) am.statuses n in
    record {
      shown = λ b. elim (Bool-cases (eq_bytes m b)) [
        | inl y ↦ rw (view, hit b y, y) first_at
        | inr n ↦
            rw (view, miss b n, n)
              (elim (Option-cases (lookup b am.statuses)) [
                | inl none_there ↦ rw none_there (rw (view, none_there) at (k.shown b))
                | inr (q, there) ↦
                    let (s, f) = get_elem?_lt am.heap q (k.bound b q there) in
                    rw there (
                      get_elem?-snoc am.heap q s new_status f
                      ∙ sym f
                      ∙ (rw (view, there) at (k.shown b)))
              ])
      ];
      apart = λ a b p g h. elim (Bool-cases (eq_bytes m a)) [
        | inl y ↦ elim (Bool-cases (eq_bytes m b)) [
          | inl z ↦ sym ((eq_bytes_iff m a).0 y) ∙ (eq_bytes_iff m b).0 z
          | inr n ↦ absurd (old_new m a b p am sums k y n g h)
        ]
        | inr o ↦ elim (Bool-cases (eq_bytes m b)) [
          | inl z ↦ absurd (old_new m b a p am sums k z o h g)
          | inr n ↦ k.apart a b p (sym (miss a o) ∙ g) (sym (miss b n) ∙ h)
        ]
      ];
      bound = λ a q h. elim (Bool-cases (eq_bytes m a)) [
        | inl y ↦
            let same : length am.heap ≡ q = some_inj (sym (hit a y) ∙ h) in omega (arith, len, same)
        | inr n ↦ let lt = k.bound a q (sym (miss a n) ∙ h) in omega (arith, len, lt)
      ];
    }

new_apm_monitor-Tallies : Tallies new_apm_monitor (λ b. none)
unfolding lookup
new_apm_monitor-Tallies = record {
  shown = λ b. refl;
  apart = λ a b p g h. absurd (cc);
  bound = λ a p h. absurd (cc);
}

put-put :
    (m b : Bytes) (t t' : Sums) (sums : Bytes → Option Sums)
    → put m t' (put m t sums) b ≡ put m t' sums b
put-put m b t t' sums = ground arith

Tallies-ext :
    (am : ApmMonitor) (sums sums' : Bytes → Option Sums)
    → ((b : Bytes) → sums b ≡ sums' b)
    → Tallies am sums
    → Tallies am sums'
Tallies-ext am sums sums' e k = record {
  shown = λ b. k.shown b ∙ ap shows (e b);
  apart = k.apart;
  bound = k.bound;
}

-- The call of a method that has a status.
known-Tallies :
    (c : Done) (p : ℕ) (o : Option Sums) (am : ApmMonitor) (sums : Bytes → Option Sums)
    → Tallies am sums
    → lookup c.method am.statuses ≡ some p
    → sums c.method ≡ o
    → Tallies
        (leave p c.spend_time c.failed (at_status p add_total am))
        (put c.method (note c (or_zero o)) sums)
known-Tallies c p none am sums k e g =
    let (s, f) = get_elem?_lt am.heap p (k.bound c.method p e) in
    let seen : get_elem? am.heap p ≡ shows (sums c.method) = (rw (view, e) at (k.shown c.method)) in
    absurd (none-ne-some s (sym (ap shows g) ∙ sym seen ∙ f))
known-Tallies c p (some t) am sums k e g =
    let seen : get_elem? am.heap p ≡ shows (sums c.method) = (rw (view, e) at (k.shown c.method)) in
    let f : get_elem? am.heap p ≡ some (wrapped t) = seen ∙ ap shows g in
    subst (λ am. Tallies am (put c.method (note c t) sums))
      (sym (
        touch p c am (wrapped t) f
        ∙ ap (λ s. record am { heap = set am.heap p s }) (bump-wrapped c t)))
      (touched-Tallies c.method p t (note c t) am sums k e f)

none_shown : (o : Option Sums) → none ≡ shows o → o ≡ none
none_shown none e = refl
none_shown (some t) e = absurd (none-ne-some (wrapped t) e)

one_call-Tallies :
    (c : Done) (am : ApmMonitor) (sums : Bytes → Option Sums)
    → Tallies am sums
    → Tallies (one_call c am) (put c.method (note c (or_zero (sums c.method))) sums)
unfolding find_status
one_call-Tallies c am sums k = elim (Option-cases (lookup c.method am.statuses)) [
  | inr (p, e) ↦ rw (one_call, find_status, e) (known-Tallies c p (sums c.method) am sums k e refl)
  | inl n ↦
      let zero_sums = or_zero none in
      let am1 : ApmMonitor = record am {
        heap = am.heap ++ new_status ∷ [];
        statuses = insert c.method (length am.heap) am.statuses;
      } in
      let own = (eq_bytes_iff c.method c.method).1 refl in
      let empty = none_shown (sums c.method) (rw (view, n) at (k.shown c.method)) in
      rw (one_call, find_status, n, empty)
        (Tallies-ext _ (put c.method (note c zero_sums) (put c.method zero_sums sums))
          (put c.method (note c zero_sums) sums)
          (λ b. put-put c.method b zero_sums (note c zero_sums) sums)
          (known-Tallies c (length am.heap) (some zero_sums) am1 (put c.method zero_sums sums)
            (added-Tallies c.method am sums k n)
            (insert_hit c.method c.method (length am.heap) am.statuses own) (rw own refl)))
]

run_calls-Tallies :
    (cs : List Done) (am : ApmMonitor) (sums : Bytes → Option Sums)
    → Tallies am sums
    → Tallies (run_calls cs am) (note_all cs sums)
run_calls-Tallies [] am sums k = k
run_calls-Tallies (c ∷ cs) am sums k =
    run_calls-Tallies cs (one_call c am) _ (one_call-Tallies c am sums k)

-- After any calls, one after the other and with no report between them, each method that was called
-- has a status with the number of its calls, of its failures and of its milliseconds, modulo 2^64;
-- a method that was not called has none.
pub run_calls_sums :
    (cs : List Done) (method : Bytes)
    → view method (run_calls cs new_apm_monitor) ≡ shows (note_all cs (λ b. none) method)
run_calls_sums cs method =
    (run_calls-Tallies cs new_apm_monitor (λ b. none) new_apm_monitor-Tallies).shown method
