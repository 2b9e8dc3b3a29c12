-- ===== src/SessionManager/Delivery.antt =====
-- One answer for each request, and a counter that is right, whatever the order of the steps.
use easycall.Base.{
  ℕ, zero, suc, ◌+◌, ◌<◌, ◌≤◌, ◌^◌, ◌%◌, ◌≡◌, refl, sym, ap, ◌∙◌, Bool, true, false, Option, none,
  some, List, [], ◌∷◌, ◌++◌, length, get_elem?, set, ◌==◌, if◌then◌else◌, arith, Option-cases,
  Bool-cases, inl, inr, length-append, length-set, get_elem?-set_self,
}
use easycall.Base.Int.{ℤ, pos, negsuc, add32, add32_one, add32_back, half32}
use easycall.SessionManager.{
  EasySession, EasySessionManager, add_active, init_session, take_out, answered, deliver, Step,
  request, taken, delivered, Reach, here, next,
}

open_up :
    (node n k : ℕ) (active : ℕ → ℤ)
    → active n ≡ pos k
    → suc k < half32
    → add_active active node (pos 1) n ≡ pos (k + (if node == n then 1 else 0))
open_up node n k active h lt = elim (Bool-cases (node == n)) [
  | inl e ↦ rw (e, h) (add32_one k lt ∙ ap pos (omega arith))
  | inr e ↦ rw (e, h) (ap pos (omega arith))
]

open_down :
    (is_open : Bool) (node n k : ℕ) (active : ℕ → ℤ)
    → active n ≡ pos (k + (if node == n then (if is_open then 1 else 0) else 0))
    → k + (if node == n then (if is_open then 1 else 0) else 0) < half32
    → (if is_open then add_active active node (negsuc 0) else active) n ≡ pos k
open_down true node n k active h lt = elim (Bool-cases (node == n)) [
  | inl e ↦
      rw (e, h, e) (ap (λ m. add32 (pos m) (negsuc 0)) (omega arith) ∙ add32_back k (ground arith))
  | inr e ↦ rw (e, h, e) (ap pos (omega arith))
]
open_down false node n k active h lt = h ∙ ap pos (ground arith)

module _ {Pkg : Type 0} where
  -- 1 where the channel is open for a request to the node.
  abbrev opens : ℕ → EasySession Pkg → ℕ
  opens n s = if s.node == n then (if s.resp_chan then 1 else 0) else 0

  -- How many requests to the node have no answer yet.
  abbrev pub open_count : ℕ → List (EasySession Pkg) → ℕ
  open_count n [] = 0
  open_count n (s ∷ ss) = opens n s + open_count n ss

  -- An open session received nothing yet, and a closed one received exactly one answer.
  abbrev pub IsSettled : EasySession Pkg → Type 0
  IsSettled s = length s.received ≡ (if s.resp_chan then 0 else 1)

  abbrev pub EachIsSettled : List (EasySession Pkg) → Type 0
  EachIsSettled [] = Unit {0}
  EachIsSettled (s ∷ ss) = IsSettled s × EachIsSettled ss

  pub EachIsSettled-get_elem? :
      (ss : List (EasySession Pkg)) (i : ℕ) (s : EasySession Pkg)
      → EachIsSettled ss
      → get_elem? ss i ≡ some s
      → IsSettled s
  EachIsSettled-get_elem? [] i s h e = cc
  EachIsSettled-get_elem? (x ∷ ss) zero s (h, hs) e = grind arith
  EachIsSettled-get_elem? (x ∷ ss) (suc i) s (h, hs) e = EachIsSettled-get_elem? ss i s hs e

  EachIsSettled-append :
      (ss : List (EasySession Pkg)) (s : EasySession Pkg)
      → EachIsSettled ss
      → IsSettled s
      → EachIsSettled (ss ++ s ∷ [])
  EachIsSettled-append [] s h k = (k, tt)
  EachIsSettled-append (x ∷ ss) s (h, hs) k = (h, EachIsSettled-append ss s hs k)

  EachIsSettled-set :
      (ss : List (EasySession Pkg)) (i : ℕ) (s : EasySession Pkg)
      → EachIsSettled ss
      → IsSettled s
      → EachIsSettled (set ss i s)
  EachIsSettled-set [] i s h k = tt
  EachIsSettled-set (x ∷ ss) zero s (h, hs) k = (k, hs)
  EachIsSettled-set (x ∷ ss) (suc i) s (h, hs) k = (h, EachIsSettled-set ss i s hs k)

  answered-IsSettled :
      (p : Option Pkg) (s : EasySession Pkg) → IsSettled s → IsSettled (answered p s)
  unfolding answered
  answered-IsSettled p s h = elim (Option-cases p) [
    | inl e ↦ ground (arith, length-append s.received (p ∷ []))
    | inr e ↦ ground (arith, length-append s.received (p ∷ []))
  ]

  open_count-append :
      (n : ℕ) (ss : List (EasySession Pkg)) (s : EasySession Pkg)
      → open_count n (ss ++ s ∷ []) ≡ open_count n ss + opens n s
  open_count-append n [] s = omega arith
  open_count-append n (x ∷ ss) s = omega (arith, open_count-append n ss s)

  open_count-set :
      (n : ℕ) (ss : List (EasySession Pkg)) (i : ℕ) (s v : EasySession Pkg)
      → get_elem? ss i ≡ some s
      → open_count n (set ss i v) + opens n s ≡ open_count n ss + opens n v
  open_count-set n [] i s v e = cc
  open_count-set n (x ∷ ss) zero s v e = grind arith
  open_count-set n (x ∷ ss) (suc i) s v e = omega (arith, open_count-set n ss i s v e)

  opens-answered : (n : ℕ) (p : Option Pkg) (s : EasySession Pkg) → opens n (answered p s) ≡ 0
  unfolding answered
  opens-answered n p s = ground arith

  open_count_le : (n : ℕ) (ss : List (EasySession Pkg)) → open_count n ss ≤ length ss
  open_count_le n [] = omega arith
  open_count_le n (s ∷ ss) = ground (arith, open_count_le n ss)

  -- Every session has at most the one answer that closed it, and each counter is the number of the
  -- node's requests without an answer, as long as int32 can hold it.
  pub record IsSound (esm : EasySessionManager Pkg) : Type 0 where
    pub settled : EachIsSettled esm.sessions
    pub counted :
        (n : ℕ) → length esm.sessions < half32 → esm.active n ≡ pos (open_count n esm.sessions)

  init_session-IsSound :
      (node : ℕ) (esm : EasySessionManager Pkg) → IsSound esm → IsSound (init_session node esm).0
  unfolding init_session
  init_session-IsSound node esm h = record {
    settled = EachIsSettled-append esm.sessions _ h.settled refl;
    counted = λ n lt.
        let l = length-append esm.sessions (
          record {
            seq = (esm.seq + 1) % 2 ^ 64;
            resp_chan = true;
            timer = true;
            node = node;
            received = [];
          }
          ∷ []) in
        let c = h.counted n (omega (arith, l)) in
        let le = open_count_le n esm.sessions in
        open_up node n (open_count n esm.sessions) esm.active c (omega (arith, l))
        ∙ ap pos (sym (open_count-append n esm.sessions _));
  }

  take_out-IsSound : (i : ℕ) (esm : EasySessionManager Pkg) → IsSound esm → IsSound (take_out i esm)
  unfolding take_out
  take_out-IsSound i esm h = elim (Option-cases (get_elem? esm.sessions i)) [
    | inl e ↦ rw (take_out, e) h
    | inr (s, e) ↦ rw (take_out, e) (record { settled = h.settled; counted = h.counted })
  ]

  deliver-IsSound :
      (i : ℕ) (p : Option Pkg) (esm : EasySessionManager Pkg)
      → IsSound esm
      → IsSound (deliver i p esm)
  unfolding deliver
  deliver-IsSound i p esm h = elim (Option-cases (get_elem? esm.sessions i)) [
    | inl e ↦ rw (deliver, e) h
    | inr (s, e) ↦
        rw (deliver, e)
          (record {
            settled =
                EachIsSettled-set esm.sessions i (answered p s) h.settled
                  (answered-IsSettled p s (EachIsSettled-get_elem? esm.sessions i s h.settled e));
            counted = λ n lt.
                let c = h.counted n (omega (arith, length-set esm.sessions i (answered p s))) in
                let e' = open_count-set n esm.sessions i s (answered p s) e in
                let le = open_count_le n esm.sessions in
                let z = opens-answered n p s in
                open_down s.resp_chan s.node n (open_count n (set esm.sessions i (answered p s)))
                  esm.active (c ∙ ap pos (omega (arith, e', z)))
                  (omega (arith, e', z, le, length-set esm.sessions i (answered p s)));
          })
  ]

  Step-IsSound : {a b : EasySessionManager Pkg} → IsSound a → Step a b → IsSound b
  Step-IsSound {a} h (request node) = init_session-IsSound node a h
  Step-IsSound {a} h (taken i) = take_out-IsSound i a h
  Step-IsSound {a} h (delivered i p) = deliver-IsSound i p a h

  -- From any sound state, and so from a new manager, every order of requests, time-outs and answers,
  -- with their locked sections apart, leads to a state where an open session received nothing, a
  -- closed one received exactly one answer, and each node's counter is the number of its requests
  -- without an answer, as long as fewer than 2^31 sessions were made.
  pub Reach-IsSound : {a b : EasySessionManager Pkg} → IsSound a → Reach a b → IsSound b
  Reach-IsSound h here = h
  Reach-IsSound h (next r s) = Step-IsSound (Reach-IsSound h r) s

  set-get_elem? :
      (ss : List (EasySession Pkg)) (i : ℕ) (s : EasySession Pkg)
      → get_elem? ss i ≡ some s
      → set ss i s ≡ ss
  set-get_elem? [] i s e = refl
  set-get_elem? (x ∷ ss) zero s e = grind arith
  set-get_elem? (x ∷ ss) (suc i) s e = ap (◌∷◌ x) (set-get_elem? ss i s e)

  pub deliver-get_elem? :
      (i : ℕ) (p : Option Pkg) (esm : EasySessionManager Pkg) (s : EasySession Pkg)
      → get_elem? esm.sessions i ≡ some s
      → get_elem? (deliver i p esm).sessions i ≡ some (answered p s)
  unfolding deliver
  deliver-get_elem? i p esm s e =
      rw (deliver, e) (get_elem?-set_self esm.sessions i s (answered p s) e)

  deliver-none :
      (i : ℕ) (q : Option Pkg) (esm : EasySessionManager Pkg)
      → get_elem? esm.sessions i ≡ none
      → deliver i q esm ≡ esm
  unfolding deliver
  deliver-none i q esm e = rw (deliver, e) refl

  deliver_idle :
      (i : ℕ) (q : Option Pkg) (esm : EasySessionManager Pkg) (s : EasySession Pkg)
      → get_elem? esm.sessions i ≡ some s
      → s.resp_chan ≡ false
      → answered q s ≡ s
      → deliver i q esm ≡ esm
  unfolding deliver
  deliver_idle i q esm s e c a = rw (deliver, e, a, set-get_elem? esm.sessions i s e, c) refl

  -- Of a time-out and an answer for one session, in either order, the first decides: the second
  -- changes nothing.
  pub deliver-deliver :
      (i : ℕ) (p q : Option Pkg) (esm : EasySessionManager Pkg)
      → deliver i q (deliver i p esm) ≡ deliver i p esm
  unfolding answered
  deliver-deliver i p q esm = elim (Option-cases (get_elem? esm.sessions i)) [
    | inl e ↦ rw (deliver-none i p esm e) (deliver-none i q esm e)
    | inr (s, e) ↦
        deliver_idle i q (deliver i p esm) (answered p s) (deliver-get_elem? i p esm s e) refl refl
  ]
