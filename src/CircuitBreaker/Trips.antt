-- ===== src/CircuitBreaker/Trips.antt =====
-- What a tripped breaker does with the calls of all names that follow.
use easycall.Base.{
  ◌≡◌, ◌≢◌, refl, sym, ap, subst, ◌∙◌, Bytes, Bool, true, false, Option, some, List, [], ◌∷◌,
  lookup, bytes_key, eq_bytes, eq_bytes_iff, Bool-cases, inl, inr, arith,
}
use easycall.Base.Int.{ℤ, add64, ltb_ℤ}
use easycall.CircuitBreaker.{
  FloatOps, CbInfo, open_status, close_status, find_info, default_info, refusal, expire, passes,
  over_limit, admit, call_info, cb_call,
}
use easycall.CircuitBreaker.Names.{cb_call_own}
use easycall.CircuitBreaker.Transitions.{IsWaiting, open_rejects}
use easycall.CircuitBreaker.Counts.{Call}

module _ {F : Type 0} (ops : FloatOps F) where
  -- One call of a history of calls of any names.
  pub record NamedCall : Type 0 where
    pub name : Bytes
    pub made : Call ops

  -- The calls in order: the table, and what each did: whether `run` was called, and the error.
  unfoldable pub cb_calls :
      List NamedCall
      → List (Bytes × CbInfo F)
      → List (Bytes × CbInfo F) × List (Bool × Option Bytes)
  cb_calls [] infos = (infos, [])
  cb_calls (c ∷ cs) infos =
      let (infos', ran, error) =
        cb_call ops c.made.now c.made.draw c.made.run c.made.fail c.name infos in
      let (last, outs) = cb_calls cs infos' in (last, (ran, error) ∷ outs)

  -- No call of this name has a clock past this time.
  abbrev pub Until : Bytes → ℤ → List NamedCall → Type 0
  Until name time [] = Unit
  Until name time (c ∷ cs) = (name ≡ c.name → ltb_ℤ time c.made.now ≡ false) × Until name time cs

  -- Every call of this name was refused, without a call of `run`.
  abbrev pub Refused : Bytes → List NamedCall → List (Bool × Option Bytes) → Type 0
  Refused name (c ∷ cs) (out ∷ outs) =
      (name ≡ c.name → out ≡ (false, refusal c.made.fail)) × Refused name cs outs
  Refused name cs outs = Unit

  find_info-some :
      (name : Bytes) (now : ℤ) (info : CbInfo F) (infos : List (Bytes × CbInfo F))
      → lookup name infos ≡ some info
      → find_info (default_info ops now) name infos ≡ info
  unfolding find_info
  find_info-some name now info infos h = rw (find_info, h) refl

  -- What a call does and returns is what `call_info` says of its breaker.
  cb_call_outcome :
      (c : NamedCall) (infos : List (Bytes × CbInfo F)) (info after : CbInfo F) (out : Bool)
      (m : Option Bytes)
      → lookup c.name infos ≡ some info
      → call_info ops c.made.now c.made.draw c.made.run c.made.fail info ≡ (after, out, m)
      → let result = cb_call ops c.made.now c.made.draw c.made.run c.made.fail c.name infos in
        (◌≡◌ {A = Bool × Option Bytes} (result.1, result.2) (out, m))
        × (lookup c.name result.0 ≡ some after)
  cb_call_outcome c infos info after out m at e =
      let k = c.made in
      let (own, ran, error, others) = cb_call_own ops k.now k.draw k.run k.fail c.name infos in
      let e' =
        ap (call_info ops k.now k.draw k.run k.fail) (find_info-some c.name k.now info infos at)
        ∙ e in
      (
        ap (λ r. (r, (cb_call ops k.now k.draw k.run k.fail c.name infos).2))
              (ran ∙ ap (λ x. x.1) e')
            ∙ ap (λ m. (out, m)) (error ∙ ap (λ x. x.2) e'),
        own ∙ ap (λ x. some x.0) e',
      )

  -- A call of an open breaker before its time leaves the table's entry and does not run.
  cb_call_waits :
      (c : NamedCall) (infos : List (Bytes × CbInfo F)) (info : CbInfo F)
      → lookup c.name infos ≡ some info
      → info.status ≡ open_status
      → IsWaiting ops c.made.now c.made.draw info
      → let result = cb_call ops c.made.now c.made.draw c.made.run c.made.fail c.name infos in
        (◌≡◌ {A = Bool × Option Bytes} (result.1, result.2) (false, refusal c.made.fail))
        × (lookup c.name result.0 ≡ some info)
  cb_call_waits c infos info at s waits =
      let k = c.made in
      cb_call_outcome c infos info info false (refusal k.fail) at
        (open_rejects ops k.now k.draw info k.run k.fail s waits)

  stays_open :
      (cs : List NamedCall) (name : Bytes) (infos : List (Bytes × CbInfo F)) (info : CbInfo F)
      → lookup name infos ≡ some info
      → info.status ≡ open_status
      → Until name (add64 info.last_circuit_breaker_time info.fail_time) cs
      → Refused name cs (cb_calls cs infos).1 × (lookup name (cb_calls cs infos).0 ≡ some info)
  unfolding cb_calls
  stays_open [] name infos info at s u = (tt, at)
  stays_open (c ∷ cs) name infos info at s (w, u) =
      let k = c.made in
      let next = (cb_call ops k.now k.draw k.run k.fail c.name infos).0 in
      elim (Bool-cases (eq_bytes name c.name)) [
        | inl y ↦
            let same : name ≡ c.name = (eq_bytes_iff name c.name).0 y in
            let (out, kept) =
              cb_call_waits c infos info (subst (λ n. lookup n infos ≡ some info) same at) s
                (w same) in
            let (refused, last) =
              stays_open cs name next info (subst (λ n. lookup n next ≡ some info) (sym same) kept)
                s u in
            (((λ e. out), refused), last)
        | inr n ↦
            let apart : name ≢ c.name = λ e. let y = (eq_bytes_iff name c.name).1 e in cc in
            let others = (cb_call_own ops k.now k.draw k.run k.fail c.name infos).3 in
            let (refused, last) =
              stays_open cs name next info (others name (λ e. apart (sym e)) ∙ at) s u in
            (((λ e. absurd (apart e)), refused), last)
      ]

  -- A call that trips a closed breaker.
  cb_call_trips :
      (c : NamedCall) (infos : List (Bytes × CbInfo F)) (info : CbInfo F)
      → lookup c.name infos ≡ some info
      → info.status ≡ close_status
      → over_limit ops info ≡ true
      → call_info ops c.made.now c.made.draw c.made.run c.made.fail info ≡ (
        record info { status = open_status; last_circuit_breaker_time = c.made.now },
        false,
        refusal c.made.fail,
      )
  unfolding call_info admit expire passes
  cb_call_trips c infos info at s over = ground arith

  -- Let a breaker be closed and over its limit: more calls than the base were counted, and too many
  -- failed. Then the next call of its name trips it. In any sequence of calls that do not overlap,
  -- with no `CbConfigure` between them, that call and every later one of the name is refused, as
  -- long as its clock is not past that of the trip plus `fail_time`: `run` is not called, and the
  -- result is that of `fail`, or no error if there is no `fail`. Whatever calls of other names come
  -- between, the state of the breaker is then the one of the trip, with its counters unchanged.
  pub trips :
      (first : NamedCall) (later : List NamedCall) (infos : List (Bytes × CbInfo F))
      (info : CbInfo F)
      → lookup first.name infos ≡ some info
      → info.status ≡ close_status
      → over_limit ops info ≡ true
      → Until first.name (add64 first.made.now info.fail_time) later
      → let result = cb_calls (first ∷ later) infos in
        Refused first.name (first ∷ later) result.1
        × (lookup first.name result.0
            ≡ some
                (record info { status = open_status; last_circuit_breaker_time = first.made.now }))
  unfolding cb_calls
  trips first later infos info at s over u =
      let k = first.made in
      let (out, kept) =
        cb_call_outcome first infos info _ false (refusal first.made.fail) at
          (cb_call_trips first infos info at s over) in
      let (refused, last) = stays_open later first.name _ _ kept refl u in
      (((λ e. out), refused), last)
