-- ===== src/CircuitBreaker/Tests.antt =====
-- The circuit breaker at concrete inputs. Float values are tenths here, and quotients round down.
use easycall.Base.{
  ℕ, ◌+◌, ◌*◌, ◌/◌, ◌<◌, ◌≤◌, ◌≡◌, ◌≢◌, refl, Bytes, Bool, true, false, Option, none, some, List,
  [], ◌∷◌, ltb, lookup, eq_bytes, bytes_key, text, arith,
}
use easycall.Base.Int.{pos, pos_part, ◌+ℤ◌, wrap, ◌<ℤ◌}
use easycall.CircuitBreaker.{
  FloatOps, CbInfo, open_status, close_status, limit_status, new_info, default_info, find_info,
  expire, passes, over_limit, admit, refusal, call_info, cb_call, cb_configure, begin, finish,
}
use easycall.CircuitBreaker.Transitions.{
  open_rejects, admit_status, opens_only, recovers, limit_closes, closed_runs,
}
use easycall.CircuitBreaker.Counts.{Call, IsCounted, run_calls, run_calls-IsCounted}
use easycall.CircuitBreaker.Trips.{NamedCall, cb_calls, Refused, trips}
use easycall.CircuitBreaker.Names.{cb_call_own, configured_call}

abbrev tenths : FloatOps ℕ
tenths = record {
  of_int64 = λ z. pos_part z * 10;
  div = λ a b. a * 10 / b;
  ltb = ltb;
  literal = λ a b. a * 10 / b;
}

abbrev closed : CbInfo ℕ
closed = default_info tenths (pos 1000)

abbrev failing : CbInfo ℕ
failing = record closed { invoke_count = pos 12; fail_count = pos 11 }

abbrev opened : CbInfo ℕ
opened = record failing { status = open_status; last_circuit_breaker_time = pos 2000 }

abbrev limited : CbInfo ℕ
limited = record closed { status = limit_status; last_limit_pass_time = pos 40000 }

still_open : call_info tenths (pos 2500) 0 none (some none) opened ≡ (opened, false, none)
unfolding refusal
still_open =
    open_rejects tenths (pos 2500) 0 opened none (some none) refl (unfold wrap ◌+ℤ◌ in refl)

opened_after_calls :
    (over_limit tenths failing ≡ true)
    × (passes tenths 0 failing ≡ true)
    × (pos 10 <ℤ pos 12)
    × (admit tenths (pos 2000) 0 failing ≡ (opened, false))
opened_after_calls =
    opens_only tenths (pos 2000) 0 failing (λ e. cc) (unfold admit expire passes over_limit in refl)

recovers_example : admit tenths (pos 40000) 1 opened ≡ (
  record opened {
    status = limit_status;
    fail_count = pos 0;
    invoke_count = pos 1;
    last_limit_pass_time = pos 40000;
    last_circuit_breaker_time = pos 0;
  },
  true,
)
recovers_example =
    recovers tenths (pos 40000) 1 opened refl (unfold wrap ◌+ℤ◌ in refl) (omega arith)
      (unfold wrap ◌+ℤ◌ in refl)

limit_closed :
    ((admit tenths (pos 80000) 1 limited).1 ≡ true)
    × ((admit tenths (pos 80000) 1 limited).0.status ≡ close_status)
    × ((admit tenths (pos 80000) 1 limited).0.invoke_count ≡ pos 1)
    × ((admit tenths (pos 80000) 1 limited).0.fail_count ≡ pos 0)
limit_closed =
    limit_closes tenths (pos 80000) 1 limited refl refl (unfold over_limit in refl)
      (unfold wrap ◌+ℤ◌ in refl)

closed_run :
    call_info tenths (pos 2000) 0 (some (text "timeout")) none closed
    ≡ (finish (some (text "timeout")) (begin closed), true, some (text "timeout"))
unfolding wrap ◌+ℤ◌
closed_run =
    closed_runs tenths (pos 2000) 0 closed (some (text "timeout")) none refl
      (unfold over_limit in refl)

status_admitted :
    ((admit tenths (pos 2000) 0 opened).1 ≡ true
      → (admit tenths (pos 2000) 0 opened).0.status ≢ open_status)
    × ((admit tenths (pos 2000) 0 opened).1 ≡ false
        → (admit tenths (pos 2000) 0 opened).0.status ≢ close_status)
status_admitted = admit_status tenths (pos 2000) 0 opened

abbrev failed_call : Call tenths
failed_call = record { now = pos 1500; draw = 0; run = some []; fail = none }

run_calls-IsCounted_example :
    IsCounted (run_calls tenths (failed_call ∷ failed_call ∷ []) closed)
    × (pos_part (run_calls tenths (failed_call ∷ failed_call ∷ []) closed).invoke_count ≤ 3)
run_calls-IsCounted_example =
    run_calls-IsCounted tenths (failed_call ∷ failed_call ∷ []) (pos 1000) 5 2 (pos 10) (pos 30000)
      (pos 30000) (pos 60000) (omega arith)

call_of_own :
    (lookup (text "hello") (cb_call tenths (pos 5) 0 none none (text "hello") []).0
      ≡ some
          (call_info tenths
            (pos 5)
            0
            none
            none
            (find_info (default_info tenths (pos 5)) (text "hello") [])).0)
    × ((cb_call tenths (pos 5) 0 none none (text "hello") []).1
        ≡ (call_info tenths
            (pos 5)
            0
            none
            none
            (find_info (default_info tenths (pos 5)) (text "hello") [])).1)
    × ((cb_call tenths (pos 5) 0 none none (text "hello") []).2
        ≡ (call_info tenths
            (pos 5)
            0
            none
            none
            (find_info (default_info tenths (pos 5)) (text "hello") [])).2)
    × ((other : Bytes)
        → text "hello" ≢ other
        → lookup other (cb_call tenths (pos 5) 0 none none (text "hello") []).0
          ≡ lookup {V = CbInfo ℕ} other [])
call_of_own = cb_call_own tenths (pos 5) 0 none none (text "hello") []

call_configured :
    cb_call tenths
      (pos 5)
      0
      none
      none
      (text "hello")
      (cb_configure (pos 1) (text "hello") 5 2 (pos 3) (pos 7) (pos 8) (pos 9) [])
    ≡ (let result =
          call_info tenths
            (pos 5)
            0
            none
            none
            (find_info (new_info (pos 1) 5 2 (pos 3) (pos 7) (pos 8) (pos 9)) (text "hello") []) in
        ((text "hello", result.0) ∷ [], result.1, result.2))
unfolding easycall.Base.insert find_info easycall.Base.lookup
call_configured =
    configured_call tenths (pos 1) 5 2 (pos 3) (pos 7) (pos 8) (pos 9) (pos 5) 0 none none
      (text "hello") []

abbrev first_call : NamedCall tenths
first_call = record { name = 1 ∷ []; made = record failed_call { now = pos 2000 } }

-- A call of another name, and one of this name at the last moment that is refused.
abbrev later_calls : List (NamedCall tenths)
later_calls =
    record { name = 2 ∷ []; made = record failed_call { now = pos 90000 } }
    ∷ record {
      name = 1 ∷ [];
      made = record failed_call { now = pos 32000; run = none; fail = some (some []) };
    }
    ∷ []

trips_example :
    let result = cb_calls tenths (first_call ∷ later_calls) ((1 ∷ [], failing) ∷ []) in
    Refused tenths (1 ∷ []) (first_call ∷ later_calls) result.1
    × (lookup (1 ∷ []) result.0 ≡ some opened)
unfolding eq_bytes easycall.Base.lookup
trips_example =
    trips tenths first_call later_calls ((1 ∷ [], failing) ∷ []) failing refl refl
      (unfold over_limit in refl) ((λ e. cc), ((λ e. unfold wrap ◌+ℤ◌ in refl), tt))
