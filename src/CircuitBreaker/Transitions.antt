-- ===== src/CircuitBreaker/Transitions.antt =====
-- The state machine of `CbCall`: when `run` is called, and how the status moves.
use easycall.Base.{◌≡◌, ◌≢◌, Bytes, true, false, Option, if◌then◌else◌, arith}
use easycall.Base.Int.{ℤ, pos, add64, ltb_ℤ, ◌<ℤ◌, ◌≤ℤ◌}
use easycall.CircuitBreaker.{
  FloatOps, open_status, close_status, limit_status, CbInfo, expire, leave_limit, reset, begin,
  finish, refusal, passes, over_limit, admit, call_info,
}

module _ {F : Type 0} (ops : FloatOps F) (now : ℤ) (draw : F) (info : CbInfo F) where
  -- The time of an open breaker is not over.
  abbrev pub IsWaiting : Type 0
  IsWaiting = ltb_ℤ (add64 info.last_circuit_breaker_time info.fail_time) now ≡ false

  -- While the breaker is open and its time is not over, a call changes nothing, does not call
  -- `run`, and returns what `fail` returns, or no error if there is no `fail`.
  pub open_rejects :
      (run : Option Bytes) (fail : Option (Option Bytes))
      → info.status ≡ open_status
      → IsWaiting
      → call_info ops now draw run fail info ≡ (info, false, refusal fail)
  unfolding call_info admit expire passes
  open_rejects run fail s w = ground arith

  -- Whatever the state was: after a call that runs, the breaker is not open; after one that is
  -- refused, it is not closed.
  pub admit_status :
      ((admit ops now draw info).1 ≡ true → (admit ops now draw info).0.status ≢ open_status)
      × ((admit ops now draw info).1 ≡ false → (admit ops now draw info).0.status ≢ close_status)
  unfolding admit expire passes leave_limit reset
  admit_status = ((λ h. ground arith), (λ h. ground arith))

  over_limit_base : over_limit ops info ≡ true → info.count_base <ℤ info.invoke_count
  unfolding over_limit
  over_limit_base h = ground arith

  opens_parts :
      info.status ≢ open_status
      → (admit ops now draw info).0.status ≡ open_status
      → (over_limit ops info ≡ true)
        × (passes ops draw info ≡ true)
        × (admit ops now draw info
            ≡ (record info { status = open_status; last_circuit_breaker_time = now }, false))
  unfolding admit expire passes leave_limit reset
  opens_parts s e = (ground arith, ground arith, ground arith)

  -- A call turns the breaker open only where the call would pass, more calls than the base were
  -- counted and the failure rate is above its limit. It notes the time, keeps the counters and all
  -- else, and does not call `run`.
  pub opens_only :
      info.status ≢ open_status
      → (admit ops now draw info).0.status ≡ open_status
      → (over_limit ops info ≡ true)
        × (passes ops draw info ≡ true)
        × (info.count_base <ℤ info.invoke_count)
        × (admit ops now draw info
            ≡ (record info { status = open_status; last_circuit_breaker_time = now }, false))
  opens_only s e = let (o, p, a) = opens_parts s e in (o, p, over_limit_base o, a)

  fresh_within :
      pos 1 ≤ℤ info.count_base
      → over_limit ops (record info {
        status = limit_status;
        fail_count = pos 0;
        invoke_count = pos 1;
        last_limit_pass_time = now;
        last_circuit_breaker_time = pos 0;
      })
        ≡ false
  unfolding over_limit
  fresh_within h = ground arith

  -- The first call after the time of an open breaker is over turns it to limited passage with fresh
  -- counters, and calls `run` exactly if the draw is below the rate of passage. The base must be at least 1, and
  -- the time of limited passage not already over.
  pub recovers :
      info.status ≡ open_status
      → ltb_ℤ (add64 info.last_circuit_breaker_time info.fail_time) now ≡ true
      → pos 1 ≤ℤ info.count_base
      → ltb_ℤ (add64 now info.limit_time) now ≡ false
      → admit ops now draw info ≡ (
        record info {
          status = limit_status;
          fail_count = pos 0;
          invoke_count = pos 1;
          last_limit_pass_time = now;
          last_circuit_breaker_time = pos 0;
        },
        ops.ltb draw info.limit_rate,
      )
  unfolding admit expire passes leave_limit reset
  recovers s over base limit = ground (arith, fresh_within base)

  -- In limited passage, a call that passes after the time of limited passage, with the failure rate
  -- within its limit, closes the breaker with fresh counters and calls `run`.
  pub limit_closes :
      info.status ≡ limit_status
      → ops.ltb draw info.limit_rate ≡ true
      → over_limit ops info ≡ false
      → ltb_ℤ (add64 info.last_limit_pass_time info.limit_time) now ≡ true
      → ((admit ops now draw info).1 ≡ true)
        × ((admit ops now draw info).0.status ≡ close_status)
        × ((admit ops now draw info).0.invoke_count ≡ pos 1)
        × ((admit ops now draw info).0.fail_count ≡ pos 0)
  unfolding admit expire passes leave_limit reset
  limit_closes s d o t = (ground arith, ground arith, ground arith, ground arith)

  -- A closed breaker within its limit calls `run`, returns its error, and counts the call and the
  -- failure; where the counters are due for a reset, from one call and no failure on.
  pub closed_runs :
      (run : Option Bytes) (fail : Option (Option Bytes))
      → info.status ≡ close_status
      → over_limit ops info ≡ false
      → call_info ops now draw run fail info ≡ (
          if ltb_ℤ (add64 info.last_reset_time info.reset_time) now
          then (
            finish run (
                begin (record info {
                  last_reset_time = now;
                  fail_count = pos 0;
                  invoke_count = pos 1;
                })),
            true,
            run,
          )
          else (finish run (begin info), true, run))
  unfolding call_info admit expire passes leave_limit reset
  closed_runs run fail s o = ground arith
