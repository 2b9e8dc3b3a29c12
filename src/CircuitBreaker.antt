-- ===== src/CircuitBreaker.antt =====
-- circuit_breaker.go: calls by name, cut off while too many of them fail.
-- float32 is a parameter, `FloatOps`; the clock, the random draw, and the results of the two
-- functions that a call is given are arguments. Each lock makes its section one step, so locks have
-- no state here. Logging is left out.
pub mod Transitions
pub mod Counts
pub mod Names
pub mod Trips
mod Tests
use easycall.Base.{
  ℕ, ◌+◌, Bytes, Bool, true, false, Option, none, some, List, [], ◌∷◌, lookup, insert, bytes_key,
  ◌&&◌, if◌then◌else◌,
}
use easycall.Base.Int.{ℤ, pos, add64, ltb_ℤ}

-- What the source does with float32 values. `literal a b` is the constant a / b.
pub record FloatOps (F : Type 0) : Type 0 where
  pub of_int64 : ℤ → F
  pub div : F → F → F
  pub ltb : F → F → Bool
  pub literal : ℕ → ℕ → F

pub data Status : Type 0 where
  open_status close_status limit_status : Status

abbrev pub is_open : Status → Bool
is_open open_status = true
is_open _ = false

abbrev pub is_close : Status → Bool
is_close close_status = true
is_close _ = false

abbrev pub is_limit : Status → Bool
is_limit limit_status = true
is_limit _ = false

pub record CbInfo (F : Type 0) : Type 0 where
  pub invoke_count : ℤ
  pub fail_count : ℤ
  pub last_circuit_breaker_time : ℤ
  pub last_limit_pass_time : ℤ
  pub last_reset_time : ℤ
  pub status : Status
  pub fail_rate : F
  pub limit_rate : F
  pub count_base : ℤ
  pub fail_time : ℤ
  pub limit_time : ℤ
  pub reset_time : ℤ

-- What a refused call returns: the result of `fail`, if that function is given.
unfoldable pub refusal : Option (Option Bytes) → Option Bytes
refusal none = none
refusal (some result) = result

module _ {F : Type 0} where
  -- `CbInfo{1, 0, 0, 0, timeNow, CB_STATUS_CLOSE, ...}`
  abbrev pub new_info : ℤ → F → F → ℤ → ℤ → ℤ → ℤ → CbInfo F
  new_info now fail_rate limit_rate count_base fail_time limit_time reset_time = record {
    invoke_count = pos 1;
    fail_count = pos 0;
    last_circuit_breaker_time = pos 0;
    last_limit_pass_time = pos 0;
    last_reset_time = now;
    status = close_status;
    fail_rate = fail_rate;
    limit_rate = limit_rate;
    count_base = count_base;
    fail_time = fail_time;
    limit_time = limit_time;
    reset_time = reset_time;
  }

  -- An open breaker whose time is over turns to limited passage, with fresh counters.
  unfoldable pub expire : ℤ → CbInfo F → CbInfo F
  expire now info =
      if is_open info.status && ltb_ℤ (add64 info.last_circuit_breaker_time info.fail_time) now
      then record info {
        status = limit_status;
        fail_count = pos 0;
        invoke_count = pos 1;
        last_limit_pass_time = now;
        last_circuit_breaker_time = pos 0;
      }
      else info

  -- After limited passage the breaker closes.
  unfoldable pub leave_limit : ℤ → CbInfo F → CbInfo F
  leave_limit now info =
      if is_limit info.status && ltb_ℤ (add64 info.last_limit_pass_time info.limit_time) now
      then record info {
        status = close_status;
        invoke_count = pos 1;
        fail_count = pos 0;
        last_limit_pass_time = pos 0;
      }
      else info

  -- A closed breaker forgets its counts now and then.
  unfoldable pub reset : ℤ → CbInfo F → CbInfo F
  reset now info =
      if is_close info.status && ltb_ℤ (add64 info.last_reset_time info.reset_time) now
      then record info { last_reset_time = now; fail_count = pos 0; invoke_count = pos 1 }
      else info

  -- `atomic.AddInt64` on the two counters, before and after the call of `run`.
  unfoldable pub begin : CbInfo F → CbInfo F
  begin info = record info { invoke_count = add64 info.invoke_count (pos 1) }

  unfoldable pub finish : Option Bytes → CbInfo F → CbInfo F
  finish none info = info
  finish (some e) info = record info { fail_count = add64 info.fail_count (pos 1) }

  -- The entry of a name, made at the first use.
  unfoldable pub find_info : CbInfo F → Bytes → List (Bytes × CbInfo F) → CbInfo F
  find_info fresh name infos = elim (lookup name infos) [ none ↦ fresh | some info ↦ info ]

  unfoldable pub cb_configure :
      ℤ → Bytes → F → F → ℤ → ℤ → ℤ → ℤ → List (Bytes × CbInfo F) → List (Bytes × CbInfo F)
  cb_configure now name fail_rate limit_rate count_base fail_time limit_time reset_time infos =
      let fresh = new_info now fail_rate limit_rate count_base fail_time limit_time reset_time in
      let info = find_info fresh name infos in
      insert name
        (record info {
          fail_rate = fail_rate;
          limit_rate = limit_rate;
          count_base = count_base;
          fail_time = fail_time;
          limit_time = limit_time;
          reset_time = reset_time;
        })
        infos

module _ {F : Type 0} (ops : FloatOps F) where
  -- `ptFlag`
  unfoldable pub passes : F → CbInfo F → Bool
  passes draw info = elim info.status [
    | open_status ↦ false
    | limit_status ↦ ops.ltb draw info.limit_rate
    | close_status ↦ true
  ]

  -- The test for too many failures: `f > failRate && invokeCount > countBase`.
  unfoldable pub over_limit : CbInfo F → Bool
  over_limit info =
      ops.ltb info.fail_rate
        (ops.div (ops.of_int64 info.fail_count) (ops.of_int64 info.invoke_count))
      && ltb_ℤ info.count_base info.invoke_count

  -- The section under the lock of the name: the new state, and whether `run` is called.
  unfoldable pub admit : ℤ → F → CbInfo F → CbInfo F × Bool
  admit now draw info =
      let current = expire now info in
      if passes draw current
      then if over_limit current
        then (record current { status = open_status; last_circuit_breaker_time = now }, false)
        else (reset now (leave_limit now current), true)
      else (current, false)

  -- One call with no other under way: the new state, whether `run` was called, and the error.
  unfoldable pub call_info :
      ℤ → F → Option Bytes → Option (Option Bytes) → CbInfo F → CbInfo F × Bool × Option Bytes
  call_info now draw run fail info =
      let (current, passed) = admit now draw info in
      if passed then (finish run (begin current), true, run) else (current, false, refusal fail)

  abbrev pub default_info : ℤ → CbInfo F
  default_info now =
      new_info now (ops.literal 1 2) (ops.literal 1 5) (pos 10) (pos 30000) (pos 30000) (pos 60000)

  unfoldable pub cb_call :
      ℤ
      → F
      → Option Bytes
      → Option (Option Bytes)
      → Bytes
      → List (Bytes × CbInfo F)
      → List (Bytes × CbInfo F) × Bool × Option Bytes
  cb_call now draw run fail name infos =
      let (info, ran, error) =
        call_info now draw run fail (find_info (default_info now) name infos) in
      (insert name info infos, ran, error)
