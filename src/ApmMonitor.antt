-- ===== src/ApmMonitor.antt =====
-- apm_monitor.go: how often the methods of a service are called, how often they fail and how long
-- they take. A status is an object in `heap`, and a pointer to it is its index there. `reports` has
-- what `OnData` was called with.
pub mod Tally
pub mod Passes
pub mod Sums
pub mod Steps
pub mod Counts
mod Tests
use easycall.Base.{
  ℕ, zero, suc, ◌+◌, ◌/◌, ◌%◌, ◌^◌, Bytes, Bool, true, false, not, Option, none, some, List, [],
  ◌∷◌, ◌++◌, length, get_elem?, set, lookup, insert, bytes_key, ltb, if◌then◌else◌, Outcome, panic,
  or_panic, ◌>>=◌, ok,
}
use easycall.Base.Int.{ℤ, pos, eq_ℤ}
use easycall.Head.{EasyHead}
use easycall.Middleware.{Middleware}
use easycall.Service.{Exchange}

pub record ApmMonitorStatus : Type 0 where
  pub total : ℕ
  pub error : ℕ
  pub time : ℕ

pub record ApmMonitor : Type 0 where
  pub statuses : List (Bytes × ℕ)
  pub heap : List ApmMonitorStatus
  pub reports : List (List (Bytes × ApmMonitorStatus))

abbrev pub new_apm_monitor : ApmMonitor
new_apm_monitor = record { statuses = []; heap = []; reports = [] }

abbrev pub new_status : ApmMonitorStatus
new_status = record { total = 0; error = 0; time = 0 }

-- `atomic.AddUint64`
unfoldable pub add_uint64 : ℕ → ℕ → ℕ
add_uint64 a b = (a + b) % 2 ^ 64

-- The section under the lock: the status of the method, made at its first call.
unfoldable pub find_status : Bytes → ApmMonitor → ApmMonitor × ℕ
find_status method am = elim (lookup method am.statuses) [
  | some status ↦ (am, status)
  | none ↦
      let status = length am.heap in
      (
        record am {
          heap = am.heap ++ new_status ∷ [];
          statuses = insert method status am.statuses;
        },
        status,
      )
]

unfoldable pub at_status : ℕ → (ApmMonitorStatus → ApmMonitorStatus) → ApmMonitor → ApmMonitor
at_status status f am = elim (get_elem? am.heap status) [
  | none ↦ am
  | some s ↦ record am { heap = set am.heap status (f s) }
]

abbrev pub add_total : ApmMonitorStatus → ApmMonitorStatus
add_total s = record s { total = add_uint64 s.total 1 }

abbrev pub add_time : ℕ → ApmMonitorStatus → ApmMonitorStatus
add_time spend_time s = record s { time = add_uint64 s.time spend_time }

abbrev pub add_error : ApmMonitorStatus → ApmMonitorStatus
add_error s = record s { error = add_uint64 s.error 1 }

-- Whether the reply has a head, with a code that is not 0.
abbrev pub is_failed : Option EasyHead → Bool
is_failed none = false
is_failed (some head) = not (eq_ℤ head.ret (pos 0))

-- What follows the call of `next`.
unfoldable pub leave : ℕ → ℕ → Bool → ApmMonitor → ApmMonitor
leave status spend_time failed am =
    let am' = at_status status (add_time spend_time) am in
    if failed then at_status status add_error am' else am'

-- `ApmMonitor.Middleware`; `spend_time` is what the clock shows for the call of `next`.
unfoldable pub monitor : {Body : Type 0} → ℕ → Middleware (Exchange Body × ApmMonitor)
monitor spend_time next (x, am) = do
  head ← or_panic (get_elem? x.heads x.req.head)
  let (am', status) = find_status head.method am
  run ← or_panic next
  out ← run (x, at_status status add_total am')
  ok (out.0, leave status spend_time (is_failed (get_elem? out.0.heads out.0.resp.head)) out.1)

-- The write of a mean time by itself.
abbrev pub with_time : ℕ → ApmMonitorStatus → ApmMonitorStatus
with_time t s = record s { time = t }

-- The mean time, where there was a call.
abbrev pub mean : ApmMonitorStatus → ApmMonitorStatus
mean s = if ltb 0 s.total then record s { time = s.time / s.total } else s

-- The loop over the statuses that were taken.
unfoldable pub average : List (Bytes × ℕ) → ApmMonitor → ApmMonitor
average [] am = am
average ((method, status) ∷ rest) am = average rest (at_status status mean am)

-- What `OnData` gets to read.
unfoldable pub read_statuses :
    List (Bytes × ℕ) → List ApmMonitorStatus → List (Bytes × ApmMonitorStatus)
read_statuses [] heap = []
read_statuses ((method, status) ∷ rest) heap =
    let later = read_statuses rest heap in
    elim (get_elem? heap status) [ none ↦ later | some s ↦ (method, s) ∷ later ]

-- The section under the lock.
unfoldable pub take_statuses : ApmMonitor → ApmMonitor × List (Bytes × ℕ)
take_statuses am = (record am { statuses = [] }, am.statuses)

-- `reportAndReset`, at one tick.
unfoldable pub report_and_reset : ApmMonitor → ApmMonitor
report_and_reset am =
    let (am', statuses) = take_statuses am in
    let am'' = average statuses am' in
    record am'' { reports = am''.reports ++ read_statuses statuses am''.heap ∷ [] }
