-- ===== src/ApmMonitor/Tests.antt =====
-- A monitor at concrete calls.
use easycall.Base.{
  ◌+◌, ◌≤◌, ◌≡◌, refl, Bytes, true, false, none, some, List, [], ◌∷◌, set, Outcome, ok, eq_bytes,
  lookup, insert, arith,
}
use easycall.Base.Int.{pos}
use easycall.Head.{new_easy_head, set_method, set_ret}
use easycall.Service.{Exchange, new_exchange}
use easycall.ApmMonitor.{
  new_apm_monitor, add_uint64, find_status, at_status, leave, monitor, average, read_statuses,
  take_statuses, report_and_reset,
}
use easycall.ApmMonitor.Tally.{Done, one_call, run_calls, view}
use easycall.ApmMonitor.Sums.{run_calls_sums}
use easycall.ApmMonitor.Passes.{beside, monitor-beside}
use easycall.ApmMonitor.Steps.{Run, enter, count, add_spent, fail, swap, Reach, start, step}
use easycall.ApmMonitor.Counts.{Reach-IsCounted}

abbrev three : List Done
three =
    record { method = 109 ∷ []; spend_time = 30; failed = false }
    ∷ record { method = 110 ∷ []; spend_time = 5; failed = false }
    ∷ record { method = 109 ∷ []; spend_time = 20; failed = true }
    ∷ []

-- The report has the mean time, and the next one starts from nothing.
report_of_three : (report_and_reset (run_calls three new_apm_monitor)).reports ≡ (
    ((109 ∷ [], record { total = 2; error = 1; time = 25 })
      ∷ (110 ∷ [], record { total = 1; error = 0; time = 5 })
      ∷ [])
    ∷ [])
unfolding report_and_reset take_statuses average read_statuses at_status find_status leave
    add_uint64 lookup insert eq_bytes
report_of_three = refl

run_calls_sums_example :
    view (109 ∷ []) (run_calls three new_apm_monitor)
    ≡ some (record { total = 2; error = 1; time = 50 })
unfolding eq_bytes
run_calls_sums_example = run_calls_sums three (109 ∷ [])

-- A service whose method sets the code 2001 in the head.
abbrev failing : Exchange Bytes → Outcome (Exchange Bytes)
failing x =
    ok (record x {
      heads = set x.heads 0 (set_ret (set_method new_easy_head (109 ∷ [])) (pos 2001));
    })

abbrev exchange : Exchange Bytes
exchange =
    new_exchange (pos 1)
      (record {
        format = 0;
        head = set_method new_easy_head (109 ∷ []);
        body_data = [];
        pkg_data = [];
        body = none;
      })
      (record { is_close = true; write_chan = none })

failure_counted :
    monitor 7 (some (beside failing)) (exchange, new_apm_monitor)
    ≡ ok (
      record exchange {
        heads = set exchange.heads 0 (set_ret (set_method new_easy_head (109 ∷ [])) (pos 2001));
      },
      one_call (record { method = 109 ∷ []; spend_time = 7; failed = true }) new_apm_monitor,
    )
unfolding new_exchange
failure_counted =
    monitor-beside 7 failing exchange
      (record exchange {
        heads = set exchange.heads 0 (set_ret (set_method new_easy_head (109 ∷ [])) (pos 2001));
      })
      (set_method new_easy_head (109 ∷ [])) new_apm_monitor refl refl

-- One call arrives and counts itself, a report takes the statuses, and the call then fails.
abbrev busy : Run
busy = record {
  apm = record {
    statuses = [];
    heap = record { total = 1; error = 1; time = 9 } ∷ [];
    reports = [];
  };
  arrived = [];
  running = [];
  timed = [];
  started = 1;
}

busy_reached : Reach busy
unfolding find_status at_status add_uint64 lookup insert take_statuses
busy_reached =
    step
      (step (step (step (step start (enter (109 ∷ []))) (count 0 [] [] refl)) swap)
        (add_spent 0 9 [] [] refl))
      (fail 0 [] [] refl)

Reach-IsCounted_example : (1 + 0 ≤ 1) × (1 ≤ 1)
Reach-IsCounted_example =
    Reach-IsCounted busy_reached (omega arith) 0 (record { total = 1; error = 1; time = 9 }) refl
