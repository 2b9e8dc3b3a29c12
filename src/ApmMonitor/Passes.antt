-- ===== src/ApmMonitor/Passes.antt =====
-- The middleware of the monitor, around the rest of the chain.
use easycall.Base.{ℕ, ◌≡◌, refl, some, get_elem?, Outcome, ok, ◌>>=◌}
use easycall.Head.{EasyHead}
use easycall.Service.{Exchange}
use easycall.ApmMonitor.{ApmMonitor, is_failed, monitor}
use easycall.ApmMonitor.Tally.{one_call}

module _ {Body : Type 0} where
  -- The rest of a chain that does not touch the monitor.
  abbrev pub beside :
      (Exchange Body → Outcome (Exchange Body))
      → Exchange Body × ApmMonitor
      → Outcome (Exchange Body × ApmMonitor)
  beside run (x, am) = do x' ← run x; ok (x', am)

  -- Where the request has a head and the rest of the chain runs to its end, the monitor leaves the
  -- exchange as the rest of the chain left it, and counts one call of the request's method, failed
  -- if the head of the response has a code then that is not 0.
  pub monitor-beside :
      (spend_time : ℕ) (run : Exchange Body → Outcome (Exchange Body)) (x x' : Exchange Body)
      (head : EasyHead) (am : ApmMonitor)
      → get_elem? x.heads x.req.head ≡ some head
      → run x ≡ ok x'
      → monitor spend_time (some (beside run)) (x, am)
        ≡ ok (
          x',
          one_call
              (record {
                method = head.method;
                spend_time = spend_time;
                failed = is_failed (get_elem? x'.heads x'.resp.head);
              })
              am,
        )
  unfolding monitor
  monitor-beside spend_time run x x' head am e f = rw (monitor, e, f) refl
