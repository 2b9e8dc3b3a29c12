-- ===== src/CircuitBreaker/Counts.antt =====
-- The counters over a history of calls that do not overlap.
use easycall.Base.{
  ◌+◌, ◌<◌, ◌≤◌, ◌≡◌, ◌∙◌, Bytes, Option, none, some, List, [], ◌∷◌, length, arith, Bool-cases, inl,
  inr,
}
use easycall.Base.Int.{ℤ, pos, pos_part, neg_part, half64, wrap_lem, ◌+ℤ◌, add64}
use easycall.CircuitBreaker.{
  FloatOps, CbInfo, new_info, expire, leave_limit, reset, begin, finish, admit, call_info,
}

-- Both counters are natural numbers, and fewer calls failed than were counted.
pub record IsCounted {F : Type 0} (info : CbInfo F) : Type 0 where
  pub invoke_nonneg : neg_part info.invoke_count ≡ 0
  pub fail_nonneg : neg_part info.fail_count ≡ 0
  pub fewer : pos_part info.fail_count < pos_part info.invoke_count

add64_one :
    (a : ℤ) → neg_part a ≡ 0 → pos_part a + 1 < half64 → add64 a (pos 1) ≡ pos (pos_part a + 1)
add64_one a h lt =
    wrap_lem half64 (a +ℤ pos 1) (unfold ◌+ℤ◌ in ground arith) ∙ (unfold ◌+ℤ◌ in ground arith)

finish-IsCounted :
    {F : Type 0} (run : Option Bytes) (info : CbInfo F)
    → IsCounted info
    → pos_part info.invoke_count + 1 < half64
    → IsCounted (finish run (begin info))
      × (pos_part (finish run (begin info)).invoke_count ≤ pos_part info.invoke_count + 1)
unfolding begin finish
finish-IsCounted none info c h =
    let e = add64_one info.invoke_count c.invoke_nonneg h in
    (
      record {
        invoke_nonneg = rw e (omega arith);
        fail_nonneg = c.fail_nonneg;
        fewer = rw e (omega (arith, c.fewer));
      },
      rw e (omega arith),
    )
finish-IsCounted (some m) info c h =
    let e = add64_one info.invoke_count c.invoke_nonneg h in
    let f = add64_one info.fail_count c.fail_nonneg (omega (arith, c.fewer)) in
    (
      record {
        invoke_nonneg = rw e (omega arith);
        fail_nonneg = rw f (omega arith);
        fewer = rw (e, f) (omega (arith, c.fewer));
      },
      rw e (omega arith),
    )

module _ {F : Type 0} (ops : FloatOps F) where
  -- Whatever `admit` does, it keeps the counters or starts them anew.
  admit-IsCounted :
      (now : ℤ) (draw : F) (info : CbInfo F)
      → IsCounted info
      → IsCounted (admit ops now draw info).0
        × (pos_part (admit ops now draw info).0.invoke_count ≤ pos_part info.invoke_count)
  unfolding admit expire leave_limit reset
  admit-IsCounted now draw info c = (ground arith, ground arith)

  call-IsCounted :
      (now : ℤ) (draw : F) (run : Option Bytes) (fail : Option (Option Bytes)) (info : CbInfo F)
      → IsCounted info
      → pos_part info.invoke_count + 1 < half64
      → IsCounted (call_info ops now draw run fail info).0
        × (pos_part (call_info ops now draw run fail info).0.invoke_count
            ≤ pos_part info.invoke_count + 1)
  unfolding call_info
  call-IsCounted now draw run fail info c h =
      let (d, le) = admit-IsCounted now draw info c in
      elim (Bool-cases (admit ops now draw info).1) [
        | inl passed ↦
            let (k, le') = finish-IsCounted run (admit ops now draw info).0 d (omega arith) in
            rw passed (k, omega arith)
        | inr refused ↦ rw refused (d, omega arith)
      ]

  -- One call of a history: the clock, the draw, and what `run` and `fail` return.
  pub record Call : Type 0 where
    pub now : ℤ
    pub draw : F
    pub run : Option Bytes
    pub fail : Option (Option Bytes)

  pub run_calls : List Call → CbInfo F → CbInfo F
  run_calls [] info = info
  run_calls (c ∷ cs) info = run_calls cs (call_info ops c.now c.draw c.run c.fail info).0

  run_calls-bound :
      (cs : List Call) (info : CbInfo F)
      → IsCounted info
      → pos_part info.invoke_count + length cs < half64
      → IsCounted (run_calls cs info)
        × (pos_part (run_calls cs info).invoke_count ≤ pos_part info.invoke_count + length cs)
  unfolding run_calls
  run_calls-bound [] info c h = (c, omega arith)
  run_calls-bound (d ∷ cs) info c h =
      let (k, le) = call-IsCounted d.now d.draw d.run d.fail info c (omega arith) in
      let (k', le') =
        run_calls-bound cs (call_info ops d.now d.draw d.run d.fail info).0 k (omega arith) in
      (k', omega arith)

  -- After any history of fewer than 2^63 - 1 calls that do not overlap, on a new breaker with any
  -- settings, both counters are natural numbers, fewer calls failed than were counted, and no more
  -- were counted than were made, and one.
  pub run_calls-IsCounted :
      (cs : List Call) (made : ℤ) (fail_rate limit_rate : F)
      (count_base fail_time limit_time reset_time : ℤ)
      → length cs + 1 < half64
      → let info = new_info made fail_rate limit_rate count_base fail_time limit_time reset_time in
        IsCounted (run_calls cs info) × (pos_part (run_calls cs info).invoke_count ≤ length cs + 1)
  run_calls-IsCounted cs made fail_rate limit_rate count_base fail_time limit_time reset_time h =
      let (k, le) =
        run_calls-bound cs
          (new_info made fail_rate limit_rate count_base fail_time limit_time reset_time)
          (record { invoke_nonneg = omega arith; fail_nonneg = omega arith; fewer = omega arith })
          (omega arith) in
      (k, omega arith)
