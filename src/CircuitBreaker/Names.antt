-- ===== src/CircuitBreaker/Names.antt =====
-- The table of breakers: each name has its own, and `CbConfigure` changes settings only.
use easycall.Base.{
  ◌≡◌, ◌≢◌, refl, Bytes, Option, some, List, lookup, insert, lookup-insert_self, lookup-insert_ne,
  insert-insert, bytes_key,
}
use easycall.Base.Int.{ℤ}
use easycall.CircuitBreaker.{
  FloatOps, CbInfo, find_info, default_info, new_info, call_info, cb_call, cb_configure,
}

find_info-insert :
    {F : Type 0} (fresh info : CbInfo F) (name : Bytes) (infos : List (Bytes × CbInfo F))
    → find_info fresh name (insert name info infos) ≡ info
unfolding find_info
find_info-insert fresh info name infos = rw (lookup-insert_self name info infos, find_info) refl

module _ {F : Type 0} (ops : FloatOps F) where
  -- A call is decided by the state of its own name alone, made at the first use; it leaves that
  -- state changed as `call_info` says, and the state of every other name as it was.
  pub cb_call_own :
      (now : ℤ) (draw : F) (run : Option Bytes) (fail : Option (Option Bytes)) (name : Bytes)
      (infos : List (Bytes × CbInfo F))
      → let before = find_info (default_info ops now) name infos in
        (lookup name (cb_call ops now draw run fail name infos).0
          ≡ some (call_info ops now draw run fail before).0)
        × ((cb_call ops now draw run fail name infos).1
            ≡ (call_info ops now draw run fail before).1)
        × ((cb_call ops now draw run fail name infos).2
            ≡ (call_info ops now draw run fail before).2)
        × ((other : Bytes)
            → name ≢ other
            → lookup other (cb_call ops now draw run fail name infos).0 ≡ lookup other infos)
  unfolding cb_call
  cb_call_own now draw run fail name infos = (
    lookup-insert_self name _ infos,
    refl,
    refl,
    λ other ne. lookup-insert_ne name other _ infos ne,
  )

  -- After `CbConfigure`, the next call of the name works with the given settings, and with the
  -- counters, times and status of before; a name used for the first time starts closed.
  pub configured_call :
      (made : ℤ) (fail_rate limit_rate : F) (count_base fail_time limit_time reset_time : ℤ)
      (now : ℤ) (draw : F) (run : Option Bytes) (fail : Option (Option Bytes)) (name : Bytes)
      (infos : List (Bytes × CbInfo F))
      → let fresh = new_info made fail_rate limit_rate count_base fail_time limit_time reset_time in
        cb_call ops now draw run fail name (
          cb_configure made name fail_rate limit_rate count_base fail_time limit_time reset_time
            infos)
        ≡ (let result = call_info ops now draw run fail (record (find_info fresh name infos) {
          fail_rate = fail_rate;
          limit_rate = limit_rate;
          count_base = count_base;
          fail_time = fail_time;
          limit_time = limit_time;
          reset_time = reset_time;
        }) in
            (insert name result.0 infos, result.1, result.2))
  unfolding cb_call cb_configure
  configured_call made fail_rate limit_rate count_base fail_time limit_time reset_time now draw run
        fail name infos =
      rw
        (
          find_info-insert (default_info ops now) settings name infos,
          insert-insert name (call_info ops now draw run fail settings).0 settings infos,
        )
        refl
    where
      settings : CbInfo F
      settings =
          record (find_info
            (new_info made fail_rate limit_rate count_base fail_time limit_time reset_time) name
            infos) {
              fail_rate = fail_rate;
              limit_rate = limit_rate;
              count_base = count_base;
              fail_time = fail_time;
              limit_time = limit_time;
              reset_time = reset_time;
            }
