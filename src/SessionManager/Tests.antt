-- ===== src/SessionManager/Tests.antt =====
-- The manager at concrete inputs; packages are numbers here.
use easycall.Base.{
  ℕ, ◌≡◌, ◌≢◌, refl, false, none, some, [], ◌∷◌, lookup, insert, delete, nat_key, arith,
}
use easycall.Base.Int.{pos, wrap, ◌+ℤ◌}
use easycall.SessionManager.{
  EasySessionManager, get_session, add_session, remove_session, init_session, take_out, deliver,
  destory_session_and_resp_pkg, process, request, taken, delivered, here, next,
}
use easycall.SessionManager.Delivery.{IsSound, Reach-IsSound, deliver-deliver}
use easycall.SessionManager.Requests.{process-init_session}

abbrev fresh : EasySessionManager ℕ
fresh = record { session_map = []; seq = 0; sessions = []; active = λ n. pos 0 }

fresh-IsSound : IsSound fresh
fresh-IsSound = record { settled = tt; counted = λ n lt. refl }

-- Two requests, the second one first.
abbrev two : EasySessionManager ℕ
two = (init_session 5 (init_session 5 fresh).0).0

two_active : two.active 5 ≡ pos 2
unfolding init_session wrap ◌+ℤ◌
two_active = refl

answered_two : (process 2 70 two).active 5 ≡ pos 1
unfolding process get_session destory_session_and_resp_pkg take_out deliver init_session wrap ◌+ℤ◌
    lookup insert
answered_two = refl

answered_unknown : process 3 70 two ≡ two
unfolding process get_session init_session lookup insert
answered_unknown = refl

removed : get_session 9 (remove_session 9 (add_session 9 0 fresh)) ≡ none
unfolding get_session remove_session add_session lookup insert delete
removed = refl

Reach-IsSound_example :
    IsSound (deliver 0 (some 7) (deliver 0 none (take_out 0 (init_session 5 fresh).0)))
Reach-IsSound_example =
    Reach-IsSound {a = fresh} fresh-IsSound (
      next (next (next (next here (request 5)) (taken 0)) (delivered 0 none))
        (delivered 0 (some 7)))

delivered_once :
    deliver 0 (some 7) (deliver 0 none (init_session 5 fresh).0)
    ≡ deliver 0 none (init_session 5 fresh).0
delivered_once = deliver-deliver 0 none (some 7) (init_session 5 fresh).0

two_answered :
    let done = process 1 70 (init_session 5 fresh).0 in
    (done.sessions
      ≡ record { seq = 1; resp_chan = false; timer = false; node = 5; received = some 70 ∷ [] }
        ∷ [])
    × (get_session 1 done ≡ none)
    × ((k : ℕ) → 1 ≢ k → get_session k done ≡ get_session k fresh)
two_answered = process-init_session 5 70 fresh (λ e. omega arith)
