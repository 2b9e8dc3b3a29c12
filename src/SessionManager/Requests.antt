-- ===== src/SessionManager/Requests.antt =====
-- What one request and its answer do to the manager.
use easycall.Base.{
  ℕ, ◌+◌, ◌%◌, ◌^◌, ◌≡◌, ◌≢◌, refl, ap, ◌∙◌, true, false, none, some, List, [], ◌∷◌, ◌++◌, length,
  get_elem?, set, lookup, insert, delete, nat_key, ◌==◌, if◌then◌else◌, arith, Bool-cases, inl, inr,
  lookup-insert_self, lookup-insert_ne, lookup-delete_self, lookup-delete_ne, get_elem?-append,
}
use easycall.Base.Int.{negsuc}
use easycall.SessionManager.{
  EasySession, EasySessionManager, get_session, add_active, init_session, take_out, answered,
  deliver, destory_session_and_resp_pkg, process,
}

module _ {Pkg : Type 0} where
  -- The sequence number of the next session.
  abbrev pub next_seq : EasySessionManager Pkg → ℕ
  next_seq esm = (esm.seq + 1) % 2 ^ 64

  abbrev new_session : ℕ → EasySessionManager Pkg → EasySession Pkg
  new_session node esm = record {
    seq = next_seq esm;
    resp_chan = true;
    timer = true;
    node = node;
    received = [];
  }

  process_answer :
      (seq i : ℕ) (p : Pkg) (esm : EasySessionManager Pkg) (s : EasySession Pkg)
      → seq ≢ 0
      → get_session seq esm ≡ some i
      → get_elem? esm.sessions i ≡ some s
      → process seq p esm ≡ (record esm {
        session_map = delete s.seq esm.session_map;
        sessions = set esm.sessions i (answered (some p) s);
        active = if s.resp_chan then add_active esm.active s.node (negsuc 0) else esm.active;
      })
  unfolding process destory_session_and_resp_pkg take_out deliver
  process_answer seq i p esm s h m e = elim (Bool-cases (seq == 0)) [
    | inl z ↦ ground arith
    | inr z ↦ rw (z, m, destory_session_and_resp_pkg, take_out, e, deliver, e, take_out, e) refl
  ]

  process_new :
      (node : ℕ) (p : Pkg) (esm : EasySessionManager Pkg)
      → next_seq esm ≢ 0
      → process (next_seq esm) p (init_session node esm).0 ≡ (record (init_session node esm).0 {
        session_map =
            delete (next_seq esm) (insert (next_seq esm) (length esm.sessions) esm.session_map);
        sessions =
            set
              (esm.sessions ++ new_session node esm ∷ [])
              (length esm.sessions)
              (answered (some p) (new_session node esm));
        active = add_active (init_session node esm).0.active node (negsuc 0);
      })
  unfolding init_session get_session
  process_new node p esm h =
      process_answer (next_seq esm) (length esm.sessions) p (init_session node esm).0
        (new_session node esm) h
        (lookup-insert_self (next_seq esm) (length esm.sessions) esm.session_map)
        (get_elem?-append esm.sessions (new_session node esm) [])

  set-append_last :
      (ss : List (EasySession Pkg)) (s v : EasySession Pkg)
      → set (ss ++ s ∷ []) (length ss) v ≡ ss ++ v ∷ []
  set-append_last [] s v = refl
  set-append_last (x ∷ ss) s v = ap (◌∷◌ x) (set-append_last ss s v)

  -- While no other step comes between, the answer with the sequence number of a new session, which
  -- is not 0, is what the session receives. It closes the session's channel and stops its timer,
  -- takes its number out of the map and no other, and leaves every other session as it was.
  pub process-init_session :
      (node : ℕ) (p : Pkg) (esm : EasySessionManager Pkg)
      → next_seq esm ≢ 0
      → let done = process (next_seq esm) p (init_session node esm).0 in
        (done.sessions
          ≡ esm.sessions
            ++ record {
              seq = next_seq esm;
              resp_chan = false;
              timer = false;
              node = node;
              received = some p ∷ [];
            }
              ∷ [])
        × (get_session (next_seq esm) done ≡ none)
        × ((k : ℕ) → next_seq esm ≢ k → get_session k done ≡ get_session k esm)
  unfolding get_session answered
  process-init_session node p esm h =
      let e = process_new node p esm h in
      (
        ap (λ m. m.sessions) e ∙ set-append_last esm.sessions (new_session node esm) _,
        ap (λ m. lookup (next_seq esm) m.session_map) e ∙ lookup-delete_self (next_seq esm) _,
        λ k ne.
            ap (λ m. lookup k m.session_map) e
            ∙ lookup-delete_ne (next_seq esm) k _ ne
            ∙ lookup-insert_ne (next_seq esm) k (length esm.sessions) esm.session_map ne,
      )
