-- ===== src/Pool/Tests.antt =====
-- A slot whose first connection fails, is closed after the redial interval and replaced.
use go_framework.Base.{ℕ, true, false, List, [], ◌∷◌, ◌++◌, none, some, ◌≡◌, refl}
use go_framework.Pool.{
  ready, connecting, is_shutdown, shutdown, new_cc, Observed, new_pool, dial, connected,
  check_conn_state, dial_slot, run_slot, run_checked, dial_new, record_fail, may_redial, fail_at,
  set,
}
use go_framework.Pool.Slots.{held, calls, calls-made, calls-new_failed}

-- The dialler gives a connection that is ready.
abbrev dials : ℕ → ℕ → Observed ℕ
dials c t = record {
  state = connecting;
  rounds = (connecting, false) ∷ [];
  now = t;
  dialed = new_cc c;
  new_rounds = (connecting, true) ∷ (ready, true) ∷ [];
  end_time = t;
}

-- The check of the new connection fails.
abbrev refused : ℕ → ℕ → Observed ℕ
refused c t = record {
  state = connecting;
  rounds = (connecting, false) ∷ [];
  now = t;
  dialed = new_cc c;
  new_rounds = (shutdown, false) ∷ [];
  end_time = t;
}

abbrev history : List (Observed ℕ)
history = refused 1 5 ∷ dials 2 6 ∷ dials 3 300000000006 ∷ []

history-calls : calls history none none ≡ ((some 3, none), (1 ∷ [], 1 ∷ 3 ∷ []))
unfolding calls dial_slot run_slot run_checked dial_new record_fail may_redial fail_at
    check_conn_state
history-calls = refl

calls-made_example :
    held none ++ (calls history none none).1.1
    ≡ (calls history none none).1.0 ++ held (calls history none none).0.0
calls-made_example = calls-made history none none

calls-new_failed_example :
    calls (refused 1 5 ∷ dials 2 6 ∷ dials 3 300000000005 ∷ []) none none
    ≡ ((some 1, some 5), ([], 1 ∷ []))
unfolding check_conn_state
calls-new_failed_example =
    calls-new_failed (refused 1 5) (dials 2 6 ∷ dials 3 300000000005 ∷ []) 1 is_shutdown none refl
      refl (refl, (refl, tt))

first_dial : (dial (dials 7 0) (new_pool 2)).1 ≡ (connected 7, [])
unfolding dial set dial_slot run_slot dial_new record_fail check_conn_state
first_dial = refl
