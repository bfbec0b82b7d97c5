-- ===== src/Auth/Startup/Tests.antt =====
-- A start without a session, and one that stays silent.
use telegram_rest_gateway.Prelude.{
  ◌≡◌, refl, true, false, Option, some, List, [], ◌∷◌, map, arith, nat_eq, bytes_eq, codes,
}
use telegram_rest_gateway.Config.Load.{defaults}
use telegram_rest_gateway.Auth.AuthState.{TdAuthState, auth_state_from_td}
use telegram_rest_gateway.Auth.StateManager.{
  init, Update, authorization_state, other_update, updates, step, run, on_update, set_state,
  take_payload, first_seen, changed_since,
}
use telegram_rest_gateway.Auth.Startup.{
  get_option, set_tdlib_parameters, build_parameters, run_startup, run_startup-init,
}

abbrev asking : List (Option Update)
asking =
    some other_update ∷ some (authorization_state (some TdAuthState.wait_tdlib_parameters)) ∷ []

abbrev waiting : List (Option Update)
waiting = some (authorization_state (some TdAuthState.wait_phone_number)) ∷ []

run_startup-init_example :
    run_startup defaults init (map updates asking) (map updates []) (map updates waiting)
    ≡ (true, get_option (codes "version") ∷ set_tdlib_parameters (build_parameters defaults) ∷ [])
unfolding auth_state_from_td
run_startup-init_example = run_startup-init defaults asking [] waiting (omega arith)

-- The parameters are refused: the state does not change.
no_change :
    (run_startup defaults init (map updates asking) (map updates []) (map updates [])).0 ≡ false
unfolding run_startup init run step on_update set_state take_payload auth_state_from_td first_seen
    changed_since
no_change = refl

-- Parameters that TDLib asks for again: run succeeds in the state that asks for them.
asked_again :
    (run_startup defaults init (map updates asking) (map updates []) (map updates asking)).0 ≡ true
unfolding run_startup init run step on_update set_state take_payload auth_state_from_td first_seen
    changed_since
asked_again = refl
