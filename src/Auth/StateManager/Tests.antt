-- ===== src/Auth/StateManager/Tests.antt =====
-- A login, and the theorems at it.
use telegram_rest_gateway.Prelude.{
  ◌≡◌, refl, false, Option, none, some, List, [], ◌∷◌, map, arith, nat_eq, bytes_eq,
}
use telegram_rest_gateway.Auth.AuthState.{auth_state_from_td, TdAuthState, AuthState}
use telegram_rest_gateway.Auth.StateManager.{
  init, Update, authorization_state, other_update, updates, run,
}
use telegram_rest_gateway.Auth.StateManager.Callbacks.{
  terminations, readies, prepared, run_updates_lem,
}

abbrev login : List (Option Update)
login =
    some (authorization_state (some TdAuthState.wait_tdlib_parameters))
    ∷ none
    ∷ some other_update
    ∷ some (authorization_state (some TdAuthState.ready))
    ∷ some (authorization_state (some TdAuthState.closed))
    ∷ []

login_state : (run init (map updates login)).state ≡ AuthState.closed
unfolding run init auth_state_from_td
login_state = refl

run_updates_lem_example :
    let m = run (prepared false) (map updates login) in
    (m.state ≡ AuthState.closed)
    × (m.generation ≡ 3)
    × (readies m.called ≡ 1)
    × (terminations m.called ≡ 1)
unfolding init auth_state_from_td
run_updates_lem_example = run_updates_lem false login (omega arith)
