-- ===== src/Auth/Startup.antt =====
-- src/auth/startup_bootstrapper.cpp: the start of the client before requests are accepted. The events of
-- the receiver thread are lists: those until the first wait returns, those between the two reads of the
-- manager, and those until the second wait returns. A wait answers whether its condition holds then.
pub mod Tests
use telegram_rest_gateway.Prelude.{
  ℕ, zero, suc, ◌+◌, ◌-◌, ◌*◌, ◌/◌, ◌%◌, ◌^◌, ◌≤◌, ◌<◌, min, max, ◌≡◌, refl, sym, ap, ◌∙◌, subst,
  ◌≢◌, ◌↔◌, ◌⊎◌, inl, inr, Bool, true, false, ◌&&◌, ◌||◌, not, Option, none, some, List, [], ◌∷◌,
  ◌++◌, map, arith, ltb, leb, ltb→lt, lt→ltb, leb→le, if◌then◌else◌, Bool-cases, Option-cases, Eq,
  ◌==◌, eq_refl, nat_eq, Bytes, bytes_beq_iff, nat_beq_iff, bytes_eq, codes, length, get_elem?,
  get_or, take, drop, keep_if, all, any, length-append, length-keep_if-le, take-append-drop,
  length-take, length-drop, drop-append, take-append, All, All-append, All-map, All-keep_if, All-at,
  some-injective,
}
use telegram_rest_gateway.Prelude.Int.{ℤ}
use telegram_rest_gateway.Config.Load.{Config}
use telegram_rest_gateway.Auth.AuthState.{TdAuthState, AuthState, auth_state_from_td}
use telegram_rest_gateway.Auth.StateManager.{
  Manager, init, counter_mod, set_state, take_payload, Update, authorization_state, other_update,
  on_update, first_seen, changed_since, Event, updates, step, run,
}
use telegram_rest_gateway.Auth.StateManager.Callbacks.{states_in, last_state}

-- setTdlibParameters
pub record Parameters : Type 0 where
  pub use_test_dc : Bool
  pub database_directory : Bytes
  pub files_directory : Bytes
  pub database_encryption_key : Bytes
  pub use_file_database : Bool
  pub use_chat_info_database : Bool
  pub use_message_database : Bool
  pub use_secret_chats : Bool
  pub api_id : ℤ
  pub api_hash : Bytes
  pub system_language_code : Bytes
  pub device_model : Bytes
  pub system_version : Bytes
  pub application_version : Bytes

unfoldable pub build_parameters : Config → Parameters
build_parameters c = record {
  use_test_dc = c.use_test_dc;
  database_directory = c.database_directory;
  files_directory = c.files_directory;
  database_encryption_key = c.database_encryption_key;
  use_file_database = false;
  use_chat_info_database = false;
  use_message_database = false;
  use_secret_chats = false;
  api_id = c.api_id;
  api_hash = c.api_hash;
  system_language_code = codes "en";
  device_model = codes "telegram-rest-gateway";
  system_version = [];
  application_version = c.application_version;
}

-- What is sent to TDLib without waiting for an answer.
pub data OneWay : Type 0 where
  get_option : Bytes → OneWay
  set_tdlib_parameters : Parameters → OneWay

abbrev pub waits_parameters : AuthState → Bool
waits_parameters AuthState.wait_tdlib_parameters = true
waits_parameters _ = false

-- What run returns, and what it sent, in order.
unfoldable pub run_startup :
    Config → Manager → List Event → List Event → List Event → Bool × List OneWay
unfolding build_parameters run first_seen changed_since
run_startup c m first between during =
    let started = run m first in
    let version = get_option (codes "version") in
    let gen = (run started between).generation in
    if not (first_seen started)
    then (false, version ∷ [])
    else if waits_parameters started.state
    then (
      changed_since (run (run started between) during) gen,
      version ∷ set_tdlib_parameters (build_parameters c) ∷ [],
    )
    else (true, version ∷ [])

take_payload-generation :
    (m : Manager) (td : TdAuthState) → (take_payload m td).generation ≡ m.generation
unfolding take_payload
take_payload-generation m (TdAuthState.wait_other_device_confirmation link) = refl
take_payload-generation m (TdAuthState.wait_code info) = refl
take_payload-generation m _ = refl

-- The state is the last one reported, and the generation counts the reports.
run-state :
    (m : Manager) (us : List (Option Update))
    → m.generation + states_in us < counter_mod
    → let m' = run m (map updates us) in
      (m'.state ≡ last_state m.state us) × (m'.generation ≡ m.generation + states_in us)
unfolding run step on_update set_state
run-state m [] h = (refl, omega arith)
run-state m (none ∷ us) h = let (s, g) = run-state m us (omega arith) in (s, omega (arith, g))
run-state m (some (authorization_state none) ∷ us) h =
    let (s, g) = run-state m us (omega arith) in (s, omega (arith, g))
run-state m (some other_update ∷ us) h =
    let (s, g) = run-state (on_update m (some other_update)) us (omega arith) in
    (s, omega (arith, g))
run-state m (some (authorization_state (some td)) ∷ us) h =
    let next = on_update m (some (authorization_state (some td))) in
    let counts : next.generation ≡ m.generation + 1 = omega (arith, take_payload-generation m td) in
    let (s, g) = run-state next us (omega (arith, counts)) in (s, omega (arith, g, counts))

-- From the first manager, with fewer than 2^64 reports: the parameters are sent exactly if the state that the
-- first wait ends with asks for them, and run succeeds exactly if a state was reported before the end of the
-- first wait and, where the parameters were sent, one more, which may be the same, after the generation
-- was read.
pub run_startup-init :
    (c : Config) (first between during : List (Option Update))
    → states_in first + states_in between + states_in during < counter_mod
    → let asks = ltb 0 (states_in first) && waits_parameters (last_state AuthState.unknown first) in
      run_startup c init (map updates first) (map updates between) (map updates during) ≡ (
        ltb 0 (states_in first) && (not asks || ltb 0 (states_in during)),
        get_option (codes "version")
            ∷ (if asks then set_tdlib_parameters (build_parameters c) ∷ [] else []),
      )
unfolding run_startup first_seen changed_since init
run_startup-init c first between during h =
    let started = run init (map updates first) in
    let (s, g) = run-state init first (omega arith) in
    let (_, g') = run-state started between (omega (arith, g)) in
    let (_, g'') = run-state (run started (map updates between)) during (omega (arith, g, g')) in
    ground (arith, s, g, g', g'')
