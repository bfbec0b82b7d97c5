-- ===== src/Auth/StateManager.antt =====
-- src/auth/auth_state_manager.{hpp,cpp}: the authorization state that the receiver thread keeps. Only
-- that thread writes, so each method is one step; a callback that is called is added to a log.
pub mod Callbacks
pub mod Tests
use telegram_rest_gateway.Prelude.{
  ℕ, zero, suc, ◌+◌, ◌-◌, ◌*◌, ◌/◌, ◌%◌, ◌^◌, ◌≤◌, ◌<◌, min, max, ◌≡◌, refl, sym, ap, ◌∙◌, subst,
  ◌≢◌, ◌↔◌, ◌⊎◌, inl, inr, Bool, true, false, ◌&&◌, ◌||◌, not, Option, none, some, List, [], ◌∷◌,
  ◌++◌, map, arith, ltb, leb, ltb→lt, lt→ltb, leb→le, if◌then◌else◌, Bool-cases, Option-cases, Eq,
  ◌==◌, eq_refl, nat_eq, Bytes, bytes_beq_iff, nat_beq_iff, bytes_eq, codes, length, get_elem?,
  get_or, take, drop, keep_if, all, any, length-append, length-keep_if-le, take-append-drop,
  length-take, length-drop, drop-append, take-append, All, All-append,
}
use telegram_rest_gateway.Auth.AuthState.{
  CodeType, TdCodeInfo, TdAuthState, AuthState, auth_state_from_td, is_terminal, is_ready,
}

pub record CodeInfo : Type 0 where
  pub code_type : Bytes
  pub next_type : Bytes
  pub length : ℕ
  pub timeout : ℕ

abbrev pub no_code_info : CodeInfo
no_code_info = record { code_type = []; next_type = []; length = 0; timeout = 0 }

pub data Callback : Type 0 where
  unexpected_termination on_ready : Callback

-- The callbacks themselves are the caller's; the model keeps whether they are set.
pub record Manager : Type 0 where
  pub state : AuthState
  pub expect_shutdown : Bool
  pub termination_reported : Bool
  pub ready_reported : Bool
  pub has_termination : Bool
  pub has_ready : Bool
  pub generation : ℕ
  pub update_count : ℕ
  pub code_info : CodeInfo
  pub qr_link : Bytes
  pub called : List Callback

unfoldable pub init : Manager
init = record {
  state = AuthState.unknown;
  expect_shutdown = false;
  termination_reported = false;
  ready_reported = false;
  has_termination = false;
  has_ready = false;
  generation = 0;
  update_count = 0;
  code_info = no_code_info;
  qr_link = [];
  called = [];
}

-- codeTypeToString: the name, and the length that its out parameter has then.
unfoldable pub code_type_to_string : Option CodeType → ℕ → Bytes × ℕ
code_type_to_string none n = ([], n)
code_type_to_string (some (CodeType.telegram_message k)) n = (codes "telegram_message", k)
code_type_to_string (some (CodeType.sms k)) n = (codes "sms", k)
code_type_to_string (some (CodeType.call k)) n = (codes "call", k)
code_type_to_string (some CodeType.flash_call) n = (codes "flash_call", n)
code_type_to_string (some CodeType.missed_call) n = (codes "missed_call", n)
code_type_to_string (some CodeType.fragment) n = (codes "fragment", n)
code_type_to_string (some CodeType.other) n = (codes "other", n)

unfoldable pub code_info_of : Option TdCodeInfo → CodeInfo
unfolding code_type_to_string
code_info_of none = no_code_info
code_info_of (some info) =
    let (name, n) = code_type_to_string info.code_type 0 in
    let (next, unused) = code_type_to_string info.next_code_type 0 in
    record { code_type = name; next_type = next; length = n; timeout = info.timeout }

abbrev pub counter_mod : ℕ
counter_mod = 2 ^ 64

-- `a && !flag.exchange(true) && callback`: the flag is set also where no callback is.
report : Bool → Bool → Bool → Callback → List Callback → Bool × List Callback
report event reported set callback log =
    if event then (true, (if not reported && set then callback ∷ log else log)) else (reported, log)

unfoldable pub set_state : Manager → AuthState → Manager
unfolding report
set_state m s =
    let (terminated, log) =
      report (is_terminal s && not m.expect_shutdown) m.termination_reported m.has_termination
        unexpected_termination m.called in
    let (ready, log') = report (is_ready s) m.ready_reported m.has_ready on_ready log in
    record m {
      state = s;
      generation = (m.generation + 1) % counter_mod;
      termination_reported = terminated;
      ready_reported = ready;
      called = log';
    }

-- The payload that onUpdate takes from an authorization state before it sets the state.
unfoldable pub take_payload : Manager → TdAuthState → Manager
unfolding code_info_of
take_payload m (TdAuthState.wait_other_device_confirmation link) = record m { qr_link = link }
take_payload m (TdAuthState.wait_code info) = record m { code_info = code_info_of info }
take_payload m _ = m

-- An update: an authorization state, which may be null, or any other.
pub data Update : Type 0 where
  authorization_state : Option TdAuthState → Update
  other_update : Update

unfoldable pub on_update : Manager → Option Update → Manager
unfolding set_state take_payload
on_update m none = m
on_update m (some (authorization_state none)) = m
on_update m (some (authorization_state (some td))) =
    set_state (take_payload m td) (auth_state_from_td td)
on_update m (some other_update) = record m { update_count = (m.update_count + 1) % counter_mod }

unfoldable pub expect_shutdown : Manager → Manager
expect_shutdown m = record m { expect_shutdown = true }

unfoldable pub cancel_expect_shutdown : Manager → Manager
cancel_expect_shutdown m = record m { expect_shutdown = false }

unfoldable pub set_on_unexpected_termination : Manager → Bool → Manager
set_on_unexpected_termination m set = record m { has_termination = set }

unfoldable pub set_on_ready : Manager → Bool → Manager
set_on_ready m set = record m { has_ready = set }

-- What the three waits wait for.
unfoldable pub first_seen : Manager → Bool
first_seen m = ltb 0 m.generation

unfoldable pub changed_since : Manager → ℕ → Bool
changed_since m prev = ltb prev m.generation

pub data Event : Type 0 where
  updates : Option Update → Event
  expects cancels : Event
  sets_termination sets_ready : Bool → Event

unfoldable pub step : Manager → Event → Manager
unfolding on_update expect_shutdown cancel_expect_shutdown set_on_unexpected_termination
    set_on_ready
step m (updates u) = on_update m u
step m expects = expect_shutdown m
step m cancels = cancel_expect_shutdown m
step m (sets_termination set) = set_on_unexpected_termination m set
step m (sets_ready set) = set_on_ready m set

unfoldable pub run : Manager → List Event → Manager
unfolding step
run m [] = m
run m (x ∷ xs) = run (step m x) xs
