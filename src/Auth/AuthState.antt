-- ===== src/Auth/AuthState.antt =====
-- src/auth/auth_state.hpp: the states of the login, and their names in answers.
use telegram_rest_gateway.Prelude.{
  ℕ, ◌≡◌, refl, sym, ap, ◌∙◌, Bool, true, false, Option, none, some, if◌then◌else◌, ◌==◌, nat_eq,
  Bytes, bytes_eq, codes,
}

-- What TDLib reports, as far as the source tells it apart; `other` is any other authorization state.
-- authenticationCodeInfo: the code types are optional pointers.
pub data CodeType : Type 0 where
  telegram_message sms call : ℕ → CodeType
  flash_call missed_call fragment other : CodeType

pub record TdCodeInfo : Type 0 where
  pub code_type : Option CodeType
  pub next_code_type : Option CodeType
  pub timeout : ℕ

pub data TdAuthState : Type 0 where
  wait_tdlib_parameters wait_phone_number wait_password ready logging_out closing closed :
      TdAuthState
  wait_code : Option TdCodeInfo → TdAuthState
  wait_other_device_confirmation : Bytes → TdAuthState
  other : TdAuthState

pub data AuthState : Type 0 where
  unknown wait_tdlib_parameters wait_phone_number wait_code wait_password : AuthState
  wait_other_device_confirmation ready logging_out closing closed unsupported : AuthState

unfoldable pub auth_state_from_td : TdAuthState → AuthState
auth_state_from_td TdAuthState.wait_tdlib_parameters = AuthState.wait_tdlib_parameters
auth_state_from_td TdAuthState.wait_phone_number = AuthState.wait_phone_number
auth_state_from_td (TdAuthState.wait_code info) = AuthState.wait_code
auth_state_from_td TdAuthState.wait_password = AuthState.wait_password
auth_state_from_td (TdAuthState.wait_other_device_confirmation link) =
    AuthState.wait_other_device_confirmation
auth_state_from_td TdAuthState.ready = AuthState.ready
auth_state_from_td TdAuthState.logging_out = AuthState.logging_out
auth_state_from_td TdAuthState.closing = AuthState.closing
auth_state_from_td TdAuthState.closed = AuthState.closed
auth_state_from_td TdAuthState.other = AuthState.unsupported

unfoldable pub to_string : AuthState → Bytes
to_string AuthState.unknown = codes "unknown"
to_string AuthState.wait_tdlib_parameters = codes "wait_tdlib_parameters"
to_string AuthState.wait_phone_number = codes "wait_phone_number"
to_string AuthState.wait_code = codes "wait_code"
to_string AuthState.wait_password = codes "wait_password"
to_string AuthState.wait_other_device_confirmation = codes "wait_other_device_confirmation"
to_string AuthState.ready = codes "ready"
to_string AuthState.logging_out = codes "logging_out"
to_string AuthState.closing = codes "closing"
to_string AuthState.closed = codes "closed"
to_string AuthState.unsupported = codes "unsupported_state"

abbrev pub is_terminal : AuthState → Bool
is_terminal AuthState.logging_out = true
is_terminal AuthState.closing = true
is_terminal AuthState.closed = true
is_terminal AuthState.unknown = false
is_terminal AuthState.wait_tdlib_parameters = false
is_terminal AuthState.wait_phone_number = false
is_terminal AuthState.wait_code = false
is_terminal AuthState.wait_password = false
is_terminal AuthState.wait_other_device_confirmation = false
is_terminal AuthState.ready = false
is_terminal AuthState.unsupported = false

abbrev pub is_ready : AuthState → Bool
is_ready AuthState.ready = true
is_ready AuthState.unknown = false
is_ready AuthState.wait_tdlib_parameters = false
is_ready AuthState.wait_phone_number = false
is_ready AuthState.wait_code = false
is_ready AuthState.wait_password = false
is_ready AuthState.wait_other_device_confirmation = false
is_ready AuthState.logging_out = false
is_ready AuthState.closing = false
is_ready AuthState.closed = false
is_ready AuthState.unsupported = false

from_name : Bytes → Option AuthState
from_name s =
    if s == codes "unknown"
    then some AuthState.unknown
    else if s == codes "wait_tdlib_parameters"
    then some AuthState.wait_tdlib_parameters
    else if s == codes "wait_phone_number"
    then some AuthState.wait_phone_number
    else if s == codes "wait_code"
    then some AuthState.wait_code
    else if s == codes "wait_password"
    then some AuthState.wait_password
    else if s == codes "wait_other_device_confirmation"
    then some AuthState.wait_other_device_confirmation
    else if s == codes "ready"
    then some AuthState.ready
    else if s == codes "logging_out"
    then some AuthState.logging_out
    else if s == codes "closing"
    then some AuthState.closing
    else if s == codes "closed"
    then some AuthState.closed
    else if s == codes "unsupported_state"
    then some AuthState.unsupported
    else none

from_name-to_string : (s : AuthState) → from_name (to_string s) ≡ some s
unfolding from_name to_string
from_name-to_string AuthState.unknown = refl
from_name-to_string _ = refl

-- Two states with the same name in answers are the same state.
pub to_string-injective : (s t : AuthState) → to_string s ≡ to_string t → s ≡ t
to_string-injective s t h =
    let e : ◌≡◌ {A = Option AuthState} (some s) (some t) =
      sym (from_name-to_string s) ∙ ap from_name h ∙ from_name-to_string t in
    cc e
