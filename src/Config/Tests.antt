-- ===== src/Config/Tests.antt =====
-- Environments for src/config/config.cpp.
use telegram_rest_gateway.Prelude.{
  ◌≡◌, refl, Bool, true, Option, none, some, List, [], ◌∷◌, if◌then◌else◌, ◌==◌, nat_eq, Bytes,
  bytes_eq, codes,
}
use telegram_rest_gateway.Prelude.Int.{ℤ, pos}
use telegram_rest_gateway.Prelude.Map.{find}
use telegram_rest_gateway.Auth.TokenStore.{split}
use telegram_rest_gateway.Config.Environment.{
  Error, Result, ok, throws, trim, trim_start, trim_end, int32, uint16, leading_digits,
  after_digits, parse_unsigned, from_chars, number_of, parse_numeric_env, is_safe_segment,
  read_secret, env_or_file, require,
}
use telegram_rest_gateway.Config.Load.{
  Config, defaults, is_yes, is_no, token_lines, exceeds_idle, number_var, load_telegram,
  load_webhooks, load_humanize, load_server, load_session_id, load_key, load_s3, load_events,
  check_idle, load,
}
use telegram_rest_gateway.Config.Valid.{is_valid, load-valid}

abbrev required_vars : List (Bytes × Bytes)
required_vars =
    (codes "API_ID", codes " 12345 ")
    ∷ (codes "API_HASH", codes "abc")
    ∷ (codes "DATABASE_ENCRYPTION_KEY_FILE", codes "/run/key")
    ∷ []

abbrev env : List (Bytes × Bytes) → Bytes → Option Bytes
unfolding find
env vars name = find name vars

abbrev files : Bytes → Option Bytes
files path = if path == codes "/run/key" then some (codes "secret") else none

port_too_large :
    parse_numeric_env uint16 (codes "P") (codes "99999")
    ≡ throws (Error.out_of_range (codes "P") (codes "99999"))
unfolding parse_numeric_env from_chars parse_unsigned number_of leading_digits after_digits
port_too_large = refl

size_with_suffix :
    parse_numeric_env int32 (codes "S") (codes "10GB")
    ≡ throws (Error.not_a_number (codes "S") (codes "10GB"))
unfolding parse_numeric_env from_chars parse_unsigned number_of leading_digits after_digits
size_with_suffix = refl

-- The delays of the typing pause are in the wrong order, and the speed is 0.
abbrev unordered : List (Bytes × Bytes)
unordered =
    (codes "TGW_HUMANIZE_TYPING", codes "1")
    ∷ (codes "TGW_HUMANIZE_MIN_DELAY_MS", codes "5000")
    ∷ (codes "TGW_HUMANIZE_MAX_DELAY_MS", codes "100")
    ∷ (codes "TGW_HUMANIZE_CHARS_PER_MINUTE", codes "0")
    ∷ required_vars

is_loaded : Result Config → Option (Bool × ℤ × ℤ × ℤ)
is_loaded (throws e) = none
is_loaded (ok c) = some (
  c.humanize_typing, c.humanize_min_delay_ms, c.humanize_max_delay_ms, c.humanize_chars_per_minute,
)

unordered_loads : is_loaded (load (env unordered) files) ≡ some (true, pos 5000, pos 100, pos 0)
unfolding is_loaded load load_telegram load_webhooks load_humanize load_server load_session_id
    load_key load_s3 load_events check_idle exceeds_idle env_or_file require read_secret trim
    trim_start trim_end number_var parse_numeric_env from_chars parse_unsigned number_of
    leading_digits after_digits is_yes is_no is_safe_segment defaults env
unordered_loads = refl

no_key :
    load (env ((codes "API_ID", codes "1") ∷ (codes "API_HASH", codes "h") ∷ [])) files
    ≡ throws (Error.missing (codes "DATABASE_ENCRYPTION_KEY"))
unfolding load load_telegram env_or_file require trim trim_start trim_end parse_numeric_env
    from_chars parse_unsigned number_of leading_digits after_digits env
no_key = refl

abbrev loaded : Config
unfolding defaults
loaded = record defaults {
  api_id = pos 12345;
  api_hash = codes "abc";
  database_encryption_key = codes "secret";
  s3 = record {
    endpoint = [];
    region = codes "us-east-1";
    bucket = [];
    key = codes "telegram-sessions/default/td.binlog";
    access_key = [];
    secret_key = [];
    path_style = true;
  };
  kafka = record { brokers = []; topic = codes "tgw.updates"; client_id = codes "tgw-default" };
}

load-valid_example : is_valid loaded ≡ true
unfolding load load_telegram load_webhooks load_humanize load_server load_session_id load_key
    load_s3 load_events check_idle exceeds_idle env_or_file require read_secret trim trim_start
    trim_end number_var parse_numeric_env from_chars parse_unsigned number_of leading_digits
    after_digits is_yes is_no is_safe_segment defaults env loaded token_lines split
load-valid_example = load-valid (env required_vars) files loaded refl
