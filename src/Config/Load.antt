-- ===== src/Config/Load.antt =====
-- src/config/config.{hpp,cpp}: Config::load. It fills a structure with one variable after the other; here
-- each group of variables is a function from one structure to the next, in the order of the source.
use telegram_rest_gateway.Prelude.{
  ◌*◌, Bool, true, false, ◌&&◌, ◌||◌, not, Option, List, [], ◌∷◌, ◌++◌, if◌then◌else◌, ◌==◌, nat_eq,
  Bytes, bytes_eq, codes,
}
use telegram_rest_gateway.Prelude.Int.{ℤ, pos, ◌+ℤ◌, times, int_ltb}
use telegram_rest_gateway.Auth.TokenStore.{split}
use telegram_rest_gateway.Config.Environment.{
  invalid_session_id, idle_too_short, Result, ok, throws, ◌>>=◌, trim, NumberType, int32, uint16,
  uint64, parse_numeric_env, is_safe_segment, env_or_file, require,
}

pub record S3Config : Type 0 where
  pub endpoint : Bytes
  pub region : Bytes
  pub bucket : Bytes
  pub key : Bytes
  pub access_key : Bytes
  pub secret_key : Bytes
  pub path_style : Bool

pub record KafkaConfig : Type 0 where
  pub brokers : Bytes
  pub topic : Bytes
  pub client_id : Bytes

pub record Config : Type 0 where
  pub api_id : ℤ
  pub api_hash : Bytes
  pub database_encryption_key : Bytes
  pub session_b64 : Bytes
  pub session_id : Bytes
  pub database_directory : Bytes
  pub files_directory : Bytes
  pub use_test_dc : Bool
  pub keep_online : Bool
  pub keep_online_interval_seconds : ℤ
  pub webhooks_enabled : Bool
  pub session_export_enabled : Bool
  pub webhook_timeout_ms : ℤ
  pub webhook_queue_max : ℤ
  pub webhook_ssrf_guard : Bool
  pub tdlib_log_verbosity : ℤ
  pub humanize_typing : Bool
  pub humanize_chars_per_minute : ℤ
  pub humanize_jitter_percent : ℤ
  pub humanize_min_delay_ms : ℤ
  pub humanize_max_delay_ms : ℤ
  pub humanize_id_wait_ms : ℤ
  pub idle_connection_timeout_seconds : ℤ
  pub listen_address : Bytes
  pub listen_port : ℤ
  pub application_version : Bytes
  pub bearer_tokens : List Bytes
  pub max_upload_bytes : ℤ
  pub max_memory_body_bytes : ℤ
  pub ws_max_pending_bytes : ℤ
  pub s3 : S3Config
  pub s3_sync_interval_seconds : ℤ
  pub kafka : KafkaConfig

unfoldable pub defaults : Config
defaults = record {
  api_id = pos 0;
  api_hash = [];
  database_encryption_key = [];
  session_b64 = [];
  session_id = codes "default";
  database_directory = codes "/data/session";
  files_directory = codes "/data/files";
  use_test_dc = false;
  keep_online = false;
  keep_online_interval_seconds = pos 60;
  webhooks_enabled = false;
  session_export_enabled = true;
  webhook_timeout_ms = pos 10000;
  webhook_queue_max = pos 10000;
  webhook_ssrf_guard = false;
  tdlib_log_verbosity = pos 1;
  humanize_typing = false;
  humanize_chars_per_minute = pos 200;
  humanize_jitter_percent = pos 20;
  humanize_min_delay_ms = pos 1000;
  humanize_max_delay_ms = pos 10000;
  humanize_id_wait_ms = pos 4000;
  idle_connection_timeout_seconds = pos 90;
  listen_address = codes "127.0.0.1";
  listen_port = pos 8080;
  application_version = codes "1.6.0";
  bearer_tokens = [];
  max_upload_bytes = pos (64 * 1024 * 1024);
  max_memory_body_bytes = pos (1024 * 1024);
  ws_max_pending_bytes = pos (8 * 1024 * 1024);
  s3 = record {
    endpoint = [];
    region = [];
    bucket = [];
    key = [];
    access_key = [];
    secret_key = [];
    path_style = true;
  };
  s3_sync_interval_seconds = pos 300;
  kafka = record {
    brokers = [];
    topic = codes "tgw.updates";
    client_id = codes "telegram-rest-gateway";
  };
}

unfoldable pub is_yes : Bytes → Bool
is_yes v = v == codes "1" || v == codes "true"

unfoldable pub is_no : Bytes → Bool
is_no v = v == codes "0" || v == codes "false"

-- The lines of BEARER_TOKENS that are kept.
unfoldable pub is_token_line : Bytes → Bool
is_token_line [] = false
is_token_line (c ∷ s) = not (c == b'#')

unfoldable pub token_lines : List Bytes → List Bytes
unfolding trim is_token_line
token_lines [] = []
token_lines (line ∷ lines) =
    let rest = token_lines lines in if is_token_line (trim line) then trim line ∷ rest else rest

-- The guard on the pause, in 64-bit integers, which do not overflow on sums of 32-bit ones.
unfoldable pub exceeds_idle : Config → Bool
exceeds_idle c =
    int_ltb (times c.idle_connection_timeout_seconds 1000)
      (c.humanize_max_delay_ms +ℤ c.humanize_id_wait_ms +ℤ pos 2000)

module _ (getenv read_file : Bytes → Option Bytes) where
  -- A variable that is empty or not there leaves the value that there is.
  unfoldable pub number_var : NumberType → Bytes → ℤ → Result ℤ
  unfolding env_or_file parse_numeric_env
  number_var t name old = do
    v ← env_or_file getenv read_file name []
    if v == [] then ok old else parse_numeric_env t name v

  unfoldable pub load_telegram : Config → Result Config
  unfolding env_or_file require parse_numeric_env is_yes is_no number_var
  load_telegram c = do
    api_id_text ← require getenv read_file (codes "API_ID")
    api_id ← parse_numeric_env int32 (codes "API_ID") api_id_text
    api_hash ← require getenv read_file (codes "API_HASH")
    db_key ← require getenv read_file (codes "DATABASE_ENCRYPTION_KEY")
    session ← env_or_file getenv read_file (codes "TGW_SESSION") []
    database ← env_or_file getenv read_file (codes "TGW_DATABASE_DIR") c.database_directory
    files ← env_or_file getenv read_file (codes "TGW_FILES_DIR") c.files_directory
    test_dc ← env_or_file getenv read_file (codes "TGW_USE_TEST_DC") []
    keep_online ← env_or_file getenv read_file (codes "TGW_KEEP_ONLINE") []
    interval ←
        number_var int32 (codes "TGW_KEEP_ONLINE_INTERVAL_SECONDS") c.keep_online_interval_seconds
    session_export ← env_or_file getenv read_file (codes "TGW_SESSION_EXPORT_ENABLED") []
    ok (record c {
      api_id = api_id;
      api_hash = api_hash;
      database_encryption_key = db_key;
      session_b64 = session;
      database_directory = database;
      files_directory = files;
      use_test_dc = is_yes test_dc;
      keep_online = is_yes keep_online;
      keep_online_interval_seconds = interval;
      session_export_enabled = not (is_no session_export);
    })

  unfoldable pub load_webhooks : Config → Result Config
  unfolding env_or_file is_yes number_var
  load_webhooks c = do
    enabled ← env_or_file getenv read_file (codes "TGW_WEBHOOKS_ENABLED") []
    timeout ← number_var int32 (codes "TGW_WEBHOOK_TIMEOUT_MS") c.webhook_timeout_ms
    queue ← number_var uint64 (codes "TGW_WEBHOOK_QUEUE_MAX") c.webhook_queue_max
    ssrf ← env_or_file getenv read_file (codes "TGW_WEBHOOK_SSRF_GUARD") []
    verbosity ← number_var int32 (codes "TGW_TDLIB_LOG_VERBOSITY") c.tdlib_log_verbosity
    ok (record c {
      webhooks_enabled = is_yes enabled;
      webhook_timeout_ms = timeout;
      webhook_queue_max = queue;
      webhook_ssrf_guard = is_yes ssrf;
      tdlib_log_verbosity = verbosity;
    })

  unfoldable pub load_humanize : Config → Result Config
  unfolding env_or_file is_yes number_var
  load_humanize c = do
    humanize ← env_or_file getenv read_file (codes "TGW_HUMANIZE_TYPING") []
    speed ← number_var int32 (codes "TGW_HUMANIZE_CHARS_PER_MINUTE") c.humanize_chars_per_minute
    jitter ← number_var int32 (codes "TGW_HUMANIZE_JITTER_PERCENT") c.humanize_jitter_percent
    min_delay ← number_var int32 (codes "TGW_HUMANIZE_MIN_DELAY_MS") c.humanize_min_delay_ms
    max_delay ← number_var int32 (codes "TGW_HUMANIZE_MAX_DELAY_MS") c.humanize_max_delay_ms
    id_wait ← number_var int32 (codes "TGW_HUMANIZE_ID_WAIT_MS") c.humanize_id_wait_ms
    idle ←
        number_var int32 (codes "TGW_IDLE_CONNECTION_TIMEOUT_SECONDS")
          c.idle_connection_timeout_seconds
    ok (record c {
      humanize_typing = is_yes humanize;
      humanize_chars_per_minute = speed;
      humanize_jitter_percent = jitter;
      humanize_min_delay_ms = min_delay;
      humanize_max_delay_ms = max_delay;
      humanize_id_wait_ms = id_wait;
      idle_connection_timeout_seconds = idle;
    })

  unfoldable pub load_server : Config → Result Config
  unfolding env_or_file number_var
  load_server c = do
    address ← env_or_file getenv read_file (codes "TGW_LISTEN_ADDRESS") c.listen_address
    port ← number_var uint16 (codes "TGW_LISTEN_PORT") c.listen_port
    upload ← number_var uint64 (codes "TGW_MAX_UPLOAD_BYTES") c.max_upload_bytes
    body ← number_var uint64 (codes "TGW_MAX_MEMORY_BODY_BYTES") c.max_memory_body_bytes
    pending ← number_var uint64 (codes "TGW_WS_MAX_PENDING_BYTES") c.ws_max_pending_bytes
    ok (record c {
      listen_address = address;
      listen_port = port;
      max_upload_bytes = upload;
      max_memory_body_bytes = body;
      ws_max_pending_bytes = pending;
    })

  unfoldable pub load_session_id : Config → Result Config
  unfolding env_or_file is_safe_segment
  load_session_id c = do
    session_id ← env_or_file getenv read_file (codes "TGW_SESSION_ID") (codes "default")
    if is_safe_segment session_id
        then ok (record c { session_id = session_id })
        else throws (invalid_session_id session_id)

  unfoldable pub load_key : Bytes → Result Bytes
  unfolding env_or_file
  load_key session_id = do
    explicit ← env_or_file getenv read_file (codes "TGW_S3_KEY") []
    if not (explicit == []) then ok explicit else (do
      prefix ← env_or_file getenv read_file (codes "TGW_S3_PREFIX") (codes "telegram-sessions")
      ok (prefix ++ b'/' ∷ session_id ++ codes "/td.binlog"))

  unfoldable pub load_s3 : Config → Result Config
  unfolding env_or_file is_yes number_var load_key
  load_s3 c = do
    endpoint ← env_or_file getenv read_file (codes "TGW_S3_ENDPOINT") []
    region ← env_or_file getenv read_file (codes "TGW_S3_REGION") (codes "us-east-1")
    bucket ← env_or_file getenv read_file (codes "TGW_S3_BUCKET") []
    key ← load_key c.session_id
    access_key ← env_or_file getenv read_file (codes "TGW_S3_ACCESS_KEY_ID") []
    secret_key ← env_or_file getenv read_file (codes "TGW_S3_SECRET_ACCESS_KEY") []
    path_style ← env_or_file getenv read_file (codes "TGW_S3_PATH_STYLE") []
    interval ← number_var int32 (codes "TGW_S3_SYNC_INTERVAL_SECONDS") c.s3_sync_interval_seconds
    ok (record c {
      s3 = record {
        endpoint = endpoint;
        region = region;
        bucket = bucket;
        key = key;
        access_key = access_key;
        secret_key = secret_key;
        path_style = if path_style == [] then c.s3.path_style else is_yes path_style;
      };
      s3_sync_interval_seconds = interval;
    })

  unfoldable pub load_events : Config → Result Config
  unfolding env_or_file token_lines split
  load_events c = do
    brokers ← env_or_file getenv read_file (codes "TGW_KAFKA_BROKERS") []
    topic ← env_or_file getenv read_file (codes "TGW_KAFKA_TOPIC") c.kafka.topic
    client_id ←
        env_or_file getenv read_file (codes "TGW_KAFKA_CLIENT_ID") (codes "tgw-" ++ c.session_id)
    tokens ← env_or_file getenv read_file (codes "BEARER_TOKENS") []
    ok (record c {
      kafka = record { brokers = brokers; topic = topic; client_id = client_id };
      bearer_tokens = token_lines (split 10 tokens);
    })

  unfoldable pub check_idle : Config → Result Config
  unfolding exceeds_idle
  check_idle c = if c.humanize_typing && exceeds_idle c then throws idle_too_short else ok c

  unfoldable pub load : Result Config
  unfolding defaults load_telegram load_webhooks load_humanize load_server load_session_id load_s3
      load_events check_idle
  load =
      load_telegram defaults
      >>= load_webhooks
      >>= load_humanize
      >>= load_server
      >>= load_session_id
      >>= load_s3
      >>= load_events
      >>= check_idle
