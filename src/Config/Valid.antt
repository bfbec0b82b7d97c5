-- ===== src/Config/Valid.antt =====
-- What holds of a configuration that is loaded.
use telegram_rest_gateway.Prelude.{
  ◌≡◌, refl, inl, inr, Bool, true, ◌&&◌, not, Option, List, [], ◌∷◌, ◌++◌, arith, if◌then◌else◌,
  Bool-cases, ◌==◌, nat_eq, Bytes, bytes_eq, codes, all,
}
use telegram_rest_gateway.Prelude.Int.{ℤ}
use telegram_rest_gateway.Auth.TokenStore.{split}
use telegram_rest_gateway.Config.Environment.{
  Result, ok, throws, ◌>>=◌, NumberType, int32, uint16, uint64, parse_numeric_env, is_safe_segment,
  env_or_file, require,
}
use telegram_rest_gateway.Config.Load.{
  Config, defaults, is_token_line, token_lines, exceeds_idle, number_var, load_telegram,
  load_webhooks, load_humanize, load_server, load_session_id, load_key, load_s3, load_events,
  check_idle, load,
}
use telegram_rest_gateway.Config.Ensures.{ensures, ensures_bind, ensures_each, ensures_ok}
use telegram_rest_gateway.Config.Numbers.{in_range, parse_numeric_env-InRange}

-- The required variables are there, and the numbers with a narrow type are in its range.
abbrev pub has_basics : Config → Bool
has_basics c =
    in_range int32 c.api_id
    && not (c.api_hash == [])
    && not (c.database_encryption_key == [])
    && in_range uint16 c.listen_port

abbrev pub has_session : Config → Bool
has_session c = has_basics c && is_safe_segment c.session_id

abbrev pub has_tokens : Config → Bool
has_tokens c = has_session c && all is_token_line c.bearer_tokens

abbrev pub is_valid : Config → Bool
is_valid c = has_tokens c && not (c.humanize_typing && exceeds_idle c)

all-token_lines : (lines : List Bytes) → all is_token_line (token_lines lines) ≡ true
unfolding token_lines
all-token_lines [] = refl
all-token_lines (line ∷ lines) = ground (arith, all-token_lines lines)

parse-ensures :
    (t : NumberType) (name v : Bytes) (r : Result ℤ)
    → parse_numeric_env t name v ≡ r
    → ensures (in_range t) r ≡ true
parse-ensures t name v (ok n) e = (parse_numeric_env-InRange t name v n e).0
parse-ensures t name v (throws x) e = refl

module _ (getenv read_file : Bytes → Option Bytes) where
  abbrev is_there : Bytes → Bool
  is_there v = not (v == [])

  require-ensures : (name : Bytes) → ensures is_there (require getenv read_file name) ≡ true
  unfolding require
  require-ensures name = ground arith

  number_var-ensures :
      (t : NumberType) (name : Bytes) (old : ℤ)
      → in_range t old ≡ true
      → ensures (in_range t) (number_var getenv read_file t name old) ≡ true
  unfolding number_var
  number_var-ensures t name old h =
      ensures_each (in_range t) (env_or_file getenv read_file name []) _ parse
    where
      parse :
          (v : Bytes)
          → ensures (in_range t) (if v == [] then ok old else parse_numeric_env t name v) ≡ true
      parse [] = h
      parse (c ∷ s) = parse-ensures t name (c ∷ s) _ refl

  load_webhooks-ensures :
      (c : Config)
      → has_basics c ≡ true
      → ensures has_basics (load_webhooks getenv read_file c) ≡ true
  unfolding load_webhooks
  load_webhooks-ensures c basics =
      ensures_each has_basics (env_or_file getenv read_file (codes "TGW_WEBHOOKS_ENABLED") []) _
        (λ enabled.
          ensures_each has_basics
            (number_var getenv read_file int32 (codes "TGW_WEBHOOK_TIMEOUT_MS")
              c.webhook_timeout_ms)
            _
            (λ timeout.
              ensures_each has_basics
                (number_var getenv read_file uint64 (codes "TGW_WEBHOOK_QUEUE_MAX")
                  c.webhook_queue_max)
                _
                (λ queue.
                  ensures_each has_basics
                    (env_or_file getenv read_file (codes "TGW_WEBHOOK_SSRF_GUARD") []) _
                    (λ ssrf.
                      ensures_each has_basics
                        (number_var getenv read_file int32 (codes "TGW_TDLIB_LOG_VERBOSITY")
                          c.tdlib_log_verbosity)
                        _ (λ verbosity. basics)))))

  load_humanize-ensures :
      (c : Config)
      → has_basics c ≡ true
      → ensures has_basics (load_humanize getenv read_file c) ≡ true
  unfolding load_humanize
  load_humanize-ensures c basics =
      ensures_each has_basics (env_or_file getenv read_file (codes "TGW_HUMANIZE_TYPING") []) _
        (λ humanize.
          ensures_each has_basics
            (number_var getenv read_file int32 (codes "TGW_HUMANIZE_CHARS_PER_MINUTE")
              c.humanize_chars_per_minute)
            _
            (λ speed.
              ensures_each has_basics
                (number_var getenv read_file int32 (codes "TGW_HUMANIZE_JITTER_PERCENT")
                  c.humanize_jitter_percent)
                _
                (λ jitter.
                  ensures_each has_basics
                    (number_var getenv read_file int32 (codes "TGW_HUMANIZE_MIN_DELAY_MS")
                      c.humanize_min_delay_ms)
                    _
                    (λ min_delay.
                      ensures_each has_basics
                        (number_var getenv read_file int32 (codes "TGW_HUMANIZE_MAX_DELAY_MS")
                          c.humanize_max_delay_ms)
                        _
                        (λ max_delay.
                          ensures_each has_basics
                            (number_var getenv read_file int32 (codes "TGW_HUMANIZE_ID_WAIT_MS")
                              c.humanize_id_wait_ms)
                            _
                            (λ id_wait.
                              ensures_each has_basics
                                (number_var getenv read_file int32
                                  (codes "TGW_IDLE_CONNECTION_TIMEOUT_SECONDS")
                                  c.idle_connection_timeout_seconds)
                                _ (λ idle. basics)))))))

  load_server-ensures :
      (c : Config)
      → has_basics c ≡ true
      → ensures has_basics (load_server getenv read_file c) ≡ true
  unfolding load_server
  load_server-ensures c basics =
      ensures_each has_basics
        (env_or_file getenv read_file (codes "TGW_LISTEN_ADDRESS") c.listen_address) _
        (λ address.
          ensures_bind (in_range uint16) has_basics
            (number_var getenv read_file uint16 (codes "TGW_LISTEN_PORT") c.listen_port) _
            (number_var-ensures uint16 (codes "TGW_LISTEN_PORT") c.listen_port
              (ground (arith, basics)))
            (λ port range.
              ensures_each has_basics
                (number_var getenv read_file uint64 (codes "TGW_MAX_UPLOAD_BYTES")
                  c.max_upload_bytes)
                _
                (λ upload.
                  ensures_each has_basics
                    (number_var getenv read_file uint64 (codes "TGW_MAX_MEMORY_BODY_BYTES")
                      c.max_memory_body_bytes)
                    _
                    (λ body.
                      ensures_each has_basics
                        (number_var getenv read_file uint64 (codes "TGW_WS_MAX_PENDING_BYTES")
                          c.ws_max_pending_bytes)
                        _ (λ pending. ground (arith, basics, range))))))

  load_telegram-ensures :
      (c : Config)
      → in_range uint16 c.listen_port ≡ true
      → ensures has_basics (load_telegram getenv read_file c) ≡ true
  unfolding load_telegram
  load_telegram-ensures c port =
      ensures_each has_basics (require getenv read_file (codes "API_ID")) _ (λ api_id_text.
        ensures_bind (in_range int32) has_basics
          (parse_numeric_env int32 (codes "API_ID") api_id_text) _
          (parse-ensures int32 (codes "API_ID") api_id_text _ refl)
          (λ api_id in_int32.
            ensures_bind (is_there) has_basics (require getenv read_file (codes "API_HASH")) _
              (require-ensures (codes "API_HASH"))
              (λ api_hash hash_there.
                ensures_bind (is_there) has_basics
                  (require getenv read_file (codes "DATABASE_ENCRYPTION_KEY")) _
                  (require-ensures (codes "DATABASE_ENCRYPTION_KEY"))
                  (λ db_key key_there.
                    ensures_each has_basics (env_or_file getenv read_file (codes "TGW_SESSION") [])
                      _
                      (λ session.
                        ensures_each has_basics
                          (env_or_file getenv read_file (codes "TGW_DATABASE_DIR")
                            c.database_directory)
                          _
                          (λ database.
                            ensures_each has_basics
                              (env_or_file getenv read_file (codes "TGW_FILES_DIR")
                                c.files_directory)
                              _
                              (λ files.
                                ensures_each has_basics
                                  (env_or_file getenv read_file (codes "TGW_USE_TEST_DC") []) _
                                  (λ test_dc.
                                    ensures_each has_basics
                                      (env_or_file getenv read_file (codes "TGW_KEEP_ONLINE") []) _
                                      (λ keep_online.
                                        ensures_each has_basics
                                          (number_var getenv read_file int32
                                            (codes "TGW_KEEP_ONLINE_INTERVAL_SECONDS")
                                            c.keep_online_interval_seconds)
                                          _
                                          (λ interval.
                                            ensures_each has_basics
                                              (env_or_file getenv read_file
                                                (codes "TGW_SESSION_EXPORT_ENABLED") [])
                                              _
                                              (λ session_export. ground (
                                                arith, port, in_int32, hash_there, key_there,
                                              ))))))))))))

  load_session_id-ensures :
      (c : Config)
      → has_basics c ≡ true
      → ensures has_session (load_session_id getenv read_file c) ≡ true
  unfolding load_session_id
  load_session_id-ensures c basics =
      ensures_each has_session
        (env_or_file getenv read_file (codes "TGW_SESSION_ID") (codes "default")) _
        (λ session_id. elim (Bool-cases (is_safe_segment session_id)) [
          | inl e ↦ rw e (ground (arith, basics, e))
          | inr e ↦ rw e
        ])

  load_s3-ensures :
      (c : Config) → has_session c ≡ true → ensures has_session (load_s3 getenv read_file c) ≡ true
  unfolding load_s3
  load_s3-ensures c session =
      ensures_each has_session (env_or_file getenv read_file (codes "TGW_S3_ENDPOINT") []) _
        (λ endpoint.
          ensures_each has_session
            (env_or_file getenv read_file (codes "TGW_S3_REGION") (codes "us-east-1")) _
            (λ region.
              ensures_each has_session (env_or_file getenv read_file (codes "TGW_S3_BUCKET") []) _
                (λ bucket.
                  ensures_each has_session (load_key getenv read_file c.session_id) _ (λ key.
                    ensures_each has_session
                      (env_or_file getenv read_file (codes "TGW_S3_ACCESS_KEY_ID") []) _
                      (λ access_key.
                        ensures_each has_session
                          (env_or_file getenv read_file (codes "TGW_S3_SECRET_ACCESS_KEY") []) _
                          (λ secret_key.
                            ensures_each has_session
                              (env_or_file getenv read_file (codes "TGW_S3_PATH_STYLE") []) _
                              (λ path_style.
                                ensures_each has_session
                                  (number_var getenv read_file int32
                                    (codes "TGW_S3_SYNC_INTERVAL_SECONDS")
                                    c.s3_sync_interval_seconds)
                                  _ (λ interval. session))))))))

  load_events-ensures :
      (c : Config)
      → has_session c ≡ true
      → ensures has_tokens (load_events getenv read_file c) ≡ true
  unfolding load_events
  load_events-ensures c session =
      ensures_each has_tokens (env_or_file getenv read_file (codes "TGW_KAFKA_BROKERS") []) _
        (λ brokers.
          ensures_each has_tokens
            (env_or_file getenv read_file (codes "TGW_KAFKA_TOPIC") c.kafka.topic) _
            (λ topic.
              ensures_each has_tokens
                (env_or_file getenv read_file (codes "TGW_KAFKA_CLIENT_ID")
                  (codes "tgw-" ++ c.session_id))
                _
                (λ client_id.
                  ensures_each has_tokens (env_or_file getenv read_file (codes "BEARER_TOKENS") [])
                    _ (λ tokens. ground (arith, session, all-token_lines (split 10 tokens))))))

  check_idle-ensures :
      (c : Config) → has_tokens c ≡ true → ensures is_valid (check_idle getenv read_file c) ≡ true
  unfolding check_idle
  check_idle-ensures c tokens = elim (Bool-cases (c.humanize_typing && exceeds_idle c)) [
    | inl e ↦ rw e
    | inr e ↦ rw e (ground (arith, tokens, e))
  ]

  -- Whatever the environment and the files have, a configuration is loaded only with an api id of 32 bits, an
  -- api hash, a key of the database, a port below 65536, a session id that is one safe path segment, no
  -- token line that is empty or a comment, and, if the typing pause is on, an idle timeout that covers it.
  pub load-valid : (c : Config) → load getenv read_file ≡ ok c → is_valid c ≡ true
  unfolding load defaults
  load-valid c e =
      let m₁ = load_telegram getenv read_file defaults in
      let m₂ = m₁ >>= load_webhooks getenv read_file in
      let m₃ = m₂ >>= load_humanize getenv read_file in
      let m₄ = m₃ >>= load_server getenv read_file in
      let m₅ = m₄ >>= load_session_id getenv read_file in
      let m₆ = m₅ >>= load_s3 getenv read_file in
      let m₇ = m₆ >>= load_events getenv read_file in
      let h₁ = load_telegram-ensures defaults refl in
      let h₂ =
        ensures_bind has_basics has_basics m₁ (load_webhooks getenv read_file) h₁
          load_webhooks-ensures in
      let h₃ =
        ensures_bind has_basics has_basics m₂ (load_humanize getenv read_file) h₂
          load_humanize-ensures in
      let h₄ =
        ensures_bind has_basics has_basics m₃ (load_server getenv read_file) h₃
          load_server-ensures in
      let h₅ =
        ensures_bind has_basics has_session m₄ (load_session_id getenv read_file) h₄
          load_session_id-ensures in
      let h₆ =
        ensures_bind has_session has_session m₅ (load_s3 getenv read_file) h₅ load_s3-ensures in
      let h₇ =
        ensures_bind has_session has_tokens m₆ (load_events getenv read_file) h₆
          load_events-ensures in
      ensures_ok is_valid (load getenv read_file) c
        (ensures_bind has_tokens is_valid m₇ (check_idle getenv read_file) h₇ check_idle-ensures) e
