-- ===== src/Lib.antt =====
-- telegram-rest-gateway: an HTTP, WebSocket and webhook gateway in front of TDLib (src/ of the
-- repository, C++).
--
-- A handler of an HTTP route suspends its coroutine on a request to TDLib (the request bridge); the
-- receiver thread resumes it with the response, and gives every update to the update router, which
-- passes authorization states to the state manager and the outcomes of sends to the requests that wait
-- for them, sends a numbered frame of each other update to the WebSocket subscribers and to Kafka, and
-- gives new messages to the webhooks. The bearer filter stands before every route.
--
-- The files, and the code that each models:
-- - Prelude: lists and Boolean tests over native numbers, Boolean equality as an interface (Eq),
--   std::string as a list of byte values (Prelude.Text), std::unordered_map as an association list
--   (Prelude.Map), and tests of every value of a small range (Prelude.Tables).
--   Prelude.Int has signed integers and their decimal texts, Prelude.Json the values of jsoncpp, and
--   Prelude.Utf8 the well-formed texts of UTF-8.
-- - Util.Base64: src/util/base64.cpp, base64Encode and base64Decode. Util.AwsSigv4: aws_sigv4.cpp, with
--   SHA-256 and HMAC as parameters.
-- - Bridge.RequestId, Bridge.CorrelationMap, Bridge.TdBridge: src/bridge/request_id.hpp,
--   request_state.hpp, correlation_map.{hpp,cpp} and td_bridge.{hpp,cpp}. A shared RequestState is a
--   cell of a heap; await_suspend, dispatch, sweepExpired, drainPending, start and stop are steps, and
--   an interleaving of threads is a list of them, each step being what runs under a mutex.
--   Bridge.MessageSendTracker: message_send_tracker.{hpp,cpp}, in the same way.
-- - Config: src/config/config.{hpp,cpp}. Environment reads one variable, Load is Config::load.
-- - Dto: src/dto/message_dto.cpp. Objects declares the classes of TDLib that are read; Content,
--   Projections and WebhookMessage are the functions to JSON.
-- - Events.KafkaSink: src/events/kafka_sink.{hpp,cpp}.
-- - Auth.TokenStore: src/auth/token_store.{hpp,cpp}. Auth.AuthState and Auth.StateManager:
--   auth_state.hpp and auth_state_manager.{hpp,cpp}, with a log of the callbacks. Auth.SessionIo:
--   session_io.cpp, with the answers of open, fchmod, write and close as lists. Auth.Startup:
--   startup_bootstrapper.cpp, over the state manager and the configuration.
-- - Http.IdempotencyCache: src/http/idempotency_cache.hpp. Http.ScopePolicy and Http.BearerAuth:
--   scope_policy.hpp, bearer_auth.hpp and bearer_filter.cpp, composed with the token store.
--   Http.ByteRange: byte_range.hpp. Http.Helpers: the answer to an error of TDLib in http_helpers.hpp,
--   and Http.Helpers.Ids the ids in its paths.
--   Http.UploadSanitize: upload_sanitize.hpp. Http.WebhookRoutes: webhook_routes.cpp, over the
--   registry of webhooks.
-- - Ws.Registry: src/ws/ws_registry.{hpp,cpp}; what fanOut sends and closes is its result. Ws.Message
--   and Ws.OwnerMention: what is read of a message, and owner_mention_detector.hpp.
--   Ws.UpdateRouter: update_router.{hpp,cpp}, composed with the state manager, the tracker and the
--   subscribers. Ws.UpdatesWs: updates_ws.cpp, over the token store and the subscribers.
-- - Webhook.ContextBuilder: src/webhook/context_builder.{hpp,cpp}, over the detector of Ws.OwnerMention.
--   Webhook.Registry: webhook_registry.{hpp,cpp}, with what the store holds and the saves in detached
--   threads that have not ended. Webhook.Dispatcher:
--   webhook_dispatcher.{hpp,cpp}: urls, the guard against private hosts, and the queue of the worker.
-- In each folder the children named Tests hold test data, runs and instances of the theorems.
--
-- Parameters stand for code that is not of the repository: TDLib, SHA-256 and HMAC of OpenSSL,
-- jsoncpp's reader and writer, inet_pton and sscanf, the environment and the files, librdkafka, which
-- event loops run, and whether a connection is up. Where a theorem needs a property of one, it is a
-- hypothesis: that a digest tells the presented token from those configured, that it is not empty,
-- or is ASCII, that inet_pton writes 16 bytes, and that the JSON reader reads what the writer wrote of
-- webhooks whose texts are UTF-8.
--
-- Bounds: counters wrap at 2^64 as in the code, and the accumulator of base64 at 2^32. Loops are
-- structural; the chain of replies is bounded by its limit; the loops over interrupted system calls
-- run over the list of answers, and return none where it runs out.
--
-- Not modelled: the S3 client and its session store, the sweep of old uploads and the typing
-- delay, which computes with floating-point numbers, and file_dto.cpp for the same reason. Left out:
-- the HTTP client and the loop thread of the dispatcher, condition variables, logs and metrics, and
-- the REST routes other than those of the webhooks, which are glue around drogon.
pub mod Prelude
pub mod Util
pub mod Bridge
pub mod Auth
pub mod Events
pub mod Http
pub mod Config
pub mod Dto
pub mod Ws
pub mod Webhook
