-- ===== src/Ws/UpdatesWs.antt =====
-- src/ws/updates_ws.cpp: the WebSocket controller of /v1/updates. Each callback is one step on the
-- subscribers; what it sends on a connection, and which it closes, is a log with the last first.
pub mod Admission
pub mod Subscriptions
pub mod Tests
use telegram_rest_gateway.Prelude.{
  ℕ, zero, suc, ◌+◌, ◌-◌, ◌*◌, ◌/◌, ◌%◌, ◌^◌, ◌≤◌, ◌<◌, min, max, ◌≡◌, refl, sym, ap, ◌∙◌, subst,
  ◌≢◌, ◌↔◌, ◌⊎◌, inl, inr, Bool, true, false, ◌&&◌, ◌||◌, not, Option, none, some, List, [], ◌∷◌,
  ◌++◌, map, arith, ltb, leb, ltb→lt, lt→ltb, leb→le, if◌then◌else◌, Bool-cases, Option-cases, Eq,
  ◌==◌, eq_refl, nat_eq, Bytes, bytes_beq_iff, nat_beq_iff, bytes_eq, codes, length, get_elem?,
  get_or, take, drop, keep_if, all, any, length-append, length-keep_if-le, take-append-drop,
  length-take, length-drop, drop-append, take-append, All, All-append, All-map, All-keep_if, All-at,
  some-injective,
}
use telegram_rest_gateway.Prelude.Text.{starts_with}
use telegram_rest_gateway.Prelude.Json.{
  Json, Items, nil, item, null, string, array, object, put, member, ◌▷◌,
}
use telegram_rest_gateway.Auth.TokenStore.{read, scope_allows, Entry, verify}
use telegram_rest_gateway.Ws.Registry.{Registry, connect, disconnect, note_pong, set_filter}

abbrev pub bearer_prefix : Bytes
bearer_prefix = codes "Bearer "

abbrev pub proto_prefix : Bytes
proto_prefix = codes "bearer."

-- A header with a prefix, and something after it.
unfoldable pub after_prefix : Bytes → Bytes → Option Bytes
unfolding starts_with
after_prefix prefix header =
    if ltb (length prefix) (length header) && starts_with header prefix
    then some (drop (length prefix) header)
    else none

-- The headers of a handshake, empty where they are not there.
pub record Handshake : Type 0 where
  pub authorization : Bytes
  pub protocol : Bytes

unfoldable pub extract_bearer : Handshake → Bytes
unfolding after_prefix
extract_bearer req = elim (after_prefix bearer_prefix req.authorization) [
  | some token ↦ token
  | none ↦ elim (after_prefix proto_prefix req.protocol) [ some token ↦ token | none ↦ [] ]
]

pub data Action : Type 0 where
  force_closes : ℕ → Action
  pings_every : ℕ → ℕ → Action
  sends : ℕ → Bytes → Action

pub record Hub : Type 0 where
  pub registry : Registry
  pub session_id : Bytes
  pub log : List Action

unfoldable pub set_session_id : Hub → Bytes → Hub
set_session_id h session_id = record h { session_id = session_id }

pub data MessageType : Type 0 where
  pong text other_type : MessageType

-- The texts in an array: a std::set, as a list.
unfoldable pub texts : Items → List Bytes
texts nil = []
texts (item (Json.string s) xs) = s ∷ texts xs
texts (item _ xs) = texts xs

-- The types that a frame subscribes to, and its array: none if it is no object with the type
-- "subscribe" and an array of types.
unfoldable pub subscription_of : Json → Option (List Bytes × Json)
unfolding member texts
subscription_of frame = kind (member (codes "type") frame) (member (codes "update_types") frame)
  where
    kind : Option Json → Option Json → Option (List Bytes × Json)
    kind (some (Json.string s)) (some (Json.array xs)) =
        if s == codes "subscribe" then some (texts xs, array xs) else none
    kind _ _ = none

unfoldable pub ack_of : Json → Json
unfolding put
ack_of types =
    null ▷ put (codes "type") (string (codes "subscribed")) ▷ put (codes "update_types") types

-- The callbacks of drogon, in the order in which they run.
pub data Event : Type 0 where
  opens : Handshake → ℕ → Event
  receives : ℕ → Bytes → MessageType → Event
  closes : ℕ → Event

-- `parse` and `compact` are jsoncpp's reader and writer.
module _ (sha256 : Bytes → Bytes) (parse : Bytes → Option Json) (compact : Json → Bytes) where
  unfoldable pub hello_frame : Bytes → Bytes
  unfolding put
  hello_frame session_id = compact (
      null
      ▷ put (codes "type") (string (codes "hello"))
      ▷ put (codes "session_id") (string session_id))

  unfoldable pub may_read : Option ℕ → Bool
  unfolding scope_allows
  may_read none = false
  may_read (some scopes) = scope_allows scopes read

  unfoldable pub handle_new_connection : List (Entry sha256) → Hub → Handshake → ℕ → Hub
  unfolding extract_bearer may_read verify connect hello_frame
  handle_new_connection entries h req conn =
      if may_read (verify sha256 entries (extract_bearer req))
      then record h {
        registry = connect h.registry conn;
        log = sends conn (hello_frame h.session_id) ∷ pings_every conn 15 ∷ h.log;
      }
      else record h { log = force_closes conn ∷ h.log }

  unfoldable pub subscribe : Hub → ℕ → Option Json → Hub
  unfolding subscription_of set_filter ack_of
  subscribe h conn none = h
  subscribe h conn (some frame) = elim (subscription_of frame) [
    | none ↦ h
    | some (types, xs) ↦ record h {
      registry = set_filter h.registry conn types;
      log = sends conn (compact (ack_of xs)) ∷ h.log;
    }
  ]

  unfoldable pub handle_new_message : Hub → ℕ → Bytes → MessageType → Hub
  unfolding note_pong subscribe
  handle_new_message h conn message pong = record h { registry = note_pong h.registry conn }
  handle_new_message h conn message text = subscribe h conn (parse message)
  handle_new_message h conn message other_type = h

  unfoldable pub handle_connection_closed : Hub → ℕ → Hub
  unfolding disconnect
  handle_connection_closed h conn = record h { registry = disconnect h.registry conn }

  unfoldable pub step : List (Entry sha256) → Hub → Event → Hub
  unfolding handle_new_connection handle_new_message handle_connection_closed
  step entries h (opens req conn) = handle_new_connection entries h req conn
  step entries h (receives conn message kind) = handle_new_message h conn message kind
  step entries h (closes conn) = handle_connection_closed h conn

  unfoldable pub run : List (Entry sha256) → Hub → List Event → Hub
  run entries h [] = h
  run entries h (x ∷ xs) = run entries (step entries h x) xs
