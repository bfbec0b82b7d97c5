-- ===== src/Ws/UpdatesWs/Tests.antt =====
-- Runs of src/ws/updates_ws.cpp.
use telegram_rest_gateway.Prelude.{
  ◌≡◌, refl, true, ◌||◌, Option, none, some, List, [], ◌∷◌, nat_eq, Bytes, bytes_eq, codes, any,
  All,
}
use telegram_rest_gateway.Prelude.Json.{Json, item, nil, string, array, null, put, ◌▷◌, object}
use telegram_rest_gateway.Auth.TokenStore.{scope_allows, load, verify, parse_line, parse_scopes}
use telegram_rest_gateway.Auth.TokenStore.Verify.{Separates}
use telegram_rest_gateway.Ws.Registry
use telegram_rest_gateway.Ws.Registry.{
  Registry, Subscriber, connect, note_pong, set_filter, disconnect,
}
use telegram_rest_gateway.Ws.UpdatesWs.{
  Handshake, extract_bearer, after_prefix, MessageType, pong, Hub, handle_new_connection,
  handle_new_message, Event, opens, receives, closes, step, run, may_read, subscribe,
}
use telegram_rest_gateway.Ws.UpdatesWs.Admission.{subscribed, admits, run-admits}
use telegram_rest_gateway.Ws.UpdatesWs.Subscriptions.{
  first_of, mapped, told, handle_new_message-first,
}

-- Functions for the parameters.
abbrev digest : Bytes → Bytes
digest t = t

abbrev reader : Bytes → Option Json
reader [] = none
reader (c ∷ cs) = some (
    null
    ▷ put (codes "type") (string (codes "subscribe"))
    ▷ put (codes "update_types") (array (item (string (codes "updateNewChat")) nil)))

abbrev writer : Json → Bytes
writer (object fs) = codes "frame"
writer _ = []

abbrev lines : List Bytes
lines = codes "secret read" ∷ codes "other write" ∷ []

abbrev start : Hub
start = record { registry = Registry.init; session_id = codes "default"; log = [] }

abbrev by_header : Handshake
by_header = record { authorization = codes "Bearer secret"; protocol = [] }

abbrev by_protocol : Handshake
by_protocol = record { authorization = []; protocol = codes "bearer.other" }

separated : (t : Bytes) → All (Separates digest t) lines
separated t = (λ token mask e same. same, (λ token mask e same. same, tt))

abbrev events : List Event
events =
    opens by_header 1
    ∷ opens by_protocol 2
    ∷ receives 1 (codes "{}") MessageType.text
    ∷ receives 1 [] pong
    ∷ closes 2
    ∷ []

run-admits_example :
    (subscribed digest reader writer lines 1 start || any (admits lines 1) events) ≡ true
unfolding run step handle_new_connection extract_bearer after_prefix may_read handle_new_message
    subscribe load verify scope_allows parse_line parse_scopes connect note_pong set_filter
    disconnect Registry.init
run-admits_example =
    run-admits digest reader writer lines start 1 events
      (separated (codes "secret"), (separated (codes "other"), (tt, (tt, (tt, tt))))) refl

handle_new_message-first_example :
    first_of 1
      (handle_new_message digest reader writer
        (record start { registry = connect Registry.init 1 })
        1
        (codes "{}")
        MessageType.text).registry.connections
    ≡ mapped
        (told MessageType.text (reader (codes "{}")))
        (first_of 1 (connect Registry.init 1).connections)
handle_new_message-first_example =
    handle_new_message-first digest reader writer
      (record start { registry = connect Registry.init 1 }) 1 1 (codes "{}") MessageType.text
