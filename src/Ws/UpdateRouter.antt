-- ===== src/Ws/UpdateRouter.antt =====
-- src/ws/update_router.{hpp,cpp}: where an update of TDLib goes. All of it runs on the receiver thread,
-- so onUpdate is one step on the objects that the router refers to; what it sends and calls is a log.
pub mod Log
pub mod Steps
pub mod Frames
pub mod Keys
pub mod SendOutcome
pub mod Tests
use telegram_rest_gateway.Prelude.{
  ℕ, zero, suc, ◌+◌, ◌-◌, ◌*◌, ◌/◌, ◌%◌, ◌^◌, ◌≤◌, ◌<◌, min, max, ◌≡◌, refl, sym, ap, ◌∙◌, subst,
  ◌≢◌, ◌↔◌, ◌⊎◌, inl, inr, Bool, true, false, ◌&&◌, ◌||◌, not, Option, none, some, List, [], ◌∷◌,
  ◌++◌, map, arith, ltb, leb, ltb→lt, lt→ltb, leb→le, if◌then◌else◌, Bool-cases, Option-cases, Eq,
  ◌==◌, eq_refl, nat_eq, Bytes, bytes_beq_iff, nat_beq_iff, bytes_eq, codes, length, get_elem?,
  get_or, take, drop, keep_if, all, any, length-append, length-keep_if-le, take-append-drop,
  length-take, length-drop, drop-append, take-append, All, All-append, All-map, All-keep_if, All-at,
  some-injective,
}
use telegram_rest_gateway.Prelude.Int.{ℤ, to_string}
use telegram_rest_gateway.Prelude.Json.{
  Json, Items, nil, item, null, int, string, array, put, put_some, member, ◌▷◌,
}
use telegram_rest_gateway.Auth.AuthState.{TdAuthState}
use telegram_rest_gateway.Auth.StateManager
use telegram_rest_gateway.Auth.StateManager.{Manager}
use telegram_rest_gateway.Bridge.MessageSendTracker.{Tracker, resolve_succeeded, resolve_failed}
use telegram_rest_gateway.Ws.Registry.{Registry, fan_out}
use telegram_rest_gateway.Dto.Objects.{
  Sender, no_sender, sender_user, sender_chat, Content, Reactions, InteractionInfo, Message, Chat,
  UserStatus,
}
use telegram_rest_gateway.Dto.Content.{content_to_json, reactions_to_json}
use telegram_rest_gateway.Dto.Projections.{reactions_of, message_to_json, chat_to_json, put_status}

-- The updates of td_api that the router reads; a null pointer is none. The state of a connection is ready
-- or another, an action is chatActionCancel or another, and an error is its code and message.
pub data Update : Type 0 where
  authorization_state : Option TdAuthState → Update
  connection_state : Option Bool → Update
  new_message : Option Message → Update
  send_succeeded : ℤ → Option Message → Update
  send_failed : ℤ → Option Message → Option (ℤ × Bytes) → Update
  new_chat : Option Chat → Update
  interaction_info : ℤ → ℤ → Option InteractionInfo → Update
  delete_messages : ℤ → List ℤ → Update
  message_edited : ℤ → ℤ → ℤ → Update
  message_content : ℤ → ℤ → Option Content → Update
  chat_read_inbox : ℤ → ℤ → ℤ → Update
  user_status : ℤ → Option UserStatus → Update
  chat_action : ℤ → Sender → Option Bool → Update
  other_update : Update

pub record ForwardableUpdate : Type 0 where
  pub update_type : Bytes
  pub data_ : Json

unfoldable pub id_items : List ℤ → Items
unfolding to_string
id_items [] = nil
id_items (id ∷ ids) = item (string (to_string id)) (id_items ids)

unfoldable pub id_array : List ℤ → Json
unfolding id_items
id_array ids = array (id_items ids)

-- json[k] = std::to_string(id)
unfoldable pub put_id : Bytes → ℤ → Json → Json
unfolding put to_string
put_id k id json = put k (string (to_string id)) json

unfoldable pub sent_data : ℤ → Option Message → Json
unfolding put_id put message_to_json
sent_data old_id m =
    null ▷ put_id (codes "old_message_id") old_id ▷ put_some (codes "message") message_to_json m

unfoldable pub reactions_or_empty : Option Reactions → Json
unfolding reactions_to_json
reactions_or_empty none = array nil
reactions_or_empty (some reactions) = reactions_to_json reactions

unfoldable pub put_user : Sender → Json → Json
unfolding put_id
put_user no_sender json = json
put_user (sender_user id) json = put_id (codes "user_id") id json
put_user (sender_chat id) json = json

unfoldable pub action_text : Option Bool → Bytes
action_text none = codes "typing"
action_text (some is_cancel) = if is_cancel then codes "cancel" else codes "typing"

unfoldable pub build_forwardable : Update → Option ForwardableUpdate
unfolding put message_to_json chat_to_json sent_data put_id reactions_of reactions_or_empty id_array
    content_to_json put_status put_user action_text
build_forwardable (Update.authorization_state s) = none
build_forwardable (Update.connection_state s) = none
build_forwardable (Update.new_message none) = none
build_forwardable (Update.new_message (some m)) =
    some (record { update_type = codes "updateNewMessage"; data_ = message_to_json m })
build_forwardable (Update.send_succeeded old_id m) =
    some (record { update_type = codes "updateMessageSendSucceeded"; data_ = sent_data old_id m })
build_forwardable (Update.send_failed old_id m e) =
    some (record { update_type = codes "updateMessageSendFailed"; data_ = sent_data old_id m })
build_forwardable (Update.new_chat none) = none
build_forwardable (Update.new_chat (some c)) =
    some (record { update_type = codes "updateNewChat"; data_ = chat_to_json c })
build_forwardable (Update.interaction_info chat_id message_id info) = some (record {
  update_type = codes "updateMessageInteractionInfo";
  data_ =
      null
      ▷ put_id (codes "chat_id") chat_id
      ▷ put_id (codes "message_id") message_id
      ▷ put (codes "reactions") (reactions_or_empty (reactions_of info));
})
build_forwardable (Update.delete_messages chat_id ids) = some (record {
  update_type = codes "updateDeleteMessages";
  data_ = null ▷ put_id (codes "chat_id") chat_id ▷ put (codes "message_ids") (id_array ids);
})
build_forwardable (Update.message_edited chat_id message_id date) = some (record {
  update_type = codes "updateMessageEdited";
  data_ =
      null
      ▷ put_id (codes "chat_id") chat_id
      ▷ put_id (codes "message_id") message_id
      ▷ put (codes "edit_date") (int date);
})
build_forwardable (Update.message_content chat_id message_id content) = some (record {
  update_type = codes "updateMessageContent";
  data_ =
      null
      ▷ put_id (codes "chat_id") chat_id
      ▷ put_id (codes "message_id") message_id
      ▷ put_some (codes "new_content") content_to_json content;
})
build_forwardable (Update.chat_read_inbox chat_id last unread) = some (record {
  update_type = codes "updateChatReadInbox";
  data_ =
      null
      ▷ put_id (codes "chat_id") chat_id
      ▷ put_id (codes "last_read_inbox_message_id") last
      ▷ put (codes "unread_count") (int unread);
})
build_forwardable (Update.user_status user_id status) = some (record {
  update_type = codes "updateUserStatus";
  data_ = null ▷ put_id (codes "user_id") user_id ▷ put_status status;
})
build_forwardable (Update.chat_action chat_id sender action) = some (record {
  update_type = codes "updateChatAction";
  data_ =
      null
      ▷ put_id (codes "chat_id") chat_id
      ▷ put_user sender
      ▷ put (codes "action") (string (action_text action));
})
build_forwardable Update.other_update = none

-- What onUpdate does outside of the objects: fanOut with its type, its payload, whom it sent it to and
-- whom it closed; a call of the publisher; of the webhook hook; and of the callback on a ready connection.
pub data Effect : Type 0 where
  fans_out : Bytes → Bytes → List ℕ → List ℕ → Effect
  publishes : Bytes → Bytes → Effect
  hooks : Message → Effect
  calls_ready : Effect

-- Of the callbacks and the tracker, which are set before the start, the model keeps whether they are. The
-- log has the last effect first.
pub record Router : Type 0 where
  pub session_id : Bytes
  pub auth : Manager
  pub tracker : Option Tracker
  pub registry : Registry
  pub has_publisher : Bool
  pub has_ready : Bool
  pub has_hook : Bool
  pub seq : ℕ
  pub forwarded_total : ℕ
  pub log : List Effect

abbrev pub counter_mod : ℕ
counter_mod = 2 ^ 64

-- The tracker is told of a send's outcome.
unfoldable pub resolve_send : (ℕ → Bool) → Tracker → Update → Tracker
unfolding resolve_succeeded resolve_failed message_to_json
resolve_send running t (Update.send_succeeded old_id (some m)) =
    resolve_succeeded running t old_id (message_to_json m)
resolve_send running t (Update.send_failed old_id m (some (code, message))) =
    resolve_failed running t old_id code message
resolve_send running t _ = t

unfoldable pub frame_of : Bytes → ℕ → ForwardableUpdate → Json
unfolding put
frame_of session_id seq f =
    null
    ▷ put (codes "type") (string (codes "update"))
    ▷ put (codes "update_type") (string f.update_type)
    ▷ put (codes "seq") (int (ℤ.pos seq))
    ▷ put (codes "session_id") (string session_id)
    ▷ put (codes "data") f.data_

-- A member that is there and a text.
unfoldable pub text_member : Bytes → Option Json → Option Bytes
unfolding member
text_member k none = none
text_member k (some j) = text (member k j)
  where
    text : Option Json → Option Bytes
    text (some (Json.string s)) = some s
    text _ = none

unfoldable pub event_key : Bytes → Json → Bytes
unfolding text_member member
event_key session_id data_ = elim (text_member (codes "chat_id") (some data_)) [
  | some chat ↦ session_id ++ b':' ∷ chat
  | none ↦ elim (text_member (codes "chat_id") (member (codes "message") data_)) [
    | some chat ↦ session_id ++ b':' ∷ chat
    | none ↦ session_id
  ]
]

-- The message that the hook gets.
unfoldable pub hooked_message : Update → Option Message
hooked_message (Update.new_message m) = m
hooked_message _ = none

module _ (compact : Json → Bytes) (running is_up : ℕ → Bool) where
  unfoldable pub publish : Router → Json → Bytes → Router
  unfolding event_key
  publish r data_ payload =
      if r.has_publisher
      then record r { log = publishes (event_key r.session_id data_) payload ∷ r.log }
      else r

  unfoldable pub call_hook : Router → Update → Router
  unfolding hooked_message
  call_hook r u =
      if r.has_hook
      then elim (hooked_message u) [ none ↦ r | some m ↦ record r { log = hooks m ∷ r.log } ]
      else r

  unfoldable pub send_frame : Router → ForwardableUpdate → Router
  unfolding frame_of fan_out publish
  send_frame r f =
      let seq = (r.seq + 1) % counter_mod in
      let payload = compact (frame_of r.session_id seq f) in
      let (registry, alive, slow) = fan_out is_up r.registry f.update_type payload in
      publish
        (record r {
          seq = seq;
          forwarded_total = (r.forwarded_total + 1) % counter_mod;
          registry = registry;
          log = fans_out f.update_type payload alive slow ∷ r.log;
        })
        f.data_ payload

  unfoldable pub forward : Router → Update → Router
  unfolding build_forwardable send_frame call_hook
  forward r u = elim (build_forwardable u) [ none ↦ r | some f ↦ call_hook (send_frame r f) u ]

  unfoldable pub tell_tracker : Router → Update → Router
  unfolding resolve_send
  tell_tracker r u = elim r.tracker [
    | none ↦ r
    | some t ↦ record r { tracker = some (resolve_send running t u) }
  ]

  unfoldable pub on_update : Router → Option Update → Router
  unfolding forward tell_tracker StateManager.on_update
  on_update r none = r
  on_update r (some (Update.authorization_state s)) = record r {
    auth = StateManager.on_update r.auth (some (StateManager.Update.authorization_state s));
  }
  on_update r (some (Update.connection_state none)) = r
  on_update r (some (Update.connection_state (some is_ready))) =
      if r.has_ready && is_ready then record r { log = calls_ready ∷ r.log } else r
  on_update r (some u) = forward (tell_tracker r u) u

  unfoldable pub run : Router → List (Option Update) → Router
  run r [] = r
  run r (u ∷ us) = run (on_update r u) us
