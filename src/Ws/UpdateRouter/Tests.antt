-- ===== src/Ws/UpdateRouter/Tests.antt =====
-- Runs of src/ws/update_router.cpp.
use telegram_rest_gateway.Prelude.{
  ℕ, ◌≡◌, refl, ◌↔◌, Bool, true, false, Option, none, some, List, [], ◌∷◌, nat_eq, Bytes, bytes_eq,
  codes,
}
use telegram_rest_gateway.Prelude.Int.{pos, negsuc, int_eq}
use telegram_rest_gateway.Prelude.Json.{Json, object}
use telegram_rest_gateway.Prelude.Map.{find}
use telegram_rest_gateway.Auth.StateManager
use telegram_rest_gateway.Auth.AuthState.{TdAuthState}
use telegram_rest_gateway.Dto.Objects.{Message, sender_user, no_reply}
use telegram_rest_gateway.Dto.Projections.{message_to_json}
use telegram_rest_gateway.Bridge.MessageSendTracker
use telegram_rest_gateway.Bridge.MessageSendTracker.{MessageSendOutcome, Tracker, await_resume}
use telegram_rest_gateway.Bridge.MessageSendTracker.Once.{run-init-Inv}
use telegram_rest_gateway.Ws.Registry
use telegram_rest_gateway.Ws.UpdateRouter.{
  Update, ForwardableUpdate, build_forwardable, Router, event_key, on_update, run, sent_data,
}
use telegram_rest_gateway.Ws.UpdateRouter.Log.{payloads, published, numbered}
use telegram_rest_gateway.Ws.UpdateRouter.Frames.{run-frames, run-published}
use telegram_rest_gateway.Ws.UpdateRouter.Keys.{event_key_iff}
use telegram_rest_gateway.Ws.UpdateRouter.SendOutcome.{Framed, on_update-outcome}

-- A writer, for the parameter.
abbrev brief : Json → Bytes
brief (object fs) = codes "frame"
brief _ = codes "?"

abbrev all_run : ℕ → Bool
all_run l = true

abbrev message : Message
message = record {
  id = pos 1048576;
  chat_id = negsuc 1001234567889;
  sender_id = sender_user (pos 42);
  is_outgoing = true;
  contains_unread_mention = false;
  date = pos 1700000000;
  reply_to = no_reply;
  content = none;
  interaction_info = none;
}

-- A request waits for the message with the temporary id -1.
abbrev waiting : List MessageSendTracker.Event
waiting = MessageSendTracker.Event.waits_for (negsuc 0) (some 1) (some 0) ∷ []

abbrev router : Router
router = record {
  session_id = codes "default";
  auth = StateManager.init;
  tracker = some (MessageSendTracker.run MessageSendTracker.init waiting);
  registry = Registry.connect Registry.init 5;
  has_publisher = true;
  has_ready = true;
  has_hook = true;
  seq = 0;
  forwarded_total = 0;
  log = [];
}

abbrev updates : List (Option Update)
updates =
    some (Update.authorization_state (some TdAuthState.ready))
    ∷ some (Update.connection_state (some true))
    ∷ some (Update.new_message (some message))
    ∷ none
    ∷ some Update.other_update
    ∷ some (Update.send_succeeded (negsuc 0) (some message))
    ∷ []

run-frames_example :
    payloads (run brief all_run all_run router updates).log
    ≡ numbered brief (codes "default") 0 updates []
run-frames_example = run-frames brief all_run all_run router updates

run-published_example :
    let r' = run brief all_run all_run router updates in published r'.log ≡ payloads r'.log
run-published_example = run-published brief all_run all_run router updates refl refl

event_key_iff_example :
    let f : ForwardableUpdate = record {
      update_type = codes "updateNewMessage";
      data_ = message_to_json message;
    } in
    let g : ForwardableUpdate = record {
      update_type = codes "updateMessageSendSucceeded";
      data_ = sent_data (negsuc 0) (some message);
    } in
    (event_key (codes "default") f.data_ ≡ event_key (codes "default") g.data_)
    ↔ (some message.chat_id ≡ some message.chat_id)
unfolding build_forwardable
event_key_iff_example =
    event_key_iff (codes "default") (Update.new_message (some message))
      (Update.send_succeeded (negsuc 0) (some message)) _ _ refl refl refl refl

abbrev sent : MessageSendOutcome
sent = record {
  succeeded = true;
  message = message_to_json message;
  error_code = pos 0;
  error_message = [];
}

on_update-outcome_example :
    ((t' : Tracker) × ((on_update brief all_run all_run router
          (some (Update.send_succeeded (negsuc 0) (some message)))).tracker
        ≡ some t')
      × (await_resume t' 0 ≡ some sent)
      × (find (negsuc 0) t'.waits ≡ none))
    × Framed brief all_run all_run router (Update.send_succeeded (negsuc 0) (some message)) sent
unfolding MessageSendTracker.run MessageSendTracker.init MessageSendTracker.step
    MessageSendTracker.await_suspend MessageSendTracker.try_insert find
on_update-outcome_example =
    on_update-outcome brief all_run all_run router
      (MessageSendTracker.run MessageSendTracker.init waiting)
      (Update.send_succeeded (negsuc 0) (some message)) sent 0 refl (run-init-Inv waiting) refl refl
