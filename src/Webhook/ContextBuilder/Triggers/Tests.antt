-- ===== src/Webhook/ContextBuilder/Triggers/Tests.antt =====
-- A reply of user 5 to message 10 of the owner, user 7.
use telegram_rest_gateway.Prelude.{
  ℕ, ◌≤◌, ◌≡◌, refl, ◌≢◌, true, false, Option, none, some, List, [], ◌∷◌, ◌++◌, map, arith, nat_eq,
  bytes_eq, codes, length,
}
use telegram_rest_gateway.Prelude.Int.{to_string}
use telegram_rest_gateway.Dto.WebhookMessage.{webhook_message_to_json}
use telegram_rest_gateway.Ws.Message.{
  ℤ, pos, negsuc, int_eq, Message, is_user, sender_user, reply_to_message, no_reply,
}
use telegram_rest_gateway.Ws.OwnerMention.{mention, reply, DetectResult, detect}
use telegram_rest_gateway.Webhook.ContextBuilder.{
  WebhookEvent, reply_parent_id, id_or_zero, steps, build_event,
}
use telegram_rest_gateway.Webhook.ContextBuilder.Ancestors.{build_event-chain, Lineage, next_parent}
use telegram_rest_gateway.Webhook.ContextBuilder.Triggers.{
  build_event-confirms, build_event_unknown_parent, OwnersParent,
}

abbrev owner : ℤ
owner = pos 7

abbrev message_from : ℤ → ℕ → ℤ → Message
message_from user n parent = record {
  id = pos n;
  chat_id = negsuc 99;
  sender_id = sender_user user;
  is_outgoing = false;
  contains_unread_mention = false;
  reply_to = reply_to_message parent;
  date = pos 0;
  content = none;
  interaction_info = none;
}

abbrev owners : Message
owners = record (message_from owner 10 (pos 0)) { reply_to = no_reply }

abbrev answer : Message
answer = message_from (pos 5) 11 (pos 10)

abbrev lost : Message
lost = message_from (pos 5) 12 (pos 0)

-- Every getMessage is answered with the message of the owner, or none is.
abbrev reads : ℕ → ℤ → ℤ → Option Message
reads hop chat_id id = some owners

abbrev fails : ℕ → ℤ → ℤ → Option Message
fails hop chat_id id = none

abbrev pending_answer : DetectResult
pending_answer = record { triggered = false; reply_pending = true; reason = reply }

abbrev answer_event : WebhookEvent
answer_event = record {
  event_id = codes "s" ++ b':' ∷ to_string (negsuc 99) ++ b':' ∷ to_string (pos 11);
  session_id = codes "s";
  owner_id = to_string owner;
  trigger_reason = codes "reply";
  received_at = pos 1000;
  message = webhook_message_to_json answer;
  reply_chain = webhook_message_to_json owners ∷ [];
  chain_truncated = false;
}

detects_answer : detect answer owner false false ≡ pending_answer
unfolding detect
detects_answer = refl

builds_answer :
    build_event reads answer pending_answer owner (codes "s") (pos 1000) (pos 20)
    ≡ some answer_event
unfolding build_event is_user to_string
builds_answer = refl

drops_unread_answer :
    build_event fails answer pending_answer owner (codes "s") (pos 1000) (pos 20) ≡ none
unfolding build_event
drops_unread_answer = refl

answers_ten : reply_parent_id answer ≡ some (pos 10)
unfolding reply_parent_id
answers_ten = refl

ten_known : pos 10 ≢ pos 0
ten_known = ground arith

build_event-confirms_example : OwnersParent reads owner (negsuc 99) (pos 10)
build_event-confirms_example =
    build_event-confirms reads answer pending_answer owner (codes "s") (pos 1000) (pos 20)
      answer_event (pos 10) refl answers_ten ten_known builds_answer

build_event-chain_example :
    (parents : List Message) × (webhook_message_to_json owners ∷ []
      ≡ map webhook_message_to_json parents)
    × Lineage reads (negsuc 99) 0 (id_or_zero (reply_parent_id answer)) parents
    × (length parents ≤ steps (pos 20))
    × (false ≡ false
        → next_parent reads (negsuc 99) (id_or_zero (reply_parent_id answer)) parents ≡ pos 0)
build_event-chain_example =
    build_event-chain reads answer pending_answer owner (codes "s") (pos 1000) (pos 20) answer_event
      builds_answer

abbrev mentioned : DetectResult
mentioned = record { triggered = true; reply_pending = false; reason = mention }

detects_lost : (detect lost owner false false).reply_pending ≡ true
unfolding detect
detects_lost = refl

answers_zero : reply_parent_id lost ≡ some (pos 0)
unfolding reply_parent_id
answers_zero = refl

build_event_unknown_parent_example :
    (ev : WebhookEvent) × (build_event fails lost
        (detect lost owner false false)
        owner
        (codes "s")
        (pos 1000)
        (pos 20)
      ≡ some ev)
    × (ev.trigger_reason ≡ codes "reply")
    × (ev.reply_chain ≡ [])
build_event_unknown_parent_example =
    build_event_unknown_parent fails lost owner (codes "s") (pos 1000) 19 false detects_lost
      answers_zero
