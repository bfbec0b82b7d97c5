-- ===== src/Ws/OwnerMention.antt =====
-- src/ws/owner_mention_detector.hpp: whether a message calls the webhooks.
use telegram_rest_gateway.Prelude.{Bool, true, false, ◌||◌, if◌then◌else◌, nat_eq, bytes_eq}
use telegram_rest_gateway.Ws.Message.{
  ℤ, Message, ReplyTo, no_reply, reply_to_message, reply_to_other, is_user,
}

pub data TriggerReason : Type 0 where
  dm : TriggerReason
  mention : TriggerReason
  reply : TriggerReason

pub record DetectResult : Type 0 where
  pub triggered : Bool
  pub reply_pending : Bool
  pub reason : TriggerReason

unfoldable pub no_trigger : DetectResult
no_trigger = record { triggered = false; reply_pending = false; reason = dm }

unfoldable pub is_reply : ReplyTo → Bool
is_reply no_reply = false
is_reply (reply_to_message parent) = true
is_reply reply_to_other = false

unfoldable pub detect : Message → ℤ → Bool → Bool → DetectResult
unfolding no_trigger is_reply is_user
detect msg owner_id chat_is_private chat_is_broadcast =
    if chat_is_broadcast || msg.is_outgoing
    then no_trigger
    else if is_user owner_id msg.sender_id
    then no_trigger
    else if msg.contains_unread_mention
    then record { triggered = true; reply_pending = false; reason = mention }
    else if is_reply msg.reply_to
    then record { triggered = false; reply_pending = true; reason = reply }
    else if chat_is_private
    then record { triggered = true; reply_pending = false; reason = dm }
    else no_trigger
