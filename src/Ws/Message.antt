-- ===== src/Ws/Message.antt =====
-- What src/ws and src/webhook read of td_api::message, of its declaration in Dto.Objects.
use telegram_rest_gateway.Prelude.{Bool, false, ◌==◌, nat_eq, bytes_eq}
pub use telegram_rest_gateway.Prelude.Int.{ℤ, pos, negsuc, int_eq}
pub use telegram_rest_gateway.Dto.Objects.{
  Sender, no_sender, sender_user, sender_chat, ReplyTo, no_reply, reply_to_message, reply_to_other,
  Message,
}

-- The sender is the user with the id.
unfoldable pub is_user : ℤ → Sender → Bool
is_user owner_id no_sender = false
is_user owner_id (sender_user u) = u == owner_id
is_user owner_id (sender_chat c) = false
