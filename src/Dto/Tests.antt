-- ===== src/Dto/Tests.antt =====
-- Projections of concrete objects.
use telegram_rest_gateway.Prelude.{
  ℕ, ◌≡◌, refl, ◌⊎◌, true, false, Option, none, some, List, [], ◌∷◌, nat_eq, bytes_eq, codes, all,
}
use telegram_rest_gateway.Prelude.Int.{pos, negsuc, to_string, decimal, digits}
use telegram_rest_gateway.Prelude.Json.{string, member, find_field, put_field, put}
use telegram_rest_gateway.Dto.Objects.{
  sender_user, no_reply, PhotoSize, FormattedText, Content, Message, status_offline, User,
}
use telegram_rest_gateway.Dto.Content.{
  put_file_ref, best_size, put_size, put_photo, put_captioned, put_content, content_to_json,
}
use telegram_rest_gateway.Dto.WebhookMessage.{
  formatted_text_of, entities_to_json, webhook_message_to_json,
}
use telegram_rest_gateway.Dto.Attachments.{attachment_of, sender_json, webhook_message-members}
use telegram_rest_gateway.Dto.Members.{message_to_json-ids}
use telegram_rest_gateway.Dto.BestSize.{is_null, IsFirstWidest, photo-widest}

abbrev photo_size : ℕ → ℕ → PhotoSize
photo_size w file_id = record {
  width = pos w;
  height = pos 100;
  photo = some (record { id = pos file_id; size = pos 0; expected_size = pos 2048 });
}

-- Two of the sizes are equally wide.
abbrev sizes : List (Option PhotoSize)
sizes =
    some (photo_size 320 1)
    ∷ none
    ∷ some (photo_size 1280 2)
    ∷ some (photo_size 1280 3)
    ∷ some (photo_size 800 4)
    ∷ []

abbrev hello : FormattedText
hello = record { text = codes "hello"; entities = [] }

abbrev photo : Content
photo = Content.photo (some hello) (some sizes)

photo_file : member (codes "file_id") (content_to_json photo) ≡ some (string (codes "2"))
unfolding content_to_json put_content put_captioned put_photo best_size put_size put_file_ref put
    put_field member find_field to_string decimal digits
photo_file = refl

photo-widest_example :
    ((all is_null sizes ≡ true)
      × (content_to_json photo ≡ content_to_json (Content.photo (some hello) none)))
    ⊎ ((best : PhotoSize) × IsFirstWidest best sizes
        × (content_to_json photo
            ≡ put_size (some best) (content_to_json (Content.photo (some hello) none))))
photo-widest_example = photo-widest (some hello) sizes

abbrev message : Message
message = record {
  id = pos 1048576;
  chat_id = negsuc 1001234567889;
  sender_id = sender_user (pos 42);
  is_outgoing = false;
  contains_unread_mention = false;
  date = pos 1700000000;
  reply_to = no_reply;
  content = some photo;
  interaction_info = none;
}

webhook_message-members_example :
    let j = webhook_message_to_json message in
    (member (codes "attachment") j ≡ attachment_of message.content)
    × (member (codes "text") j ≡ some (string (codes "hello")))
    × (member (codes "entities") j ≡ some (entities_to_json []))
    × (member (codes "sender") j ≡ sender_json (sender_user (pos 42)))
    × (member (codes "reply_to_message_id") j ≡ none)
unfolding formatted_text_of
webhook_message-members_example = webhook_message-members message

message_to_json-ids_example : (message.id ≡ message.id) × (message.chat_id ≡ message.chat_id)
message_to_json-ids_example = message_to_json-ids message message refl

abbrev user : User
user = record {
  id = pos 42;
  first_name = codes "Ada";
  last_name = [];
  usernames = some (codes "ada" ∷ codes "lovelace" ∷ []);
  phone_number = [];
  is_contact = true;
  is_premium = false;
  status = some (status_offline (pos 1700000000));
}
