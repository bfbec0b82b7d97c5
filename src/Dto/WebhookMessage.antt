-- ===== src/Dto/WebhookMessage.antt =====
-- src/dto/message_dto.cpp: the projection of a message for a webhook.
use telegram_rest_gateway.Prelude.{
  Option, none, some, List, [], ◌∷◌, if◌then◌else◌, ◌==◌, nat_eq, Bytes, bytes_eq, codes,
}
use telegram_rest_gateway.Prelude.Int.{to_string}
use telegram_rest_gateway.Prelude.Json.{
  Json, Items, nil, item, null, int, string, array, put, member, ◌▷◌,
}
use telegram_rest_gateway.Dto.Objects.{
  Sender, no_sender, sender_user, sender_chat, ReplyTo, no_reply, reply_to_message, reply_to_other,
  EntityType, TextEntity, FormattedText, Content, Message,
}
use telegram_rest_gateway.Dto.Content.{content_to_json}

unfoldable pub put_sender : Sender → Json → Json
unfolding put to_string
put_sender no_sender json = json
put_sender (sender_user id) json =
    json ▷ put (codes "sender") (null ▷ put (codes "id") (string (to_string id)))
put_sender (sender_chat id) json =
    json ▷ put (codes "sender") (null ▷ put (codes "id") (string (to_string id)))

unfoldable pub entity_name : EntityType → Bytes
entity_name EntityType.entity_mention = codes "mention"
entity_name (EntityType.entity_mention_name id) = codes "mention_name"
entity_name EntityType.entity_hashtag = codes "hashtag"
entity_name EntityType.entity_cashtag = codes "cashtag"
entity_name EntityType.entity_bot_command = codes "bot_command"
entity_name EntityType.entity_url = codes "url"
entity_name (EntityType.entity_text_url u) = codes "text_url"
entity_name EntityType.entity_email_address = codes "email_address"
entity_name EntityType.entity_phone_number = codes "phone_number"
entity_name EntityType.entity_bold = codes "bold"
entity_name EntityType.entity_italic = codes "italic"
entity_name EntityType.entity_underline = codes "underline"
entity_name EntityType.entity_strikethrough = codes "strikethrough"
entity_name EntityType.entity_spoiler = codes "spoiler"
entity_name EntityType.entity_code = codes "code"
entity_name EntityType.entity_pre = codes "pre"
entity_name EntityType.entity_pre_code = codes "pre_code"
entity_name EntityType.entity_block_quote = codes "block_quote"
entity_name EntityType.entity_custom_emoji = codes "custom_emoji"
entity_name EntityType.entity_other = codes "other"

-- What two of the variants have besides.
unfoldable pub put_entity_data : EntityType → Json → Json
unfolding put to_string
put_entity_data (EntityType.entity_mention_name id) json =
    put (codes "user_id") (string (to_string id)) json
put_entity_data (EntityType.entity_text_url u) json = put (codes "url") (string u) json
put_entity_data _ json = json

unfoldable pub entity_type_to_json : EntityType → Json
unfolding put entity_name put_entity_data
entity_type_to_json t = null ▷ put (codes "type") (string (entity_name t)) ▷ put_entity_data t

unfoldable pub entity_to_json : EntityType → TextEntity → Json
unfolding put entity_type_to_json
entity_to_json t entity =
    entity_type_to_json t
    ▷ put (codes "offset") (int entity.offset)
    ▷ put (codes "length") (int entity.length)

-- The loop, which passes over null pointers and entities with no type.
unfoldable pub entity_items : List (Option TextEntity) → Items
unfolding entity_to_json
entity_items [] = nil
entity_items (none ∷ es) = entity_items es
entity_items (some e ∷ es) =
    let rest = entity_items es in
    elim e.entity_type [ none ↦ rest | some t ↦ item (entity_to_json t e) rest ]

unfoldable pub entities_to_json : List (Option TextEntity) → Json
unfolding entity_items
entities_to_json entities = array (entity_items entities)

unfoldable pub formatted_text_of : Content → Option FormattedText
formatted_text_of (Content.text t) = t
formatted_text_of (Content.photo caption p) = caption
formatted_text_of (Content.video caption v) = caption
formatted_text_of (Content.voice_note caption v) = caption
formatted_text_of (Content.audio caption a) = caption
formatted_text_of (Content.document caption d) = caption
formatted_text_of (Content.sticker s) = none
formatted_text_of (Content.animation caption a) = caption
formatted_text_of (Content.video_note v) = none
formatted_text_of Content.other_content = none

-- The text and the entities take the place of those that are empty.
unfoldable pub put_formatted : Option FormattedText → Json → Json
unfolding put entities_to_json
put_formatted none json = json
put_formatted (some formatted) json =
    json
    ▷ put (codes "text") (string formatted.text)
    ▷ put (codes "entities") (entities_to_json formatted.entities)

-- asString of a member, which is there and a text.
unfoldable pub text_of : Option Json → Bytes
text_of (some (Json.string s)) = s
text_of _ = []

unfoldable pub put_attachment : Json → Json → Json
unfolding put member text_of
put_attachment content_json json =
    if text_of (member (codes "type") content_json) == codes "text"
    then json
    else put (codes "attachment") content_json json

unfoldable pub put_webhook_content : Option Content → Json → Json
unfolding formatted_text_of put_formatted put_attachment content_to_json
put_webhook_content none json = json
put_webhook_content (some content) json =
    json ▷ put_formatted (formatted_text_of content) ▷ put_attachment (content_to_json content)

unfoldable pub put_reply_to : ReplyTo → Json → Json
unfolding put to_string
put_reply_to no_reply json = json
put_reply_to (reply_to_message id) json =
    json ▷ put (codes "reply_to_message_id") (string (to_string id))
put_reply_to reply_to_other json = json

unfoldable pub webhook_message_to_json : Message → Json
unfolding put to_string put_sender put_webhook_content put_reply_to
webhook_message_to_json message =
    null
    ▷ put (codes "id") (string (to_string message.id))
    ▷ put (codes "chat") (null ▷ put (codes "id") (string (to_string message.chat_id)))
    ▷ put (codes "date") (int message.date)
    ▷ put_sender message.sender_id
    ▷ put (codes "text") (string [])
    ▷ put (codes "entities") (array nil)
    ▷ put_webhook_content message.content
    ▷ put_reply_to message.reply_to
