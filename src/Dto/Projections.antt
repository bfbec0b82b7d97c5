-- ===== src/Dto/Projections.antt =====
-- src/dto/message_dto.cpp: the projections of messages, chats, users and members.
use telegram_rest_gateway.Prelude.{
  Option, none, some, List, [], ◌∷◌, if◌then◌else◌, nat_eq, Bytes, bytes_eq, codes,
}
use telegram_rest_gateway.Prelude.Int.{to_string}
use telegram_rest_gateway.Prelude.Json.{
  Json, null, boolean, int, string, put, put_some, member, ◌▷◌,
}
use telegram_rest_gateway.Dto.Objects.{
  Sender, no_sender, sender_user, sender_chat, Reactions, InteractionInfo, Message, ChatType, Chat,
  UserStatus, status_online, status_offline, status_recently, status_last_week, status_last_month,
  status_other, User, MemberStatus, ChatMember,
}
use telegram_rest_gateway.Dto.Content.{content_to_json, reactions_to_json}

-- interaction_info_->reactions_, where neither is null.
unfoldable pub reactions_of : Option InteractionInfo → Option Reactions
reactions_of none = none
reactions_of (some info) = info

unfoldable pub message_to_json : Message → Json
unfolding put to_string content_to_json reactions_to_json reactions_of
message_to_json message =
    null
    ▷ put (codes "id") (string (to_string message.id))
    ▷ put (codes "chat_id") (string (to_string message.chat_id))
    ▷ put (codes "date") (int message.date)
    ▷ put (codes "is_outgoing") (boolean message.is_outgoing)
    ▷ put_some (codes "content") content_to_json message.content
    ▷ put_some (codes "reactions") reactions_to_json (reactions_of message.interaction_info)

unfoldable pub put_chat_type : Option ChatType → Json → Json
unfolding put to_string
put_chat_type none json = json
put_chat_type (some (ChatType.chat_private user_id)) json =
    json
    ▷ put (codes "type") (string (codes "private"))
    ▷ put (codes "user_id") (string (to_string user_id))
put_chat_type (some ChatType.chat_basic_group) json =
    json ▷ put (codes "type") (string (codes "group"))
put_chat_type (some (ChatType.chat_supergroup is_channel)) json =
    json ▷ put (codes "type") (string (if is_channel then codes "channel" else codes "supergroup"))
put_chat_type (some ChatType.chat_secret) json = json ▷ put (codes "type") (string (codes "secret"))
put_chat_type (some ChatType.chat_other) json = json ▷ put (codes "type") (string (codes "other"))

unfoldable pub chat_to_json : Chat → Json
unfolding put to_string put_chat_type
chat_to_json chat =
    null
    ▷ put (codes "id") (string (to_string chat.id))
    ▷ put (codes "title") (string chat.title)
    ▷ put (codes "unread_count") (int chat.unread_count)
    ▷ put_chat_type chat.chat_type

unfoldable pub user_status_to_json : UserStatus → Json
unfolding put
user_status_to_json status_online = null ▷ put (codes "status") (string (codes "online"))
user_status_to_json (status_offline was_online) =
    null
    ▷ put (codes "status") (string (codes "offline"))
    ▷ put (codes "was_online") (int was_online)
user_status_to_json status_recently = null ▷ put (codes "status") (string (codes "recently"))
user_status_to_json status_last_week = null ▷ put (codes "status") (string (codes "last_week"))
user_status_to_json status_last_month = null ▷ put (codes "status") (string (codes "last_month"))
user_status_to_json status_other = null ▷ put (codes "status") (string (codes "unknown"))

-- json["status"] and json["was_online"] from the projection of a status; operator[] of a key that is
-- not there is null.
unfoldable pub value_or_null : Option Json → Json
value_or_null none = null
value_or_null (some v) = v

unfoldable pub put_status : Option UserStatus → Json → Json
unfolding put member user_status_to_json value_or_null
put_status none json = json
put_status (some s) json =
    let status = user_status_to_json s in
    json
    ▷ put (codes "status") (value_or_null (member (codes "status") status))
    ▷ put_some (codes "was_online") (λ v. v) (member (codes "was_online") status)

-- usernames_->active_usernames_.front()
unfoldable pub first_username : Option (List Bytes) → Option Bytes
first_username none = none
first_username (some []) = none
first_username (some (name ∷ names)) = some name

unfoldable pub user_to_json : User → Json
unfolding put to_string first_username put_status
user_to_json user =
    null
    ▷ put (codes "id") (string (to_string user.id))
    ▷ put (codes "first_name") (string user.first_name)
    ▷ put (codes "last_name") (string user.last_name)
    ▷ put_some (codes "username") string (first_username user.usernames)
    ▷ put (codes "phone_number") (string user.phone_number)
    ▷ put (codes "is_contact") (boolean user.is_contact)
    ▷ put (codes "is_premium") (boolean user.is_premium)
    ▷ put_status user.status

unfoldable pub put_member_id : Sender → Json → Json
unfolding put to_string
put_member_id no_sender json = json
put_member_id (sender_user id) json = put (codes "user_id") (string (to_string id)) json
put_member_id (sender_chat id) json = put (codes "chat_id") (string (to_string id)) json

unfoldable pub member_status_text : MemberStatus → Bytes
member_status_text MemberStatus.member_creator = codes "creator"
member_status_text MemberStatus.member_administrator = codes "administrator"
member_status_text MemberStatus.member_member = codes "member"
member_status_text MemberStatus.member_restricted = codes "restricted"
member_status_text MemberStatus.member_left = codes "left"
member_status_text MemberStatus.member_banned = codes "banned"
member_status_text MemberStatus.member_other = codes "unknown"

unfoldable pub member_to_json : ChatMember → Json
unfolding put put_member_id member_status_text
member_to_json m =
    null
    ▷ put_member_id m.member_id
    ▷ put (codes "joined_date") (int m.joined_chat_date)
    ▷ put_some (codes "status") (λ s. string (member_status_text s)) m.status
