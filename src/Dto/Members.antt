-- ===== src/Dto/Members.antt =====
-- What can be read back from the projections of messages and users.
use telegram_rest_gateway.Prelude.{
  ◌≡◌, refl, sym, ap, ◌∙◌, Option, none, some, nat_eq, Bytes, bytes_eq, codes,
}
use telegram_rest_gateway.Prelude.Int.{ℤ, to_string, to_string-injective}
use telegram_rest_gateway.Prelude.Json.{
  Json, int, string, json_of, member, member-put, member-put_some, or_else-none,
}
use telegram_rest_gateway.Dto.Objects.{
  Message, UserStatus, status_online, status_offline, status_recently, status_last_week,
  status_last_month, status_other, User,
}
use telegram_rest_gateway.Dto.Projections.{
  message_to_json, put_status, user_status_to_json, value_or_null, first_username, user_to_json,
}

ruleset member_laws = (member-put, member-put_some, or_else-none)

pub message_to_json-id :
    (m : Message) → member (codes "id") (message_to_json m) ≡ some (string (to_string m.id))
unfolding message_to_json
message_to_json-id m = simp member_laws

pub message_to_json-chat_id :
    (m : Message)
    → member (codes "chat_id") (message_to_json m) ≡ some (string (to_string m.chat_id))
unfolding message_to_json
message_to_json-chat_id m = simp member_laws

pub message_to_json-message : (m : Message) → member (codes "message") (message_to_json m) ≡ none
unfolding message_to_json member
message_to_json-message m = simp member_laws

text_injective : (a b : ℤ) → some (string (to_string a)) ≡ some (string (to_string b)) → a ≡ b
text_injective a b e = to_string-injective a b (cc e)

-- Two messages with the same projection have the same id and the same chat: no 64-bit id loses digits on
-- its way through JSON.
pub message_to_json-ids :
    (m n : Message)
    → message_to_json m ≡ message_to_json n
    → (m.id ≡ n.id) × (m.chat_id ≡ n.chat_id)
message_to_json-ids m n e = (
  text_injective m.id n.id
      (sym (message_to_json-id m) ∙ (ap (member (codes "id")) e ∙ message_to_json-id n)),
  text_injective m.chat_id n.chat_id (
      sym (message_to_json-chat_id m)
      ∙ (ap (member (codes "chat_id")) e ∙ message_to_json-chat_id n)),
)

-- The text of a status, and its last time online where it has one.
abbrev pub status_text : UserStatus → Bytes
status_text status_online = codes "online"
status_text (status_offline t) = codes "offline"
status_text status_recently = codes "recently"
status_text status_last_week = codes "last_week"
status_text status_last_month = codes "last_month"
status_text status_other = codes "unknown"

abbrev pub online_of : Option UserStatus → Option Json
online_of (some (status_offline t)) = some (int t)
online_of _ = none

put_status-username :
    (o : Option UserStatus) (j : Json)
    → member (codes "username") (put_status o j) ≡ member (codes "username") j
unfolding put_status
put_status-username none j = refl
put_status-username (some s) j = simp member_laws

put_status-status :
    (o : Option UserStatus) (j : Json)
    → member (codes "status") j ≡ none
    → member (codes "status") (put_status o j) ≡ json_of (λ s. string (status_text s)) o
unfolding put_status user_status_to_json value_or_null
put_status-status none j h = h
put_status-status (some status_online) j h = simp member_laws
put_status-status (some (status_offline t)) j h = simp member_laws
put_status-status (some status_recently) j h = simp member_laws
put_status-status (some status_last_week) j h = simp member_laws
put_status-status (some status_last_month) j h = simp member_laws
put_status-status (some status_other) j h = simp member_laws

put_status-online :
    (o : Option UserStatus) (j : Json)
    → member (codes "was_online") j ≡ none
    → member (codes "was_online") (put_status o j) ≡ online_of o
unfolding put_status user_status_to_json value_or_null
put_status-online none j h = h
put_status-online (some status_online) j h = simp (member_laws, h)
put_status-online (some (status_offline t)) j h = simp member_laws
put_status-online (some status_recently) j h = simp (member_laws, h)
put_status-online (some status_last_week) j h = simp (member_laws, h)
put_status-online (some status_last_month) j h = simp (member_laws, h)
put_status-online (some status_other) j h = simp (member_laws, h)

-- A client gets the first active name of a user that has one, the status of a user that has one, and the
-- time at which the user was last online exactly where the status is offline.
pub user_to_json-members :
    (u : User)
    → let j = user_to_json u in
      (member (codes "username") j ≡ json_of string (first_username u.usernames))
      × (member (codes "status") j ≡ json_of (λ s. string (status_text s)) u.status)
      × (member (codes "was_online") j ≡ online_of u.status)
unfolding user_to_json put_status user_status_to_json value_or_null
user_to_json-members u = (
  simp (put_status-username, member_laws),
  put_status-status u.status _ (simp member_laws),
  put_status-online u.status _ (simp member_laws),
)
