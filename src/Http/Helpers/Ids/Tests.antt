-- ===== src/Http/Helpers/Ids/Tests.antt =====
-- Ids read from paths and from a concrete answer.
use telegram_rest_gateway.Prelude.{◌≡◌, refl, false, none, some, nat_eq, bytes_eq, codes}
use telegram_rest_gateway.Prelude.Int.{pos, negsuc}
use telegram_rest_gateway.Dto.Objects.{sender_user, no_reply, Message}
use telegram_rest_gateway.Dto.Projections.{message_to_json}
use telegram_rest_gateway.Config.Environment.{parse_unsigned, leading_digits, number_of}
use telegram_rest_gateway.Http.Helpers.Ids.{
  skip_white, signed_digits, stoll, whole_text, parse_id, id_in, parse_id-message_to_json,
}

abbrev message : Message
message = record {
  id = pos 1048576;
  chat_id = negsuc 1001234567889;
  sender_id = sender_user (pos 42);
  is_outgoing = false;
  contains_unread_mention = false;
  date = pos 1700000000;
  reply_to = no_reply;
  content = none;
  interaction_info = none;
}

parse_id-message_to_json_example :
    (id_in (codes "id") (message_to_json message) ≡ some (pos 1048576))
    × (id_in (codes "chat_id") (message_to_json message) ≡ some (negsuc 1001234567889))
parse_id-message_to_json_example = parse_id-message_to_json message refl refl

accepts_plus : parse_id (codes " +12") ≡ some (pos 12)
unfolding parse_id stoll skip_white signed_digits parse_unsigned leading_digits whole_text number_of
accepts_plus = refl

rejects_trailing : parse_id (codes "12 ") ≡ none
unfolding parse_id stoll skip_white signed_digits parse_unsigned leading_digits whole_text number_of
rejects_trailing = refl
