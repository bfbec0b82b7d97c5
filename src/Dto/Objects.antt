-- ===== src/Dto/Objects.antt =====
-- The td_api objects, as far as src/dto, src/ws and src/webhook read them: the classes of TDLib with
-- their fields' names. A null object_ptr is none, and the variants that the source does not name are
-- one constructor.
use telegram_rest_gateway.Prelude.{Bool, Option, List, nat_eq, Bytes, bytes_eq}
use telegram_rest_gateway.Prelude.Int.{ℤ}

-- sender_id_ of a message: a null pointer, messageSenderUser or messageSenderChat.
pub data Sender : Type 0 where
  no_sender : Sender
  sender_user : ℤ → Sender
  sender_chat : ℤ → Sender

-- reply_to_: a null pointer, messageReplyToMessage with its message_id_, or another variant.
pub data ReplyTo : Type 0 where
  no_reply : ReplyTo
  reply_to_message : ℤ → ReplyTo
  reply_to_other : ReplyTo

pub record File : Type 0 where
  pub id : ℤ
  pub size : ℤ
  pub expected_size : ℤ

-- TextEntityType
pub data EntityType : Type 0 where
  entity_mention entity_hashtag entity_cashtag entity_bot_command entity_url : EntityType
  entity_mention_name : ℤ → EntityType
  entity_text_url : Bytes → EntityType
  entity_email_address entity_phone_number entity_bold entity_italic entity_underline : EntityType
  entity_strikethrough entity_spoiler entity_code entity_pre entity_pre_code : EntityType
  entity_block_quote entity_custom_emoji entity_other : EntityType

pub record TextEntity : Type 0 where
  pub offset : ℤ
  pub length : ℤ
  pub entity_type : Option EntityType

pub record FormattedText : Type 0 where
  pub text : Bytes
  pub entities : List (Option TextEntity)

pub record PhotoSize : Type 0 where
  pub width : ℤ
  pub height : ℤ
  pub photo : Option File

pub record Video : Type 0 where
  pub duration : ℤ
  pub width : ℤ
  pub height : ℤ
  pub file_name : Bytes
  pub mime_type : Bytes
  pub file : Option File

pub record VoiceNote : Type 0 where
  pub duration : ℤ
  pub mime_type : Bytes
  pub file : Option File

pub record Audio : Type 0 where
  pub duration : ℤ
  pub title : Bytes
  pub performer : Bytes
  pub file_name : Bytes
  pub mime_type : Bytes
  pub file : Option File

pub record Document : Type 0 where
  pub file_name : Bytes
  pub mime_type : Bytes
  pub file : Option File

pub record Sticker : Type 0 where
  pub emoji : Bytes
  pub width : ℤ
  pub height : ℤ
  pub file : Option File

pub record Animation : Type 0 where
  pub duration : ℤ
  pub width : ℤ
  pub height : ℤ
  pub mime_type : Bytes
  pub file : Option File

pub record VideoNote : Type 0 where
  pub duration : ℤ
  pub file : Option File

-- MessageContent; the first argument of most is the caption_. A photo is its sizes_.
pub data Content : Type 0 where
  text : Option FormattedText → Content
  photo : Option FormattedText → Option (List (Option PhotoSize)) → Content
  video : Option FormattedText → Option Video → Content
  voice_note : Option FormattedText → Option VoiceNote → Content
  audio : Option FormattedText → Option Audio → Content
  document : Option FormattedText → Option Document → Content
  sticker : Option Sticker → Content
  animation : Option FormattedText → Option Animation → Content
  video_note : Option VideoNote → Content
  other_content : Content

pub data ReactionType : Type 0 where
  reaction_emoji : Bytes → ReactionType
  reaction_custom_emoji : ℤ → ReactionType
  reaction_other : ReactionType

pub record Reaction : Type 0 where
  pub reaction_type : Option ReactionType
  pub total_count : ℤ
  pub is_chosen : Bool

-- messageInteractionInfo is its reactions_, and messageReactions is its reactions_.
abbrev pub Reactions : Type 0
Reactions = List (Option Reaction)

abbrev pub InteractionInfo : Type 0
InteractionInfo = Option Reactions

pub record Message : Type 0 where
  pub id : ℤ
  pub chat_id : ℤ
  pub sender_id : Sender
  pub is_outgoing : Bool
  pub contains_unread_mention : Bool
  pub date : ℤ
  pub reply_to : ReplyTo
  pub content : Option Content
  pub interaction_info : Option InteractionInfo

pub data ChatType : Type 0 where
  chat_private : ℤ → ChatType
  chat_basic_group : ChatType
  chat_supergroup : Bool → ChatType
  chat_secret : ChatType
  chat_other : ChatType

pub record Chat : Type 0 where
  pub id : ℤ
  pub title : Bytes
  pub unread_count : ℤ
  pub chat_type : Option ChatType

pub data UserStatus : Type 0 where
  status_online : UserStatus
  status_offline : ℤ → UserStatus
  status_recently status_last_week status_last_month status_other : UserStatus

-- usernames_ is its active_usernames_.
pub record User : Type 0 where
  pub id : ℤ
  pub first_name : Bytes
  pub last_name : Bytes
  pub usernames : Option (List Bytes)
  pub phone_number : Bytes
  pub is_contact : Bool
  pub is_premium : Bool
  pub status : Option UserStatus

pub data MemberStatus : Type 0 where
  member_creator member_administrator member_member : MemberStatus
  member_restricted member_left member_banned member_other : MemberStatus

pub record ChatMember : Type 0 where
  pub member_id : Sender
  pub joined_chat_date : ℤ
  pub status : Option MemberStatus
