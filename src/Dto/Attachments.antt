-- ===== src/Dto/Attachments.antt =====
-- What a webhook's message carries.
use telegram_rest_gateway.Prelude.{
  ◌≡◌, refl, ◌∙◌, inl, inr, Option, none, some, List, [], arith, if◌then◌else◌, Bool-cases,
  Option-cases, ◌==◌, nat_eq, Bytes, bytes_eq, codes,
}
use telegram_rest_gateway.Prelude.Int.{to_string}
use telegram_rest_gateway.Prelude.Json.{
  Json, nil, null, string, array, put, member, member-put, or_else, or_else-none, ◌▷◌,
}
use telegram_rest_gateway.Dto.Objects.{
  Sender, no_sender, sender_user, sender_chat, ReplyTo, no_reply, reply_to_other, reply_to_message,
  File, PhotoSize, FormattedText, Content, Message,
}
use telegram_rest_gateway.Dto.Content.{
  best_size, put_file_ref, put_size, put_photo, put_video, put_voice_note, put_audio, put_document,
  put_sticker, put_animation, put_video_note, put_captioned, put_content, content_to_json,
}
use telegram_rest_gateway.Dto.WebhookMessage.{
  entity_items, entities_to_json, put_sender, text_of, put_formatted, put_attachment,
  put_webhook_content, put_reply_to, formatted_text_of, webhook_message_to_json,
}

put_file_ref-type :
    (f : Option File) (j : Json)
    → member (codes "type") (put_file_ref f j) ≡ member (codes "type") j
unfolding put_file_ref
put_file_ref-type none j = refl
put_file_ref-type (some f) j = simp member-put

put_size-type :
    (b : Option PhotoSize) (j : Json)
    → member (codes "type") (put_size b j) ≡ member (codes "type") j
unfolding put_size
put_size-type none j = refl
put_size-type (some b) j = simp (member-put, put_file_ref-type)

put_photo-type :
    (p : Option (List (Option PhotoSize))) (j : Json)
    → member (codes "type") (put_photo p j) ≡ member (codes "type") j
unfolding put_photo
put_photo-type none j = refl
put_photo-type (some sizes) j = put_size-type (best_size none sizes) j

ruleset type_laws = (member-put, put_file_ref-type, put_photo-type)

-- The discriminator of each variant.
abbrev type_name : Content → Bytes
type_name (Content.text t) = codes "text"
type_name (Content.photo caption p) = codes "photo"
type_name (Content.video caption v) = codes "video"
type_name (Content.voice_note caption v) = codes "voice"
type_name (Content.audio caption a) = codes "audio"
type_name (Content.document caption d) = codes "document"
type_name (Content.sticker s) = codes "sticker"
type_name (Content.animation caption a) = codes "animation"
type_name (Content.video_note v) = codes "video_note"
type_name Content.other_content = codes "unsupported"

content-type :
    (c : Content) → member (codes "type") (content_to_json c) ≡ some (string (type_name c))
unfolding content_to_json put_content put_captioned put_video put_voice_note put_audio put_document
    put_sticker put_animation put_video_note
content-type (Content.text t) = simp type_laws
content-type (Content.photo caption p) = simp type_laws
content-type (Content.video caption none) = simp type_laws
content-type (Content.video caption (some v)) = simp type_laws
content-type (Content.voice_note caption none) = simp type_laws
content-type (Content.voice_note caption (some v)) = simp type_laws
content-type (Content.audio caption none) = simp type_laws
content-type (Content.audio caption (some a)) = simp type_laws
content-type (Content.document caption none) = simp type_laws
content-type (Content.document caption (some d)) = simp type_laws
content-type (Content.sticker none) = simp type_laws
content-type (Content.sticker (some s)) = simp type_laws
content-type (Content.animation caption none) = simp type_laws
content-type (Content.animation caption (some a)) = simp type_laws
content-type (Content.video_note none) = simp type_laws
content-type (Content.video_note (some v)) = simp type_laws
content-type Content.other_content = simp type_laws

-- What a message has for an attachment: its content, unless it is a text.
abbrev pub attachment_of : Option Content → Option Json
attachment_of none = none
attachment_of (some (Content.text t)) = none
attachment_of (some c) = some (content_to_json c)

abbrev pub formatted_of : Option Content → Option FormattedText
formatted_of none = none
formatted_of (some c) = formatted_text_of c

abbrev pub reply_id : ReplyTo → Option Json
reply_id (reply_to_message id) = some (string (to_string id))
reply_id _ = none

abbrev pub sender_json : Sender → Option Json
sender_json no_sender = none
sender_json (sender_user id) = some (null ▷ put (codes "id") (string (to_string id)))
sender_json (sender_chat id) = some (null ▷ put (codes "id") (string (to_string id)))

member-put_reply_to :
    (k : Bytes) (r : ReplyTo) (j : Json)
    → member k (put_reply_to r j)
      ≡ (if codes "reply_to_message_id" == k then or_else (reply_id r) (member k j) else member k j)
unfolding put_reply_to
member-put_reply_to k no_reply j = ground arith
member-put_reply_to k (reply_to_message id) j = simp member-put
member-put_reply_to k reply_to_other j = ground arith

member-put_sender :
    (k : Bytes) (r : Sender) (j : Json)
    → member k (put_sender r j)
      ≡ (if codes "sender" == k then or_else (sender_json r) (member k j) else member k j)
unfolding put_sender
member-put_sender k no_sender j = ground arith
member-put_sender k (sender_user id) j = simp member-put
member-put_sender k (sender_chat id) j = simp member-put

attach :
    (k : Bytes) (t : Bytes) (content j : Json)
    → member (codes "type") content ≡ some (string t)
    → member k (put_attachment content j) ≡ (
        if t == codes "text"
        then member k j
        else if codes "attachment" == k
        then some content
        else member k j)
unfolding put_attachment text_of
attach k t content j e = elim (Bool-cases (t == codes "text")) [
  | inl same ↦ rw (e, same)
  | inr other ↦ rw (e, other) (member-put k (codes "attachment") content j)
]

unless_text :
    (k : Bytes) (c : Content) (o : Option Json)
    → (if type_name c == codes "text"
        then o
        else if codes "attachment" == k
        then some (content_to_json c)
        else o)
      ≡ (if codes "attachment" == k then or_else (attachment_of (some c)) o else o)
unless_text k (Content.text t) o = elim (Bool-cases (codes "attachment" == k)) [
  | inl e ↦ rw e
  | inr e ↦ rw e
]
unless_text k c o = refl

member-put_attachment :
    (k : Bytes) (c : Content) (j : Json)
    → member k (put_attachment (content_to_json c) j) ≡ (
        if codes "attachment" == k
        then or_else (attachment_of (some c)) (member k j)
        else member k j)
member-put_attachment k c j =
    attach k (type_name c) (content_to_json c) j (content-type c) ∙ unless_text k c (member k j)

-- The text and the entities of a message, which are empty where nothing has a text.
abbrev pub formatted_or_empty : Option FormattedText → FormattedText
formatted_or_empty none = record { text = []; entities = [] }
formatted_or_empty (some t) = t

member-put_formatted :
    (k : Bytes) (f : Option FormattedText) (j : Json)
    → member k
        (put_formatted f (j ▷ put (codes "text") (string []) ▷ put (codes "entities") (array nil)))
      ≡ (if codes "entities" == k
          then some (entities_to_json (formatted_or_empty f).entities)
          else if codes "text" == k
          then some (string (formatted_or_empty f).text)
          else member k j)
unfolding put_formatted entities_to_json entity_items
member-put_formatted k none j = simp member-put
member-put_formatted k (some f) j = elim (Bool-cases (codes "entities" == k)) [
  | inl e ↦ simp (member-put, e)
  | inr e ↦ elim (Bool-cases (codes "text" == k)) [
    | inl e' ↦ simp (member-put, e, e')
    | inr e' ↦ simp (member-put, e, e')
  ]
]

ruleset message_laws = (
  member-put, member-put_sender, member-put_formatted, member-put_attachment, member-put_reply_to,
  or_else-none,
)

-- The message of a webhook has the content as its attachment exactly if it has a content that is no
-- text, the text and the entities of the content or of its caption, empty where it has none, the
-- sender's id if it has a sender, and the id of the message that it answers if it answers one.
pub webhook_message-members :
    (m : Message)
    → let j = webhook_message_to_json m in
      let formatted = formatted_or_empty (formatted_of m.content) in
      (member (codes "attachment") j ≡ attachment_of m.content)
      × (member (codes "text") j ≡ some (string formatted.text))
      × (member (codes "entities") j ≡ some (entities_to_json formatted.entities))
      × (member (codes "sender") j ≡ sender_json m.sender_id)
      × (member (codes "reply_to_message_id") j ≡ reply_id m.reply_to)
unfolding webhook_message_to_json put_webhook_content entities_to_json entity_items
webhook_message-members m = elim (Option-cases m.content) [
  | inl e ↦ rw e (
    simp message_laws,
    simp message_laws,
    simp message_laws,
    simp message_laws,
    simp message_laws,
  )
  | inr (c, e) ↦ rw e (
    simp message_laws,
    simp message_laws,
    simp message_laws,
    simp message_laws,
    simp message_laws,
  )
]
