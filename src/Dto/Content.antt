-- ===== src/Dto/Content.antt =====
-- src/dto/message_dto.cpp: the projections of what a message carries and of its reactions.
use telegram_rest_gateway.Prelude.{
  true, false, Option, none, some, List, [], ◌∷◌, if◌then◌else◌, ◌==◌, nat_eq, Bytes, bytes_eq,
  codes,
}
use telegram_rest_gateway.Prelude.Int.{pos, int_eq, to_string, int_ltb}
use telegram_rest_gateway.Prelude.Json.{
  Json, Items, nil, item, null, boolean, int, string, array, put, ◌▷◌,
}
use telegram_rest_gateway.Dto.Objects.{
  File, FormattedText, PhotoSize, Video, VoiceNote, Audio, Document, Sticker, Animation, VideoNote,
  Content, ReactionType, Reaction, Reactions,
}

unfoldable pub put_file_ref : Option File → Json → Json
unfolding put to_string
put_file_ref none json = json
put_file_ref (some file) json =
    json
    ▷ put (codes "file_id") (string (to_string file.id))
    ▷ put (codes "size") (int (if file.size == pos 0 then file.expected_size else file.size))

unfoldable pub caption_text : Option FormattedText → Bytes
caption_text none = []
caption_text (some caption) = caption.text

-- The loop over sizes_ for the widest one.
unfoldable pub best_size : Option PhotoSize → List (Option PhotoSize) → Option PhotoSize
best_size best [] = best
best_size best (none ∷ sizes) = best_size best sizes
best_size none (some size ∷ sizes) = best_size (some size) sizes
best_size (some best) (some size ∷ sizes) =
    best_size (some (if int_ltb best.width size.width then size else best)) sizes

unfoldable pub put_size : Option PhotoSize → Json → Json
unfolding put put_file_ref
put_size none json = json
put_size (some best) json =
    json
    ▷ put (codes "width") (int best.width)
    ▷ put (codes "height") (int best.height)
    ▷ put_file_ref best.photo

unfoldable pub put_photo : Option (List (Option PhotoSize)) → Json → Json
unfolding put_size best_size
put_photo none json = json
put_photo (some sizes) json = put_size (best_size none sizes) json

unfoldable pub put_video : Option Video → Json → Json
unfolding put put_file_ref
put_video none json = json
put_video (some v) json =
    json
    ▷ put (codes "duration") (int v.duration)
    ▷ put (codes "width") (int v.width)
    ▷ put (codes "height") (int v.height)
    ▷ put (codes "file_name") (string v.file_name)
    ▷ put (codes "mime_type") (string v.mime_type)
    ▷ put_file_ref v.file

unfoldable pub put_voice_note : Option VoiceNote → Json → Json
unfolding put put_file_ref
put_voice_note none json = json
put_voice_note (some v) json =
    json
    ▷ put (codes "duration") (int v.duration)
    ▷ put (codes "mime_type") (string v.mime_type)
    ▷ put_file_ref v.file

unfoldable pub put_audio : Option Audio → Json → Json
unfolding put put_file_ref
put_audio none json = json
put_audio (some a) json =
    json
    ▷ put (codes "duration") (int a.duration)
    ▷ put (codes "title") (string a.title)
    ▷ put (codes "performer") (string a.performer)
    ▷ put (codes "file_name") (string a.file_name)
    ▷ put (codes "mime_type") (string a.mime_type)
    ▷ put_file_ref a.file

unfoldable pub put_document : Option Document → Json → Json
unfolding put put_file_ref
put_document none json = json
put_document (some d) json =
    json
    ▷ put (codes "file_name") (string d.file_name)
    ▷ put (codes "mime_type") (string d.mime_type)
    ▷ put_file_ref d.file

unfoldable pub put_sticker : Option Sticker → Json → Json
unfolding put put_file_ref
put_sticker none json = json
put_sticker (some s) json =
    json
    ▷ put (codes "emoji") (string s.emoji)
    ▷ put (codes "width") (int s.width)
    ▷ put (codes "height") (int s.height)
    ▷ put_file_ref s.file

unfoldable pub put_animation : Option Animation → Json → Json
unfolding put put_file_ref
put_animation none json = json
put_animation (some a) json =
    json
    ▷ put (codes "duration") (int a.duration)
    ▷ put (codes "width") (int a.width)
    ▷ put (codes "height") (int a.height)
    ▷ put (codes "mime_type") (string a.mime_type)
    ▷ put_file_ref a.file

unfoldable pub put_video_note : Option VideoNote → Json → Json
unfolding put put_file_ref
put_video_note none json = json
put_video_note (some v) json = json ▷ put (codes "duration") (int v.duration) ▷ put_file_ref v.file

-- The first two keys of most variants.
unfoldable pub put_captioned : Bytes → Option FormattedText → Json → Json
unfolding put caption_text
put_captioned name caption json =
    json ▷ put (codes "type") (string name) ▷ put (codes "caption") (string (caption_text caption))

-- The switch.
unfoldable pub put_content : Content → Json → Json
unfolding put caption_text put_captioned put_photo put_video put_voice_note put_audio put_document
    put_sticker put_animation put_video_note
put_content (Content.text t) json =
    json ▷ put (codes "type") (string (codes "text")) ▷ put (codes "text") (string (caption_text t))
put_content (Content.photo caption p) json =
    json ▷ put_captioned (codes "photo") caption ▷ put_photo p
put_content (Content.video caption v) json =
    json ▷ put_captioned (codes "video") caption ▷ put_video v
put_content (Content.voice_note caption v) json =
    json ▷ put_captioned (codes "voice") caption ▷ put_voice_note v
put_content (Content.audio caption a) json =
    json ▷ put_captioned (codes "audio") caption ▷ put_audio a
put_content (Content.document caption d) json =
    json ▷ put_captioned (codes "document") caption ▷ put_document d
put_content (Content.sticker s) json =
    json ▷ put (codes "type") (string (codes "sticker")) ▷ put_sticker s
put_content (Content.animation caption a) json =
    json ▷ put_captioned (codes "animation") caption ▷ put_animation a
put_content (Content.video_note v) json =
    json ▷ put (codes "type") (string (codes "video_note")) ▷ put_video_note v
put_content Content.other_content json =
    json
    ▷ put (codes "type") (string (codes "unsupported"))
    ▷ put (codes "supported") (boolean false)

unfoldable pub content_to_json : Content → Json
unfolding put put_content
content_to_json content = null ▷ put (codes "supported") (boolean true) ▷ put_content content

unfoldable pub reaction_type_to_json : ReactionType → Json
unfolding put to_string
reaction_type_to_json (ReactionType.reaction_emoji e) =
    null ▷ put (codes "type") (string (codes "emoji")) ▷ put (codes "emoji") (string e)
reaction_type_to_json (ReactionType.reaction_custom_emoji id) =
    null
    ▷ put (codes "type") (string (codes "custom_emoji"))
    ▷ put (codes "custom_emoji_id") (string (to_string id))
reaction_type_to_json ReactionType.reaction_other =
    null ▷ put (codes "type") (string (codes "other"))

unfoldable pub put_reaction_type : Option ReactionType → Json → Json
unfolding put reaction_type_to_json
put_reaction_type none json = json
put_reaction_type (some t) json = json ▷ put (codes "reaction") (reaction_type_to_json t)

unfoldable pub reaction_to_json : Reaction → Json
unfolding put put_reaction_type
reaction_to_json r =
    null
    ▷ put_reaction_type r.reaction_type
    ▷ put (codes "total_count") (int r.total_count)
    ▷ put (codes "is_chosen") (boolean r.is_chosen)

-- The loop, which passes over null pointers.
unfoldable pub reaction_items : Reactions → Items
unfolding reaction_to_json
reaction_items [] = nil
reaction_items (none ∷ rs) = reaction_items rs
reaction_items (some r ∷ rs) = item (reaction_to_json r) (reaction_items rs)

unfoldable pub reactions_to_json : Reactions → Json
unfolding reaction_items
reactions_to_json reactions = array (reaction_items reactions)
