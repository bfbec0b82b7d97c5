-- ===== src/Ws/UpdateRouter/Keys.antt =====
-- The keys under which the publisher gets the frames.
use telegram_rest_gateway.Prelude.{
  ◌≡◌, refl, sym, ap, ◌∙◌, subst, ◌≢◌, ◌↔◌, Bool, true, false, Option, none, some, ◌∷◌, ◌++◌, arith,
  if◌then◌else◌, ◌==◌, nat_eq, Bytes, bytes_eq, codes, length, drop, length-append, drop-append,
}
use telegram_rest_gateway.Prelude.Int.{ℤ, to_string, to_string-injective}
use telegram_rest_gateway.Prelude.Json.{
  Json, string, member, member-put, member-put_some, or_else-none,
}
use telegram_rest_gateway.Dto.Objects.{
  no_sender, sender_user, sender_chat, UserStatus, ChatType, chat_private, chat_basic_group,
  chat_supergroup, chat_secret, chat_other,
}
use telegram_rest_gateway.Dto.Projections.{message_to_json, put_status, put_chat_type, chat_to_json}
use telegram_rest_gateway.Dto.Members.{message_to_json-chat_id}
use telegram_rest_gateway.Ws.UpdateRouter.{
  Update, ForwardableUpdate, build_forwardable, put_id, put_user, sent_data, text_member, event_key,
}

-- The chat that an update is about: none for what is not about one, and where TDLib gave no message.
abbrev pub chat_of : Update → Option ℤ
chat_of (Update.new_message (some m)) = some m.chat_id
chat_of (Update.new_chat (some c)) = some c.id
chat_of (Update.send_succeeded old_id (some m)) = some m.chat_id
chat_of (Update.send_failed old_id (some m) e) = some m.chat_id
chat_of (Update.interaction_info chat_id message_id info) = some chat_id
chat_of (Update.delete_messages chat_id ids) = some chat_id
chat_of (Update.message_edited chat_id message_id date) = some chat_id
chat_of (Update.message_content chat_id message_id content) = some chat_id
chat_of (Update.chat_read_inbox chat_id last unread) = some chat_id
chat_of (Update.chat_action chat_id user action) = some chat_id
chat_of _ = none

abbrev pub is_new_chat : Update → Bool
is_new_chat (Update.new_chat c) = true
is_new_chat _ = false

abbrev pub key_of : Bytes → Option ℤ → Bytes
key_of session_id none = session_id
key_of session_id (some chat_id) = session_id ++ b':' ∷ to_string chat_id

event_key_direct :
    (s : Bytes) (data_ : Json) (t : Bytes)
    → member (codes "chat_id") data_ ≡ some (string t)
    → event_key s data_ ≡ s ++ b':' ∷ t
unfolding event_key text_member
event_key_direct s data_ t e = rw (e, event_key, text_member)

event_key_nested :
    (s : Bytes) (data_ m : Json) (t : Bytes)
    → member (codes "chat_id") data_ ≡ none
    → member (codes "message") data_ ≡ some m
    → member (codes "chat_id") m ≡ some (string t)
    → event_key s data_ ≡ s ++ b':' ∷ t
unfolding event_key text_member
event_key_nested s data_ m t e e' e'' = rw (e, e', e'', event_key, text_member)

event_key_bare :
    (s : Bytes) (data_ : Json)
    → member (codes "chat_id") data_ ≡ none
    → member (codes "message") data_ ≡ none
    → event_key s data_ ≡ s
unfolding event_key text_member
event_key_bare s data_ e e' = rw (e, e', event_key, text_member)

ruleset key_laws = (member-put, member-put_some, or_else-none)

put_status-key :
    (k : Bytes) (o : Option UserStatus) (j : Json)
    → (codes "status" == k) ≡ false
    → (codes "was_online" == k) ≡ false
    → member k (put_status o j) ≡ member k j
unfolding put_status
put_status-key k none j h h' = refl
put_status-key k (some status) j h h' = simp (key_laws, h, h')

put_chat_type-key :
    (k : Bytes) (o : Option ChatType) (j : Json)
    → (codes "type" == k) ≡ false
    → (codes "user_id" == k) ≡ false
    → member k (put_chat_type o j) ≡ member k j
unfolding put_chat_type
put_chat_type-key k none j h h' = refl
put_chat_type-key k (some (chat_private id)) j h h' = simp (key_laws, h, h')
put_chat_type-key k (some chat_basic_group) j h h' = simp (key_laws, h)
put_chat_type-key k (some (chat_supergroup is_channel)) j h h' = simp (key_laws, h)
put_chat_type-key k (some chat_secret) j h h' = simp (key_laws, h)
put_chat_type-key k (some chat_other) j h h' = simp (key_laws, h)

abbrev Keyed : Bytes → Update → Option ForwardableUpdate → Type 0
Keyed s u none = Unit
Keyed s u (some f) = event_key s f.data_ ≡ key_of s (if is_new_chat u then none else chat_of u)

data_key : (s : Bytes) (u : Update) → Keyed s u (build_forwardable u)
unfolding build_forwardable put_id sent_data put_user chat_to_json
data_key s (Update.authorization_state x) = tt
data_key s (Update.connection_state x) = tt
data_key s Update.other_update = tt
data_key s (Update.new_message none) = tt
data_key s (Update.new_message (some m)) =
    event_key_direct s (message_to_json m) (to_string m.chat_id) (message_to_json-chat_id m)
data_key s (Update.send_succeeded old_id none) = event_key_bare s _ (simp key_laws) (simp key_laws)
data_key s (Update.send_succeeded old_id (some m)) =
    event_key_nested s _ (message_to_json m) (to_string m.chat_id) (simp key_laws) (simp key_laws)
      (message_to_json-chat_id m)
data_key s (Update.send_failed old_id none e) = event_key_bare s _ (simp key_laws) (simp key_laws)
data_key s (Update.send_failed old_id (some m) e) =
    event_key_nested s _ (message_to_json m) (to_string m.chat_id) (simp key_laws) (simp key_laws)
      (message_to_json-chat_id m)
data_key s (Update.new_chat none) = tt
data_key s (Update.new_chat (some c)) =
    event_key_bare s _ (put_chat_type-key (codes "chat_id") c.chat_type _ refl refl ∙ simp key_laws)
      (put_chat_type-key (codes "message") c.chat_type _ refl refl ∙ simp key_laws)
data_key s (Update.interaction_info chat_id message_id info) =
    event_key_direct s _ (to_string chat_id) (simp key_laws)
data_key s (Update.delete_messages chat_id ids) =
    event_key_direct s _ (to_string chat_id) (simp key_laws)
data_key s (Update.message_edited chat_id message_id date) =
    event_key_direct s _ (to_string chat_id) (simp key_laws)
data_key s (Update.message_content chat_id message_id content) =
    event_key_direct s _ (to_string chat_id) (simp key_laws)
data_key s (Update.chat_read_inbox chat_id last unread) =
    event_key_direct s _ (to_string chat_id) (simp key_laws)
data_key s (Update.user_status user_id status) =
    event_key_bare s _ (put_status-key (codes "chat_id") status _ refl refl ∙ simp key_laws)
      (put_status-key (codes "message") status _ refl refl ∙ simp key_laws)
data_key s (Update.chat_action chat_id no_sender action) =
    event_key_direct s _ (to_string chat_id) (simp key_laws)
data_key s (Update.chat_action chat_id (sender_user id) action) =
    event_key_direct s _ (to_string chat_id) (simp key_laws)
data_key s (Update.chat_action chat_id (sender_chat id) action) =
    event_key_direct s _ (to_string chat_id) (simp key_laws)

longer : (s t : Bytes) → s ++ b':' ∷ t ≢ s
longer s t e = omega (arith, ap length e, length-append s (b':' ∷ t))

key_injective : (s : Bytes) (a b : Option ℤ) → key_of s a ≡ key_of s b → a ≡ b
key_injective s none none e = refl
key_injective s none (some b) e = absurd (longer s (to_string b) (sym e))
key_injective s (some a) none e = absurd (longer s (to_string a) e)
key_injective s (some a) (some b) e = ap some (
    to_string-injective a b (
      cc (
        sym (drop-append s (b':' ∷ to_string a))
        ∙ (ap (drop (length s)) e ∙ drop-append s (b':' ∷ to_string b)))))

keyed :
    (s : Bytes) (u : Update) (f : ForwardableUpdate)
    → is_new_chat u ≡ false
    → build_forwardable u ≡ some f
    → event_key s f.data_ ≡ key_of s (chat_of u)
keyed s u f n e =
    subst (Keyed s u) e (data_key s u) ∙ ap (λ b. key_of s (if b then none else chat_of u)) n

-- The key of updateNewChat is that of the updates about no chat, though it is about one.
event_key-new_chat :
    (s : Bytes) (u : Update) (f : ForwardableUpdate)
    → is_new_chat u ≡ true
    → build_forwardable u ≡ some f
    → event_key s f.data_ ≡ s
event_key-new_chat s u f n e =
    subst (Keyed s u) e (data_key s u) ∙ ap (λ b. key_of s (if b then none else chat_of u)) n

-- The frames of two updates, neither of them updateNewChat, have the same key exactly if they are about the
-- same chat, or both about none.
pub event_key_iff :
    (s : Bytes) (u v : Update) (f g : ForwardableUpdate)
    → is_new_chat u ≡ false
    → is_new_chat v ≡ false
    → build_forwardable u ≡ some f
    → build_forwardable v ≡ some g
    → (event_key s f.data_ ≡ event_key s g.data_) ↔ (chat_of u ≡ chat_of v)
event_key_iff s u v f g nu nv e e' =
    let ku = keyed s u f nu e in
    let kv = keyed s v g nv e' in
    (
      λ same. key_injective s (chat_of u) (chat_of v) (sym ku ∙ (same ∙ kv)),
      λ same. ku ∙ (ap (key_of s) same ∙ sym kv),
    )
