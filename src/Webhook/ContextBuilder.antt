-- ===== src/Webhook/ContextBuilder.antt =====
-- src/webhook/context_builder.{hpp,cpp}: the event of a trigger, with the chain of the messages that
-- it replies to. Parameter: `fetch hop chat id` is the answer to the getMessage of that hop (none: an
-- error or no object).
pub mod Ancestors
pub mod Triggers
use telegram_rest_gateway.Prelude.{
  ℕ, zero, suc, ◌+◌, ◌-◌, ◌*◌, ◌/◌, ◌%◌, ◌^◌, ◌≤◌, ◌<◌, min, max, ◌≡◌, refl, sym, ap, ◌∙◌, subst,
  ◌≢◌, ◌↔◌, ◌⊎◌, inl, inr, Bool, true, false, ◌&&◌, ◌||◌, not, Option, none, some, List, [], ◌∷◌,
  ◌++◌, map, arith, ltb, leb, ltb→lt, lt→ltb, leb→le, if◌then◌else◌, Bool-cases, Option-cases, Eq,
  ◌==◌, eq_refl, nat_eq, Bytes, bytes_beq_iff, nat_beq_iff, bytes_eq, codes, length, get_elem?,
  get_or, take, drop, keep_if, all, any, length-append, length-keep_if-le, take-append-drop,
  length-take, length-drop, drop-append, take-append, All, All-append, All-map, All-keep_if, All-at,
  some-injective,
}
use telegram_rest_gateway.Prelude.Int.{to_string}
use telegram_rest_gateway.Prelude.Json.{Json}
use telegram_rest_gateway.Dto.WebhookMessage.{webhook_message_to_json}
use telegram_rest_gateway.Ws.Message.{
  ℤ, pos, negsuc, int_eq, Message, ReplyTo, no_reply, reply_to_message, reply_to_other, is_user,
}
use telegram_rest_gateway.Ws.OwnerMention.{TriggerReason, dm, mention, reply, DetectResult}

pub record WebhookEvent : Type 0 where
  pub event_id : Bytes
  pub session_id : Bytes
  pub owner_id : Bytes
  pub trigger_reason : Bytes
  pub received_at : ℤ
  pub message : Json
  pub reply_chain : List Json
  pub chain_truncated : Bool

unfoldable pub reply_parent_id : Message → Option ℤ
reply_parent_id msg = parent_of msg.reply_to
  where
    parent_of : ReplyTo → Option ℤ
    parent_of no_reply = none
    parent_of (reply_to_message parent) = some parent
    parent_of reply_to_other = none

unfoldable pub sender_is_owner : Message → ℤ → Bool
sender_is_owner msg owner_id = is_user owner_id msg.sender_id

-- `value_or(0)`, and an int as a number of steps: none if it is not positive.
unfoldable pub id_or_zero : Option ℤ → ℤ
id_or_zero none = pos 0
id_or_zero (some id) = id

unfoldable pub steps : ℤ → ℕ
steps (pos n) = n
steps (negsuc n) = 0

unfoldable pub text_of_reason : TriggerReason → Bytes
text_of_reason mention = codes "mention"
text_of_reason dm = codes "dm"
text_of_reason reply = codes "reply"

-- What the loop leaves: the parents it read, whether the chain is cut, and the trigger's reason where
-- the loop set it.
pub record Chain : Type 0 where
  pub parents : List Message
  pub truncated : Bool
  pub reason : Bytes

unfoldable pub found_parent : Message → Bytes → Chain → Chain
found_parent parent reason rest = record {
  parents = parent ∷ rest.parents;
  truncated = rest.truncated;
  reason = reason ++ rest.reason;
}

module _ (fetch : ℕ → ℤ → ℤ → Option Message) (owner_id chat_id : ℤ) (pending : Bool) where
  -- The while loop with `remaining` hops left to the limit. No event: none.
  unfoldable pub walk : ℕ → ℕ → ℤ → Option Chain
  unfolding found_parent id_or_zero reply_parent_id sender_is_owner
  walk zero hops cur = some (record { parents = []; truncated = not (cur == pos 0); reason = [] })
  walk (suc remaining) hops cur =
      if cur == pos 0
      then some (record { parents = []; truncated = false; reason = [] })
      else elim (fetch hops chat_id cur) [
        | none ↦
            if hops == 0 && pending
            then none
            else some (record { parents = []; truncated = true; reason = [] })
        | some parent ↦
            if hops == 0 && pending && not (sender_is_owner parent owner_id)
            then none
            else elim (walk remaining (suc hops) (id_or_zero (reply_parent_id parent))) [
              | none ↦ none
              | some rest ↦
                  some
                    (found_parent parent (if hops == 0 && pending then codes "reply" else []) rest)
            ]
      ]

-- The chain, or none where the trigger is not confirmed.
unfoldable pub reply_chain :
    (ℕ → ℤ → ℤ → Option Message) → Message → DetectResult → ℤ → ℤ → Option Chain
unfolding walk steps reply_parent_id
reply_chain fetch msg det owner_id chain_limit =
    if det.reply_pending && steps chain_limit == 0 then none else elim (reply_parent_id msg) [
      | some parent ↦ walk fetch owner_id msg.chat_id det.reply_pending (steps chain_limit) 0 parent
      | none ↦
          if det.reply_pending
          then none
          else some (record { parents = []; truncated = false; reason = [] })
    ]

unfoldable pub final_reason : Bytes → TriggerReason → Bytes
unfolding text_of_reason
final_reason [] r = text_of_reason r
final_reason (c ∷ cs) r = c ∷ cs

unfoldable pub event_of : Message → DetectResult → ℤ → Bytes → ℤ → Chain → WebhookEvent
unfolding final_reason
event_of msg det owner_id session_id received_at chain = record {
  event_id = session_id ++ b':' ∷ to_string msg.chat_id ++ b':' ∷ to_string msg.id;
  session_id = session_id;
  owner_id = to_string owner_id;
  trigger_reason = final_reason chain.reason det.reason;
  received_at = received_at;
  message = webhook_message_to_json msg;
  reply_chain = map webhook_message_to_json chain.parents;
  chain_truncated = chain.truncated;
}

unfoldable pub build_event :
    (ℕ → ℤ → ℤ → Option Message) → Message → DetectResult → ℤ → Bytes → ℤ → ℤ → Option WebhookEvent
unfolding reply_chain event_of
build_event fetch msg det owner_id session_id received_at chain_limit =
    elim (reply_chain fetch msg det owner_id chain_limit) [
      | none ↦ none
      | some chain ↦ some (event_of msg det owner_id session_id received_at chain)
    ]
