-- ===== src/Webhook/ContextBuilder/Triggers.antt =====
-- Which messages become an event, and with what reason: the detection and the loop together.
pub mod Tests
use telegram_rest_gateway.Prelude.{
  ℕ, zero, suc, ◌+◌, ◌-◌, ◌*◌, ◌/◌, ◌%◌, ◌^◌, ◌≤◌, ◌<◌, min, max, ◌≡◌, refl, sym, ap, ◌∙◌, subst,
  ◌≢◌, ◌↔◌, ◌⊎◌, inl, inr, Bool, true, false, ◌&&◌, ◌||◌, not, Option, none, some, List, [], ◌∷◌,
  ◌++◌, map, arith, ltb, leb, ltb→lt, lt→ltb, leb→le, if◌then◌else◌, Bool-cases, Option-cases, Eq,
  ◌==◌, eq_refl, nat_eq, Bytes, bytes_beq_iff, nat_beq_iff, bytes_eq, codes, length, get_elem?,
  get_or, take, drop, keep_if, all, any, length-append, length-keep_if-le, take-append-drop,
  length-take, length-drop, drop-append, take-append, All, All-append, All-map, All-keep_if, All-at,
  some-injective,
}
use telegram_rest_gateway.Prelude.Int.{to_string}
use telegram_rest_gateway.Prelude.Json.{Json}
use telegram_rest_gateway.Dto.WebhookMessage.{webhook_message_to_json}
use telegram_rest_gateway.Ws.Message.{ℤ, pos, negsuc, int_eq, Message, is_user}
use telegram_rest_gateway.Ws.OwnerMention.{
  TriggerReason, dm, mention, reply, DetectResult, detect, is_reply, no_trigger,
}
use telegram_rest_gateway.Webhook.ContextBuilder.{
  WebhookEvent, reply_parent_id, sender_is_owner, id_or_zero, steps, Chain, found_parent, walk,
  reply_chain, final_reason, text_of_reason, event_of, build_event,
}
use telegram_rest_gateway.Webhook.ContextBuilder.Ancestors.{build_event-some}

-- The first message above in the chat, which the owner wrote.
abbrev pub OwnersParent : (ℕ → ℤ → ℤ → Option Message) → ℤ → ℤ → ℤ → Type 0
OwnersParent fetch owner_id chat_id parent_id =
    (parent : Message) × (fetch 0 chat_id parent_id ≡ some parent)
    × (sender_is_owner parent owner_id ≡ true)

module _ (fetch : ℕ → ℤ → ℤ → Option Message) (owner_id chat_id : ℤ) where
  walk-confirms :
      (remaining : ℕ) (cur : ℤ) (c : Chain)
      → cur ≢ pos 0
      → walk fetch owner_id chat_id true (suc remaining) 0 cur ≡ some c
      → OwnersParent fetch owner_id chat_id cur
  unfolding walk
  walk-confirms remaining cur c known h = elim (Option-cases (fetch 0 chat_id cur)) [
    | inl e ↦ ground (arith, h, e, known, int_eq.beq_iff cur (pos 0))
    | inr (parent, e) ↦ elim (Bool-cases (sender_is_owner parent owner_id)) [
      | inl o ↦ (parent, e, o)
      | inr o ↦ ground (arith, h, e, o, known, int_eq.beq_iff cur (pos 0))
    ]
  ]

  -- Without a reply to confirm, the loop always leaves a chain, and no reason.
  walk_unconditional :
      (remaining hops : ℕ) (cur : ℤ)
      → (c : Chain) × (walk fetch owner_id chat_id false remaining hops cur ≡ some c)
        × (c.reason ≡ [])
  unfolding walk found_parent
  walk_unconditional zero hops cur = (_, refl, refl)
  walk_unconditional (suc remaining) hops cur = elim (Bool-cases (cur == pos 0)) [
    | inl e ↦ (record { parents = []; truncated = false; reason = [] }, ground (arith, e), refl)
    | inr e ↦ elim (Option-cases (fetch hops chat_id cur)) [
      | inl k ↦ (record { parents = []; truncated = true; reason = [] }, ground (arith, e, k), refl)
      | inr (parent, k) ↦
          let (rest, w, none_set) =
            walk_unconditional remaining (suc hops) (id_or_zero (reply_parent_id parent)) in
          (found_parent parent [] rest, ground (arith, e, k, w), none_set)
    ]
  ]

detect_pending-reason :
    (msg : Message) (owner_id : ℤ) (chat_is_private chat_is_broadcast : Bool)
    → (detect msg owner_id chat_is_private chat_is_broadcast).reply_pending ≡ true
    → (detect msg owner_id chat_is_private chat_is_broadcast).reason ≡ reply
unfolding detect no_trigger
detect_pending-reason msg owner_id chat_is_private chat_is_broadcast h = ground arith

reply_chain-confirms :
    (fetch : ℕ → ℤ → ℤ → Option Message) (msg : Message) (det : DetectResult)
    (owner_id chain_limit parent : ℤ) (c : Chain)
    → det.reply_pending ≡ true
    → reply_parent_id msg ≡ some parent
    → parent ≢ pos 0
    → reply_chain fetch msg det owner_id chain_limit ≡ some c
    → OwnersParent fetch owner_id msg.chat_id parent
unfolding reply_chain steps
reply_chain-confirms fetch msg det owner_id (pos zero) parent c pending e known h =
    ground (arith, pending, e, h)
reply_chain-confirms fetch msg det owner_id (negsuc n) parent c pending e known h =
    ground (arith, pending, e, h)
reply_chain-confirms fetch msg det owner_id (pos (suc n)) parent c pending e known h =
    walk-confirms fetch owner_id msg.chat_id n parent c known (ground (arith, pending, e, h))

reply_chain-unconditional :
    (fetch : ℕ → ℤ → ℤ → Option Message) (msg : Message) (det : DetectResult)
    (owner_id chain_limit : ℤ)
    → det.reply_pending ≡ false
    → (c : Chain) × (reply_chain fetch msg det owner_id chain_limit ≡ some c) × (c.reason ≡ [])
unfolding reply_chain
reply_chain-unconditional fetch msg det owner_id chain_limit settled =
    elim (Option-cases (reply_parent_id msg)) [
      | inl e ↦ (
        record { parents = []; truncated = false; reason = [] },
        ground (arith, settled, e),
        refl,
      )
      | inr (parent, e) ↦
          let (c, w, none_set) =
            walk_unconditional fetch owner_id msg.chat_id (steps chain_limit) 0 parent in
          (c, ground (arith, settled, e, w), none_set)
    ]

-- An event for a reply that was to be confirmed, to a message whose id is not 0, means that the
-- getMessage for that message was answered with a message of the owner, whatever the chain limit.
pub build_event-confirms :
    (fetch : ℕ → ℤ → ℤ → Option Message) (msg : Message) (det : DetectResult) (owner_id : ℤ)
    (session_id : Bytes) (received_at chain_limit : ℤ) (ev : WebhookEvent) (parent : ℤ)
    → det.reply_pending ≡ true
    → reply_parent_id msg ≡ some parent
    → parent ≢ pos 0
    → build_event fetch msg det owner_id session_id received_at chain_limit ≡ some ev
    → OwnersParent fetch owner_id msg.chat_id parent
build_event-confirms fetch msg det owner_id session_id received_at chain_limit ev parent pending e
      known h =
    let (c, w, is_ev) =
      build_event-some fetch msg det owner_id session_id received_at chain_limit ev h in
    reply_chain-confirms fetch msg det owner_id chain_limit parent c pending e known w

-- A trigger that needs no confirmation always becomes an event, with the reason that was detected and
-- whatever the answers to getMessage are: an error only shortens the chain.
pub build_event_total :
    (fetch : ℕ → ℤ → ℤ → Option Message) (msg : Message) (det : DetectResult) (owner_id : ℤ)
    (session_id : Bytes) (received_at chain_limit : ℤ)
    → det.reply_pending ≡ false
    → (ev : WebhookEvent) × (build_event fetch msg det owner_id session_id received_at chain_limit
        ≡ some ev)
      × (ev.trigger_reason ≡ text_of_reason det.reason)
unfolding build_event event_of final_reason
build_event_total fetch msg det owner_id session_id received_at chain_limit settled =
    let (c, w, none_set) = reply_chain-unconditional fetch msg det owner_id chain_limit settled in
    (
      event_of msg det owner_id session_id received_at c,
      ground (arith, w),
      ap (λ r. final_reason r det.reason) none_set,
    )

-- A reply whose parent's id is 0 becomes an event with the reason "reply" though no author was looked
-- at: the loop makes no step, whatever the answers are, if the limit allows a step.
pub build_event_unknown_parent :
    (fetch : ℕ → ℤ → ℤ → Option Message) (msg : Message) (owner_id : ℤ) (session_id : Bytes)
    (received_at : ℤ) (n : ℕ) (chat_is_private : Bool)
    → (detect msg owner_id chat_is_private false).reply_pending ≡ true
    → reply_parent_id msg ≡ some (pos 0)
    → (ev : WebhookEvent) × (build_event fetch msg
          (detect msg owner_id chat_is_private false)
          owner_id
          session_id
          received_at
          (pos (suc n))
        ≡ some ev)
      × (ev.trigger_reason ≡ codes "reply")
      × (ev.reply_chain ≡ [])
unfolding build_event event_of final_reason reply_chain steps walk text_of_reason
build_event_unknown_parent fetch msg owner_id session_id received_at n chat_is_private pending e =
    let c : Chain = record { parents = []; truncated = false; reason = [] } in
    let det = detect msg owner_id chat_is_private false in
    (
      event_of msg det owner_id session_id received_at c,
      ground (arith, pending, e),
      ap text_of_reason (detect_pending-reason msg owner_id chat_is_private false pending),
      refl,
    )

-- The message is in no channel, and neither the owner nor this account wrote it.
abbrev pub Incoming : Message → ℤ → Bool → Type 0
Incoming msg owner_id chat_is_broadcast =
    (chat_is_broadcast ≡ false)
    × (msg.is_outgoing ≡ false)
    × (is_user owner_id msg.sender_id ≡ false)

-- What calls the webhooks, in the order of precedence, with the reason that is given.
abbrev pub Cause : Message → Bool → DetectResult → Type 0
Cause msg chat_is_private det =
    ((msg.contains_unread_mention ≡ true)
      × (det.triggered ≡ true)
      × (det.reply_pending ≡ false)
      × (det.reason ≡ mention))
    ⊎ ((msg.contains_unread_mention ≡ false)
        × (is_reply msg.reply_to ≡ true)
        × (det.triggered ≡ false)
        × (det.reply_pending ≡ true)
        × (det.reason ≡ reply))
    ⊎ ((msg.contains_unread_mention ≡ false)
        × (is_reply msg.reply_to ≡ false)
        × (chat_is_private ≡ true)
        × (det.triggered ≡ true)
        × (det.reply_pending ≡ false)
        × (det.reason ≡ dm))

-- The detector found a trigger, or a reply to confirm.
abbrev pub fires : DetectResult → Bool
fires det = det.triggered || det.reply_pending

module _ (msg : Message) (owner_id : ℤ) (chat_is_private chat_is_broadcast : Bool) where
  abbrev result : DetectResult
  result = detect msg owner_id chat_is_private chat_is_broadcast

  detect-Incoming : fires result ≡ true → Incoming msg owner_id chat_is_broadcast
  unfolding detect no_trigger
  detect-Incoming h = ground arith

  detect-Cause :
      Incoming msg owner_id chat_is_broadcast
      → fires result ≡ true
      → Cause msg chat_is_private result
  unfolding detect no_trigger
  detect-Cause i h = elim (Bool-cases msg.contains_unread_mention) [
    | inl m ↦ inl (ground (arith, i.0, i.1, i.2, m))
    | inr m ↦ elim (Bool-cases (is_reply msg.reply_to)) [
      | inl r ↦ inr (inl (ground (arith, i.0, i.1, i.2, m, r)))
      | inr r ↦ inr (inr (ground (arith, i.0, i.1, i.2, m, r, h)))
    ]
  ]

  detect_none :
      Incoming msg owner_id chat_is_broadcast
      → fires result ≡ false
      → (msg.contains_unread_mention ≡ false)
        × (is_reply msg.reply_to ≡ false)
        × (chat_is_private ≡ false)
  unfolding detect no_trigger
  detect_none i h = ground (arith, i.0, i.1, i.2)

-- The detector fires only for a message that is in no channel and that neither the owner nor this
-- account wrote, by the first that holds of: an unread mention, a reply to a message (to be
-- confirmed), a private chat. For such a message it fires whenever one of the three holds.
pub detect_lem :
    (msg : Message) (owner_id : ℤ) (chat_is_private chat_is_broadcast : Bool)
    → let det = detect msg owner_id chat_is_private chat_is_broadcast in
      (fires det ≡ true → Incoming msg owner_id chat_is_broadcast × Cause msg chat_is_private det)
      × (fires det ≡ false
          → Incoming msg owner_id chat_is_broadcast
          → (msg.contains_unread_mention ≡ false)
            × (is_reply msg.reply_to ≡ false)
            × (chat_is_private ≡ false))
detect_lem msg owner_id chat_is_private chat_is_broadcast = (
  (λ h.
      let i = detect-Incoming msg owner_id chat_is_private chat_is_broadcast h in
      (i, detect-Cause msg owner_id chat_is_private chat_is_broadcast i h)),
  (λ h i. detect_none msg owner_id chat_is_private chat_is_broadcast i h),
)
