-- ===== src/Webhook/ContextBuilder/Ancestors.antt =====
-- The chain of an event is a run of ancestors, no longer than the limit.
use telegram_rest_gateway.Prelude.{
  ℕ, zero, suc, ◌≤◌, ◌≡◌, refl, sym, subst, ◌≢◌, inl, inr, Bool, false, Option, none, some, List,
  [], ◌∷◌, map, arith, Bool-cases, Option-cases, ◌==◌, nat_eq, Bytes, bytes_eq, length,
  some-injective,
}
use telegram_rest_gateway.Dto.WebhookMessage.{webhook_message_to_json}
use telegram_rest_gateway.Ws.Message.{ℤ, pos, int_eq, Message}
use telegram_rest_gateway.Ws.OwnerMention.{DetectResult}
use telegram_rest_gateway.Webhook.ContextBuilder.{
  WebhookEvent, reply_parent_id, id_or_zero, steps, Chain, found_parent, walk, reply_chain,
  event_of, build_event,
}

module _ (fetch : ℕ → ℤ → ℤ → Option Message) (chat_id : ℤ) where
  -- Each message is the answer to the getMessage for the parent of the one before it.
  abbrev pub Lineage : ℕ → ℤ → List Message → Type 0
  Lineage hops cur [] = Unit
  Lineage hops cur (m ∷ ms) =
      (cur ≢ pos 0)
      × (fetch hops chat_id cur ≡ some m)
      × Lineage (suc hops) (id_or_zero (reply_parent_id m)) ms

  -- The id that follows the last of a lineage.
  abbrev pub next_parent : ℤ → List Message → ℤ
  next_parent cur [] = cur
  next_parent cur (m ∷ ms) = next_parent (id_or_zero (reply_parent_id m)) ms

  -- A lineage within the limit; if it is not marked as cut, it goes to the root.
  abbrev pub IsChain : ℕ → ℕ → ℤ → Chain → Type 0
  IsChain remaining hops cur c =
      Lineage hops cur c.parents
      × (length c.parents ≤ remaining)
      × (c.truncated ≡ false → next_parent cur c.parents ≡ pos 0)

  abbrev IfChain : ℕ → ℕ → ℤ → Option Chain → Type 0
  IfChain remaining hops cur none = Unit
  IfChain remaining hops cur (some c) = IsChain remaining hops cur c

  walk-IsChain :
      (owner_id : ℤ) (pending : Bool) (remaining hops : ℕ) (cur : ℤ)
      → IfChain remaining hops cur (walk fetch owner_id chat_id pending remaining hops cur)
  unfolding walk found_parent
  walk-IsChain owner_id pending zero hops cur =
      (tt, omega arith, ground (arith, int_eq.beq_iff cur (pos 0)))
  walk-IsChain owner_id pending (suc remaining) hops cur = elim (Bool-cases (cur == pos 0)) [
    | inl e ↦ ground (arith, e, int_eq.beq_iff cur (pos 0))
    | inr e ↦ elim (Option-cases (fetch hops chat_id cur)) [
      | inl k ↦ ground (arith, e, k)
      | inr (parent, k) ↦
          elim (Option-cases (
            walk fetch owner_id chat_id pending remaining (suc hops)
              (id_or_zero (reply_parent_id parent)))) [
                | inl w ↦ ground (arith, e, k, w)
                | inr (rest, w) ↦
                    let ih =
                      subst (IfChain remaining (suc hops) (id_or_zero (reply_parent_id parent))) w (
                        walk-IsChain owner_id pending remaining (suc hops)
                          (id_or_zero (reply_parent_id parent))) in
                    ground (arith, e, k, w, ih.0, ih.1, ih.2, int_eq.beq_iff cur (pos 0))
              ]
    ]
  ]

  IfChain-some :
      (remaining hops : ℕ) (cur : ℤ) (c : Chain) (o : Option Chain)
      → IfChain remaining hops cur o
      → o ≡ some c
      → IsChain remaining hops cur c
  IfChain-some remaining hops cur c o h e = subst (IfChain remaining hops cur) e h

  -- The chain of an event, wherever the message's own reply leads.
  reply_chain-IsChain :
      (msg : Message) (det : DetectResult) (owner_id chain_limit : ℤ) (c : Chain)
      → chat_id ≡ msg.chat_id
      → reply_chain fetch msg det owner_id chain_limit ≡ some c
      → IsChain (steps chain_limit) 0 (id_or_zero (reply_parent_id msg)) c
  unfolding reply_chain id_or_zero
  reply_chain-IsChain msg det owner_id chain_limit c same h =
      elim (Option-cases (reply_parent_id msg)) [
        | inl e ↦ ground (arith, h, e)
        | inr (parent, e) ↦
            IfChain-some (steps chain_limit) 0 (id_or_zero (reply_parent_id msg)) c
              (walk fetch owner_id chat_id det.reply_pending (steps chain_limit) 0 parent)
              (subst
                (λ o.
                  IfChain (steps chain_limit) 0 (id_or_zero o)
                    (walk fetch owner_id chat_id det.reply_pending (steps chain_limit) 0 parent))
                (sym e) (walk-IsChain owner_id det.reply_pending (steps chain_limit) 0 parent))
              (ground (arith, h, e, same))
      ]

-- An event is made of a chain.
pub build_event-some :
    (fetch : ℕ → ℤ → ℤ → Option Message) (msg : Message) (det : DetectResult) (owner_id : ℤ)
    (session_id : Bytes) (received_at chain_limit : ℤ) (ev : WebhookEvent)
    → build_event fetch msg det owner_id session_id received_at chain_limit ≡ some ev
    → (c : Chain) × (reply_chain fetch msg det owner_id chain_limit ≡ some c)
      × (ev ≡ event_of msg det owner_id session_id received_at c)
unfolding build_event
build_event-some fetch msg det owner_id session_id received_at chain_limit ev h =
    elim (Option-cases (reply_chain fetch msg det owner_id chain_limit)) [
      | inl e ↦ ground (arith, h, e)
      | inr (c, e) ↦ (c, e, sym (some-injective (ground (arith, h, e))))
    ]

-- The reply chain of an event is the projection of a run of messages, each the answer for the parent
-- of the one before and the first for the parent of the message, no longer than the limit; if the
-- event is not marked as cut, the last of them (or the message) replies to no known message.
pub build_event-chain :
    (fetch : ℕ → ℤ → ℤ → Option Message) (msg : Message) (det : DetectResult) (owner_id : ℤ)
    (session_id : Bytes) (received_at chain_limit : ℤ) (ev : WebhookEvent)
    → build_event fetch msg det owner_id session_id received_at chain_limit ≡ some ev
    → (parents : List Message) × (ev.reply_chain ≡ map webhook_message_to_json parents)
      × Lineage fetch msg.chat_id 0 (id_or_zero (reply_parent_id msg)) parents
      × (length parents ≤ steps chain_limit)
      × (ev.chain_truncated ≡ false
          → next_parent fetch msg.chat_id (id_or_zero (reply_parent_id msg)) parents ≡ pos 0)
unfolding event_of
build_event-chain fetch msg det owner_id session_id received_at chain_limit ev h =
    let (c, e, is_ev) =
      build_event-some fetch msg det owner_id session_id received_at chain_limit ev h in
    let good = reply_chain-IsChain fetch msg.chat_id msg det owner_id chain_limit c refl e in
    subst
      (λ (v : WebhookEvent).
        (parents : List Message) × (v.reply_chain ≡ map webhook_message_to_json parents)
        × Lineage fetch msg.chat_id 0 (id_or_zero (reply_parent_id msg)) parents
        × (length parents ≤ steps chain_limit)
        × (v.chain_truncated ≡ false
            → next_parent fetch msg.chat_id (id_or_zero (reply_parent_id msg)) parents ≡ pos 0))
      (sym is_ev) (c.parents, refl, good.0, good.1, good.2)
