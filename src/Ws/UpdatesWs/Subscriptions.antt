-- ===== src/Ws/UpdatesWs/Subscriptions.antt =====
-- What a client's message does to its subscription.
use telegram_rest_gateway.Prelude.{
  ℕ, ◌≡◌, refl, sym, ap, ◌∙◌, inl, inr, Bool, true, false, Option, none, some, List, [], ◌∷◌, arith,
  if◌then◌else◌, Option-cases, ◌==◌, nat_eq, Bytes, bytes_eq,
}
use telegram_rest_gateway.Prelude.Json.{Json}
use telegram_rest_gateway.Ws.Registry.{Subscriber, note_pong, set_filter, update_first}
use telegram_rest_gateway.Ws.UpdatesWs.{
  MessageType, pong, other_type, Hub, subscription_of, subscribe, handle_new_message,
}

-- The subscriber of a connection.
abbrev pub first_of : ℕ → List Subscriber → Option Subscriber
first_of c [] = none
first_of c (s ∷ ss) = if s.conn == c then some s else first_of c ss

abbrev pub mapped : (Subscriber → Subscriber) → Option Subscriber → Option Subscriber
mapped f none = none
mapped f (some s) = some (f s)

-- The subscription that a parsed text asks for, if it asks for one.
abbrev pub types_of : Option Json → Option (List Bytes)
types_of none = none
types_of (some frame) = elim (subscription_of frame) [ none ↦ none | some (types, xs) ↦ some types ]

abbrev pub with_types : Option (List Bytes) → Subscriber → Subscriber
with_types none s = s
with_types (some types) s = record s { filter = types }

types_of_frame :
    (frame : Json) (o : Option (List Bytes × Json))
    → subscription_of frame ≡ o
    → types_of (some frame) ≡ elim o [ none ↦ none | some (types, xs) ↦ some types ]
types_of_frame frame o e = ap (λ x. elim x [ none ↦ none | some (types, xs) ↦ some types ]) e

-- What a message does to the subscriber that sends it.
abbrev pub told : MessageType → Option Json → Subscriber → Subscriber
told pong parsed s = record s { bytes_since_pong = 0 }
told MessageType.text parsed s = with_types (types_of parsed) s
told other_type parsed s = s

mapped_id :
    (o : Option Subscriber) (f : Subscriber → Subscriber)
    → ((s : Subscriber) → f s ≡ s)
    → mapped f o ≡ o
mapped_id none f h = refl
mapped_id (some s) f h = ap some (h s)

same_or_mapped :
    (b : Bool) (o : Option Subscriber) (f : Subscriber → Subscriber)
    → ((s : Subscriber) → f s ≡ s)
    → o ≡ (if b then mapped f o else o)
same_or_mapped true o f h = sym (mapped_id o f h)
same_or_mapped false o f h = refl

first_of-update_first :
    (c d : ℕ) (f : Subscriber → Subscriber) (ss : List Subscriber)
    → ((s : Subscriber) → (f s).conn ≡ s.conn)
    → first_of d (update_first c f ss)
      ≡ (if c == d then mapped f (first_of d ss) else first_of d ss)
unfolding update_first
first_of-update_first c d f [] h = ground arith
first_of-update_first c d f (s ∷ ss) h = ground (arith, h s, first_of-update_first c d f ss h)

module _ (sha256 : Bytes → Bytes) (parse : Bytes → Option Json) (compact : Json → Bytes) where
  subscribe-first :
      (h : Hub) (conn d : ℕ) (parsed : Option Json)
      → first_of d (subscribe sha256 parse compact h conn parsed).registry.connections ≡ (
          if conn == d
          then mapped (told MessageType.text parsed) (first_of d h.registry.connections)
          else first_of d h.registry.connections)
  unfolding subscribe set_filter
  subscribe-first h conn d none = same_or_mapped (conn == d) _ _ (λ s. refl)
  subscribe-first h conn d (some frame) = elim (Option-cases (subscription_of frame)) [
    | inl e ↦
        rw (e, subscribe)
          (same_or_mapped (conn == d) (first_of d h.registry.connections)
            (told MessageType.text (some frame))
            (λ s. ap (λ o. with_types o s) (types_of_frame frame none e)))
    | inr ((types, xs), e) ↦
        rw (e, subscribe)
          (first_of-update_first conn d (λ s. record s { filter = types }) h.registry.connections
              (λ s. refl)
            ∙ ap
                (λ o.
                  if conn == d
                  then mapped (with_types o) (first_of d h.registry.connections)
                  else first_of d h.registry.connections)
                (sym (types_of_frame frame (some (types, xs)) e)))
  ]

  -- A message changes at most the subscriber of its own connection: a pong resets its backlog, a text that
  -- is a subscription sets its types, and any other text or type of message leaves it as it is.
  pub handle_new_message-first :
      (h : Hub) (conn d : ℕ) (message : Bytes) (kind : MessageType)
      → first_of d
          (handle_new_message sha256 parse compact h conn message kind).registry.connections
        ≡ (if conn == d
            then mapped (told kind (parse message)) (first_of d h.registry.connections)
            else first_of d h.registry.connections)
  unfolding handle_new_message note_pong subscribe set_filter
  handle_new_message-first h conn d message pong =
      first_of-update_first conn d _ h.registry.connections (λ s. refl)
  handle_new_message-first h conn d message other_type =
      same_or_mapped (conn == d) (first_of d h.registry.connections) (λ s. s) (λ s. refl)
  handle_new_message-first h conn d message MessageType.text =
      subscribe-first h conn d (parse message)
