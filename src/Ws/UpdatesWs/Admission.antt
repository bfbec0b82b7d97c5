-- ===== src/Ws/UpdatesWs/Admission.antt =====
-- Who gets into the stream of updates.
use telegram_rest_gateway.Prelude.{
  ℕ, ◌≡◌, refl, sym, ◌∙◌, inl, inr, Bool, true, false, ◌&&◌, ◌||◌, not, Option, none, some, List,
  [], ◌∷◌, ◌++◌, arith, if◌then◌else◌, Bool-cases, Option-cases, ◌==◌, nat_eq, Bytes, bytes_eq,
  keep_if, any, All,
}
use telegram_rest_gateway.Prelude.Json.{Json}
use telegram_rest_gateway.Auth.TokenStore.{read, load, verify}
use telegram_rest_gateway.Auth.TokenStore.Verify.{Separates, allowed, line_gives, verify-load}
use telegram_rest_gateway.Ws.Registry.{
  Subscriber, Registry, connect, disconnect, note_pong, set_filter, update_first,
}
use telegram_rest_gateway.Ws.UpdatesWs.{
  hello_frame, force_closes, pings_every, sends, Handshake, extract_bearer, MessageType, pong,
  other_type, Hub, subscription_of, may_read, handle_new_connection, subscribe, handle_new_message,
  handle_connection_closed, Event, opens, receives, closes, step, run,
}

abbrev pub is_subscribed : ℕ → List Subscriber → Bool
is_subscribed c ss = any (λ (s : Subscriber). s.conn == c) ss

is_subscribed-connect :
    (c : ℕ) (g : Registry) (d : ℕ)
    → is_subscribed c (connect g d).connections ≡ (is_subscribed c g.connections || (d == c))
unfolding connect
is_subscribed-connect c g d = go g.connections
  where
    go :
        (ss : List Subscriber)
        → is_subscribed c (ss ++ record { conn = d; bytes_since_pong = 0; filter = [] } ∷ [])
          ≡ (is_subscribed c ss || (d == c))
    go [] = ground arith
    go (s ∷ ss) = ground (arith, go ss)

is_subscribed-keep_if :
    (c : ℕ) (p : Subscriber → Bool) (ss : List Subscriber)
    → is_subscribed c (keep_if p ss) ≡ true
    → is_subscribed c ss ≡ true
is_subscribed-keep_if c p [] h = h
is_subscribed-keep_if c p (s ∷ ss) h = ground (arith, is_subscribed-keep_if c p ss)

is_subscribed-update_first :
    (c d : ℕ) (f : Subscriber → Subscriber) (ss : List Subscriber)
    → ((s : Subscriber) → (f s).conn ≡ s.conn)
    → is_subscribed c (update_first d f ss) ≡ is_subscribed c ss
unfolding update_first
is_subscribed-update_first c d f [] h = refl
is_subscribed-update_first c d f (s ∷ ss) h =
    ground (arith, h s, is_subscribed-update_first c d f ss h)

-- An event that admits a connection: it opens with a token for which a line gives the scope read.
abbrev pub admits : List Bytes → ℕ → Event → Bool
admits lines c (opens req conn) = conn == c && any (line_gives (extract_bearer req) read) lines
admits lines c _ = false

module _ (sha256 : Bytes → Bytes) (parse : Bytes → Option Json) (compact : Json → Bytes)
    (lines : List Bytes) where
  -- The digest tells the tokens that are presented from those of the lines.
  abbrev pub Separated : Event → Type 0
  Separated (opens req conn) = All (Separates sha256 (extract_bearer req)) lines
  Separated (receives conn message kind) = Unit
  Separated (closes conn) = Unit

  may_read-allowed : (v : Option ℕ) → may_read sha256 parse compact v ≡ allowed v read
  unfolding may_read
  may_read-allowed none = refl
  may_read-allowed (some mask) = refl

  may_read-load :
      (t : Bytes)
      → All (Separates sha256 t) lines
      → may_read sha256 parse compact (verify sha256 (load sha256 lines) t)
        ≡ any (line_gives t read) lines
  may_read-load t sep =
      may_read-allowed (verify sha256 (load sha256 lines) t)
      ∙ (verify-load sha256 lines t read sep).1

  abbrev pub subscribed : ℕ → Hub → Bool
  subscribed c h = is_subscribed c h.registry.connections

  open_lem :
      (h : Hub) (req : Handshake) (conn c : ℕ)
      → Separated (opens req conn)
      → subscribed c (handle_new_connection sha256 parse compact (load sha256 lines) h req conn)
        ≡ (subscribed c h || admits lines c (opens req conn))
  unfolding handle_new_connection
  open_lem h req conn c sep =
      let m = may_read-load (extract_bearer req) sep in
      elim (Bool-cases (any (line_gives (extract_bearer req) read) lines)) [
        | inl e ↦
            rw (m, e, handle_new_connection)
              (is_subscribed-connect c h.registry conn ∙ ground arith)
        | inr e ↦ rw (m, e, handle_new_connection) (ground arith)
      ]

  subscribe_lem :
      (h : Hub) (conn c : ℕ) (frame : Option Json)
      → subscribed c (subscribe sha256 parse compact h conn frame) ≡ subscribed c h
  unfolding subscribe set_filter
  subscribe_lem h conn c none = refl
  subscribe_lem h conn c (some frame) = elim (Option-cases (subscription_of frame)) [
    | inl e ↦ rw (e, subscribe)
    | inr (s, e) ↦
        rw (e, subscribe) (is_subscribed-update_first c conn _ h.registry.connections (λ s. refl))
  ]

  step_lem :
      (h : Hub) (c : ℕ) (x : Event)
      → Separated x
      → subscribed c (step sha256 parse compact (load sha256 lines) h x) ≡ true
      → (subscribed c h || admits lines c x) ≡ true
  unfolding step handle_new_message handle_connection_closed note_pong disconnect
  step_lem h c (opens req conn) sep e = sym (open_lem h req conn c sep) ∙ e
  step_lem h c (receives conn message pong) sep e = ground (
    arith,
    e,
    is_subscribed-update_first c conn (λ s. record s { bytes_since_pong = 0 })
        h.registry.connections (λ s. refl),
  )
  step_lem h c (receives conn message MessageType.text) sep e =
      ground (arith, e, subscribe_lem h conn c (parse message))
  step_lem h c (receives conn message other_type) sep e = ground (arith, e)
  step_lem h c (closes conn) sep e = ground (
    arith,
    is_subscribed-keep_if c (λ (s : Subscriber). not (s.conn == conn)) h.registry.connections e,
  )

  -- As far as the digest tells the presented tokens from those of the lines: whatever is opened, received
  -- and closed, a connection is among the subscribers only if it was at the start or if it opened with a
  -- token for which a configured line gives the scope read.
  pub run-admits :
      (h : Hub) (c : ℕ) (xs : List Event)
      → All Separated xs
      → subscribed c (run sha256 parse compact (load sha256 lines) h xs) ≡ true
      → (subscribed c h || any (admits lines c) xs) ≡ true
  unfolding run
  run-admits h c [] sep e = ground (arith, e)
  run-admits h c (x ∷ xs) sep e = ground (
    arith,
    run-admits (step sha256 parse compact (load sha256 lines) h x) c xs sep.1 e,
    step_lem h c x sep.0,
  )

  -- A handshake is answered by the token alone: with the scope read the connection is added, pinged every
  -- 15 seconds and greeted, and without it is closed and nothing is added.
  pub handle_new_connection_lem :
      (h : Hub) (req : Handshake) (conn : ℕ)
      → Separated (opens req conn)
      → handle_new_connection sha256 parse compact (load sha256 lines) h req conn ≡ (
          if any (line_gives (extract_bearer req) read) lines
          then record h {
            registry = connect h.registry conn;
            log =
                sends conn (hello_frame sha256 parse compact h.session_id)
                ∷ pings_every conn 15
                ∷ h.log;
          }
          else record h { log = force_closes conn ∷ h.log })
  unfolding handle_new_connection
  handle_new_connection_lem h req conn sep =
      rw (may_read-load (extract_bearer req) sep, handle_new_connection)
