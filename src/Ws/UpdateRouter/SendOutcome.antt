-- ===== src/Ws/UpdateRouter/SendOutcome.antt =====
-- What the request that waits for a sent message gets, when its update comes.
use telegram_rest_gateway.Prelude.{
  ℕ, ◌+◌, ◌%◌, ◌≡◌, refl, ap, ◌∙◌, inl, inr, Bool, true, false, Option, none, some, [], ◌∷◌, arith,
  Bool-cases, Option-cases, nat_eq, Bytes, bytes_eq, codes, some-injective,
}
use telegram_rest_gateway.Prelude.Int.{ℤ, pos, int_eq}
use telegram_rest_gateway.Prelude.Json.{Json, null, member, member-put}
use telegram_rest_gateway.Prelude.Map.{find}
use telegram_rest_gateway.Dto.Projections.{message_to_json}
use telegram_rest_gateway.Bridge.MessageSendTracker.{
  MessageSendOutcome, Tracker, await_resume, resolve_with, resolve_succeeded, resolve_failed,
}
use telegram_rest_gateway.Bridge.MessageSendTracker.Once.{Inv}
use telegram_rest_gateway.Bridge.MessageSendTracker.Outcomes.{first_settles}
use telegram_rest_gateway.Ws.UpdateRouter.Log.{payloads}
use telegram_rest_gateway.Ws.UpdateRouter.Steps.{
  forward-none, forward-some, on_update-Advances, numbered_next,
}
use telegram_rest_gateway.Ws.UpdateRouter.{
  Update, ForwardableUpdate, build_forwardable, put_id, sent_data, Router, resolve_send,
  hooked_message, counter_mod, frame_of, publish, call_hook, send_frame, forward, tell_tracker,
  on_update,
}

module _ (compact : Json → Bytes) (running is_up : ℕ → Bool) where
  publish-tracker :
      (r : Router) (d : Json) (p : Bytes)
      → (publish compact running is_up r d p).tracker ≡ r.tracker
  unfolding publish
  publish-tracker r d p = elim (Bool-cases r.has_publisher) [ inl e ↦ rw e | inr e ↦ rw e ]

  send_frame-tracker :
      (r : Router) (f : ForwardableUpdate)
      → (send_frame compact running is_up r f).tracker ≡ r.tracker
  unfolding send_frame
  send_frame-tracker r f = publish-tracker _ f.data_ _

  call_hook-tracker :
      (r : Router) (u : Update) → (call_hook compact running is_up r u).tracker ≡ r.tracker
  unfolding call_hook
  call_hook-tracker r u = elim (Bool-cases r.has_hook) [
    | inl e ↦ elim (Option-cases (hooked_message u)) [ inl n ↦ rw (e, n) | inr (m, s) ↦ rw (e, s) ]
    | inr e ↦ rw e
  ]

  forward-tracker :
      (r : Router) (u : Update) → (forward compact running is_up r u).tracker ≡ r.tracker
  forward-tracker r u = elim (Option-cases (build_forwardable u)) [
    | inl e ↦ ap (λ (x : Router). x.tracker) (forward-none compact running is_up r u e)
    | inr (f, e) ↦
        ap (λ (x : Router). x.tracker) (forward-some compact running is_up r u f e)
        ∙ (call_hook-tracker (send_frame compact running is_up r f) u ∙ send_frame-tracker r f)
  ]

  tell_tracker-tracker :
      (r : Router) (t : Tracker) (u : Update)
      → r.tracker ≡ some t
      → (tell_tracker compact running is_up r u).tracker ≡ some (resolve_send running t u)
  unfolding tell_tracker
  tell_tracker-tracker r t u e = rw e

-- What TDLib says of a send, as the tracker passes it on.
abbrev pub outcome_of : Update → Option MessageSendOutcome
outcome_of (Update.send_succeeded old_id (some m)) = some (record {
  succeeded = true;
  message = message_to_json m;
  error_code = pos 0;
  error_message = [];
})
outcome_of (Update.send_failed old_id m (some (code, message))) =
    some (record { succeeded = false; message = null; error_code = code; error_message = message })
outcome_of _ = none

abbrev pub sent_id : Update → ℤ
sent_id (Update.send_succeeded old_id m) = old_id
sent_id (Update.send_failed old_id m e) = old_id
sent_id _ = pos 0

resolve_send_lem :
    (running : ℕ → Bool) (t : Tracker) (u : Update) (o : MessageSendOutcome)
    → outcome_of u ≡ some o
    → resolve_send running t u ≡ resolve_with running t (sent_id u) o
unfolding resolve_send resolve_succeeded resolve_failed
resolve_send_lem running t (Update.send_succeeded old_id (some m)) o e =
    ap (resolve_with running t old_id) (some-injective e)
resolve_send_lem running t (Update.send_failed old_id m (some (code, message))) o e =
    ap (resolve_with running t old_id) (some-injective e)
resolve_send_lem running t _ o e = ground arith

outcome-frame :
    (u : Update) (o : MessageSendOutcome)
    → outcome_of u ≡ some o
    → (f : ForwardableUpdate) × (build_forwardable u ≡ some f)
      × (o.succeeded ≡ true → member (codes "message") f.data_ ≡ some o.message)
unfolding build_forwardable sent_data put_id
outcome-frame (Update.send_succeeded old_id (some m)) o e =
    (_, refl, λ h. simp member-put (ground (arith, e)))
outcome-frame (Update.send_failed old_id m (some (code, message))) o e =
    (_, refl, λ h. ground (arith, e))
outcome-frame _ o e = ground arith

module _ (compact : Json → Bytes) (running is_up : ℕ → Bool) where
  on_update-tracker :
      (r : Router) (u : Update) (o : MessageSendOutcome)
      → outcome_of u ≡ some o
      → (on_update compact running is_up r (some u)).tracker
        ≡ (tell_tracker compact running is_up r u).tracker
  unfolding on_update
  on_update-tracker r (Update.send_succeeded old_id m) o e =
      forward-tracker compact running is_up
        (tell_tracker compact running is_up r (Update.send_succeeded old_id m))
        (Update.send_succeeded old_id m)
  on_update-tracker r (Update.send_failed old_id m x) o e =
      forward-tracker compact running is_up
        (tell_tracker compact running is_up r (Update.send_failed old_id m x))
        (Update.send_failed old_id m x)
  on_update-tracker r _ o e = ground arith

  -- The log of the router after an update has one payload more for the clients: the frame of the update
  -- with the next number, and in it the message of the outcome where the send succeeded.
  abbrev pub Framed : Router → Update → MessageSendOutcome → Type 0
  Framed r u o =
      let n = (r.seq + 1) % counter_mod in
      (f : ForwardableUpdate) × (payloads (on_update compact running is_up r (some u)).log
        ≡ compact (frame_of r.session_id n f) ∷ payloads r.log)
      × (build_forwardable u ≡ some f)
      × (o.succeeded ≡ true → member (codes "message") f.data_ ≡ some o.message)

  outcome-Framed :
      (r : Router) (u : Update) (o : MessageSendOutcome) → outcome_of u ≡ some o → Framed r u o
  outcome-Framed r u o e =
      let (f, forwards, same) = outcome-frame u o e in
      let a = on_update-Advances compact running is_up r (some u) in
      (
        f,
        a.sends []
            ∙ numbered_next compact running is_up r.session_id r.seq u [] (payloads r.log) f
                forwards,
        forwards,
        same,
      )

  -- While a request waits for a message that it sent, the update with the outcome of that send gives the
  -- request the outcome, the message is no longer waited for, and the clients are sent the frame of the
  -- update, which has the same message as the request if the send succeeded.
  pub on_update-outcome :
      (r : Router) (t : Tracker) (u : Update) (o : MessageSendOutcome) (c : ℕ)
      → r.tracker ≡ some t
      → Inv [] t
      → outcome_of u ≡ some o
      → find (sent_id u) t.waits ≡ some c
      → ((t' : Tracker) × ((on_update compact running is_up r (some u)).tracker ≡ some t')
          × (await_resume t' c ≡ some o)
          × (find (sent_id u) t'.waits ≡ none))
        × Framed r u o
  on_update-outcome r t u o c has v is_outcome waits =
      let (gets, gone, r₁, r₂, r₃, r₄) = first_settles running t (sent_id u) c o v waits in
      let told =
        on_update-tracker r u o is_outcome
        ∙ (tell_tracker-tracker compact running is_up r t u has
            ∙ ap some (resolve_send_lem running t u o is_outcome)) in
      ((resolve_with running t (sent_id u) o, told, gets, gone), outcome-Framed r u o is_outcome)
