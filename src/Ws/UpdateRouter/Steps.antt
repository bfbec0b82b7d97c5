-- ===== src/Ws/UpdateRouter/Steps.antt =====
-- What one update adds to the log of the router.
use telegram_rest_gateway.Prelude.{
  ℕ, ◌+◌, ◌%◌, ◌≡◌, refl, sym, ap, ◌∙◌, subst, inl, inr, Bool, true, false, ◌&&◌, Option, none,
  some, List, ◌∷◌, arith, if◌then◌else◌, Bool-cases, Option-cases, nat_eq, Bytes, bytes_eq,
}
use telegram_rest_gateway.Prelude.Json.{Json}
use telegram_rest_gateway.Dto.Objects.{Message}
use telegram_rest_gateway.Ws.UpdateRouter.{
  Update, ForwardableUpdate, build_forwardable, hooks, calls_ready, Router, counter_mod, frame_of,
  hooked_message, publish, call_hook, send_frame, forward, tell_tracker, on_update,
}
use telegram_rest_gateway.Ws.UpdateRouter.Log.{
  payloads, published, hooked, numbered, with_new_message,
}

module _ (compact : Json → Bytes) (running is_up : ℕ → Bool) where
  -- One step: nothing that is set changes, and the log goes on by what the update asks for.
  pub record Advances (u : Option Update) (r r' : Router) : Type 0 where
    pub session : r'.session_id ≡ r.session_id
    pub publisher : r'.has_publisher ≡ r.has_publisher
    pub hook : r'.has_hook ≡ r.has_hook
    pub sends :
        (us : List (Option Update))
        → numbered compact r'.session_id r'.seq us (payloads r'.log)
          ≡ numbered compact r.session_id r.seq (u ∷ us) (payloads r.log)
    pub same :
        r.has_publisher ≡ true
        → published r.log ≡ payloads r.log
        → published r'.log ≡ payloads r'.log
    pub hooked_next : r.has_hook ≡ true → hooked r'.log ≡ with_new_message u (hooked r.log)

  -- The settings and the number are the same.
  abbrev Keeps : Router → Router → Type 0
  Keeps r r' =
      (r'.session_id ≡ r.session_id)
      × (r'.has_publisher ≡ r.has_publisher)
      × (r'.has_hook ≡ r.has_hook)

  publish_lem :
      (r : Router) (data_ : Json) (payload : Bytes)
      → let r' = publish compact running is_up r data_ payload in
        Keeps r r'
        × (r'.seq ≡ r.seq)
        × (payloads r'.log ≡ payloads r.log)
        × (hooked r'.log ≡ hooked r.log)
        × (r.has_publisher ≡ true → published r'.log ≡ payload ∷ published r.log)
  unfolding publish
  publish_lem r data_ payload = elim (Bool-cases r.has_publisher) [
    | inl e ↦ rw e ((refl, refl, refl), refl, refl, refl, λ h. refl)
    | inr e ↦ rw e ((refl, refl, refl), refl, refl, refl, λ h. ground arith)
  ]

  send_frame_lem :
      (r : Router) (f : ForwardableUpdate)
      → let r' = send_frame compact running is_up r f in
        let n = (r.seq + 1) % counter_mod in
        let payload = compact (frame_of r.session_id n f) in
        Keeps r r'
        × (r'.seq ≡ n)
        × (payloads r'.log ≡ payload ∷ payloads r.log)
        × (hooked r'.log ≡ hooked r.log)
        × (r.has_publisher ≡ true → published r'.log ≡ payload ∷ published r.log)
  unfolding send_frame
  send_frame_lem r f = publish_lem _ f.data_ _

  -- What a hook that is set adds.
  hook_set :
      (r : Router) (u : Update)
      → let r' : Router = elim (hooked_message u) [
        | none ↦ r
        | some m ↦ record r { log = hooks m ∷ r.log }
      ] in
        Keeps r r'
        × (r'.seq ≡ r.seq)
        × (payloads r'.log ≡ payloads r.log)
        × (published r'.log ≡ published r.log)
        × (hooked r'.log ≡ with_new_message (some u) (hooked r.log))
  unfolding hooked_message
  hook_set r (Update.new_message (some m)) = ((refl, refl, refl), refl, refl, refl, refl)
  hook_set r (Update.new_message none) = ((refl, refl, refl), refl, refl, refl, refl)
  hook_set r _ = ((refl, refl, refl), refl, refl, refl, refl)

  abbrev Hooked : Update → Router → Router → Type 0
  Hooked u r r' =
      Keeps r r'
      × (r'.seq ≡ r.seq)
      × (payloads r'.log ≡ payloads r.log)
      × (published r'.log ≡ published r.log)
      × (r.has_hook ≡ true → hooked r'.log ≡ with_new_message (some u) (hooked r.log))

  call_hook_on :
      (r : Router) (u : Update)
      → r.has_hook ≡ true
      → call_hook compact running is_up r u
        ≡ elim (hooked_message u) [ none ↦ r | some m ↦ record r { log = hooks m ∷ r.log } ]
  unfolding call_hook
  call_hook_on r u e =
      ap
        (λ b.
          if b
          then elim (hooked_message u) [ none ↦ r | some m ↦ record r { log = hooks m ∷ r.log } ]
          else r)
        e

  call_hook_off :
      (r : Router) (u : Update) → r.has_hook ≡ false → call_hook compact running is_up r u ≡ r
  unfolding call_hook
  call_hook_off r u e =
      ap
        (λ b.
          if b
          then elim (hooked_message u) [ none ↦ r | some m ↦ record r { log = hooks m ∷ r.log } ]
          else r)
        e

  call_hook_lem : (r : Router) (u : Update) → Hooked u r (call_hook compact running is_up r u)
  call_hook_lem r u = elim (Bool-cases r.has_hook) [
    | inl e ↦
        let (keeps, n, ps, pub_, hs) = hook_set r u in
        subst (Hooked u r) (sym (call_hook_on r u e)) (keeps, n, ps, pub_, λ h. hs)
    | inr e ↦
        subst (Hooked u r) (sym (call_hook_off r u e))
          ((refl, refl, refl), refl, refl, refl, λ h. ground arith)
  ]

  tell_tracker_lem :
      (r : Router) (u : Update)
      → let r' = tell_tracker compact running is_up r u in
        Keeps r r' × (r'.seq ≡ r.seq) × (r'.log ≡ r.log)
  unfolding tell_tracker
  tell_tracker_lem r u = elim (Option-cases r.tracker) [
    | inl e ↦ rw e ((refl, refl, refl), refl, refl)
    | inr (t, e) ↦ rw e ((refl, refl, refl), refl, refl)
  ]

  pub numbered_next :
      (s : Bytes) (n : ℕ) (u : Update) (us : List (Option Update)) (done : List Bytes)
      (f : ForwardableUpdate)
      → build_forwardable u ≡ some f
      → let n' = (n + 1) % counter_mod in
        numbered compact s n (some u ∷ us) done
        ≡ numbered compact s n' us (compact (frame_of s n' f) ∷ done)
  numbered_next s n u us done f e =
      ap
        (λ o. elim o [
          | none ↦ numbered compact s n us done
          | some f ↦
              let n' = (n + 1) % counter_mod in
              numbered compact s n' us (compact (frame_of s n' f) ∷ done)
        ])
        e

  send_Advances :
      (r : Router) (u : Update) (f : ForwardableUpdate)
      → build_forwardable u ≡ some f
      → Advances
          (some u)
          r
          (call_hook compact running is_up (send_frame compact running is_up r f) u)
  send_Advances r u f e =
      let r' = send_frame compact running is_up r f in
      let ((s, p, h), n, ps, hs, same) = send_frame_lem r f in
      let ((s', p', h'), n', ps', pub', hs') = call_hook_lem r' u in
      record {
        session = s' ∙ s;
        publisher = p' ∙ p;
        hook = h' ∙ h;
        sends = λ us.
            rw (s' ∙ s, n' ∙ n, ps' ∙ ps)
              (sym (numbered_next r.session_id r.seq u us (payloads r.log) f e));
        same = λ set eq.
            pub'
            ∙ (same set
                ∙ (ap (λ l. compact (frame_of r.session_id ((r.seq + 1) % counter_mod) f) ∷ l) eq
                    ∙ sym (ps' ∙ ps)));
        hooked_next = λ set. hs' (h ∙ set) ∙ ap (with_new_message (some u)) hs;
      }

  numbered_skip :
      (s : Bytes) (n : ℕ) (u : Update) (us : List (Option Update)) (done : List Bytes)
      → build_forwardable u ≡ none
      → numbered compact s n (some u ∷ us) done ≡ numbered compact s n us done
  numbered_skip s n u us done e =
      ap
        (λ o. elim o [
          | none ↦ numbered compact s n us done
          | some f ↦
              let n' = (n + 1) % counter_mod in
              numbered compact s n' us (compact (frame_of s n' f) ∷ done)
        ])
        e

  -- What is not forwarded is not a new message with its message.
  no_hook :
      (u : Update) (done : List Message)
      → build_forwardable u ≡ none
      → with_new_message (some u) done ≡ done
  unfolding build_forwardable
  no_hook (Update.new_message (some m)) done e = ground arith
  no_hook (Update.new_message none) done e = refl
  no_hook _ done e = refl

  pub forward-none :
      (r : Router) (u : Update) → build_forwardable u ≡ none → forward compact running is_up r u ≡ r
  unfolding forward
  forward-none r u e =
      ap
        (λ o. elim o [
          | none ↦ r
          | some f ↦ call_hook compact running is_up (send_frame compact running is_up r f) u
        ])
        e

  pub forward-some :
      (r : Router) (u : Update) (f : ForwardableUpdate)
      → build_forwardable u ≡ some f
      → forward compact running is_up r u
        ≡ call_hook compact running is_up (send_frame compact running is_up r f) u
  unfolding forward
  forward-some r u f e =
      ap
        (λ o. elim o [
          | none ↦ r
          | some f ↦ call_hook compact running is_up (send_frame compact running is_up r f) u
        ])
        e

  -- A step that sends nothing, on an update that is not forwarded.
  silent-Advances :
      (r r' : Router) (u : Update)
      → build_forwardable u ≡ none
      → Keeps r r' × (r'.seq ≡ r.seq)
      → payloads r'.log ≡ payloads r.log
      → published r'.log ≡ published r.log
      → hooked r'.log ≡ hooked r.log
      → Advances (some u) r r'
  silent-Advances r r' u e ((s, p, h), n) ps pub_ hs = record {
    session = s;
    publisher = p;
    hook = h;
    sends = λ us. rw (s, n, ps) (sym (numbered_skip r.session_id r.seq u us (payloads r.log) e));
    same = λ set eq. pub_ ∙ (eq ∙ sym ps);
    hooked_next = λ set. hs ∙ sym (no_hook u (hooked r.log) e);
  }

  unchanged-Advances :
      (r : Router) (u : Update) → build_forwardable u ≡ none → Advances (some u) r r
  unchanged-Advances r u e = silent-Advances r r u e ((refl, refl, refl), refl) refl refl refl

  forward-Advances :
      (r : Router) (u : Update) → Advances (some u) r (forward compact running is_up r u)
  forward-Advances r u = elim (Option-cases (build_forwardable u)) [
    | inl e ↦ subst (Advances (some u) r) (sym (forward-none r u e)) (unchanged-Advances r u e)
    | inr (f, e) ↦ subst (Advances (some u) r) (sym (forward-some r u f e)) (send_Advances r u f e)
  ]

  told-Advances :
      (r r₁ r' : Router) (u : Option Update)
      → Keeps r r₁ × (r₁.seq ≡ r.seq) × (r₁.log ≡ r.log)
      → Advances u r₁ r'
      → Advances u r r'
  told-Advances r r₁ r' u ((s, p, h), n, l) a = record {
    session = a.session ∙ s;
    publisher = a.publisher ∙ p;
    hook = a.hook ∙ h;
    sends = λ us. a.sends us ∙ rw (s, n, l);
    same = λ set eq. a.same (p ∙ set) (ap published l ∙ (eq ∙ ap payloads (sym l)));
    hooked_next = λ set. a.hooked_next (h ∙ set) ∙ ap (λ x. with_new_message u (hooked x)) l;
  }

  connection-Advances :
      (r : Router) (is_ready calls : Bool)
      → Advances
          (some (Update.connection_state (some is_ready)))
          r
          (if calls then record r { log = calls_ready ∷ r.log } else r)
  unfolding build_forwardable
  connection-Advances r is_ready true =
      silent-Advances r _ (Update.connection_state (some is_ready)) refl ((refl, refl, refl), refl)
        refl refl refl
  connection-Advances r is_ready false =
      unchanged-Advances r (Update.connection_state (some is_ready)) refl

  pub on_update-Advances :
      (r : Router) (u : Option Update) → Advances u r (on_update compact running is_up r u)
  unfolding on_update build_forwardable
  on_update-Advances r none = record {
    session = refl;
    publisher = refl;
    hook = refl;
    sends = λ us. refl;
    same = λ set eq. eq;
    hooked_next = λ set. refl;
  }
  on_update-Advances r (some (Update.authorization_state s)) =
      silent-Advances r _ (Update.authorization_state s) refl ((refl, refl, refl), refl) refl refl
        refl
  on_update-Advances r (some (Update.connection_state none)) =
      unchanged-Advances r (Update.connection_state none) refl
  on_update-Advances r (some (Update.connection_state (some is_ready))) =
      connection-Advances r is_ready (r.has_ready && is_ready)
  on_update-Advances r (some u) =
      told-Advances r (tell_tracker compact running is_up r u) _ (some u) (tell_tracker_lem r u)
        (forward-Advances (tell_tracker compact running is_up r u) u)
