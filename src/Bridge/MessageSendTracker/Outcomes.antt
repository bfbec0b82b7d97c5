-- ===== src/Bridge/MessageSendTracker/Outcomes.antt =====
-- What the coroutine that waits for a message gets.
pub mod Tests
use telegram_rest_gateway.Prelude.{
  ℕ, zero, suc, ◌+◌, ◌-◌, ◌*◌, ◌/◌, ◌%◌, ◌^◌, ◌≤◌, ◌<◌, min, max, ◌≡◌, refl, sym, ap, ◌∙◌, subst,
  ◌≢◌, ◌↔◌, ◌⊎◌, inl, inr, Bool, true, false, ◌&&◌, ◌||◌, not, Option, none, some, List, [], ◌∷◌,
  ◌++◌, map, arith, ltb, leb, ltb→lt, lt→ltb, leb→le, if◌then◌else◌, Bool-cases, Option-cases, Eq,
  ◌==◌, eq_refl, nat_eq, Bytes, bytes_beq_iff, nat_beq_iff, bytes_eq, codes, length, get_elem?,
  get_or, take, drop, keep_if, all, any, length-append, length-keep_if-le, take-append-drop,
  length-take, length-drop, drop-append, take-append, All, All-append, All-map, All-keep_if, All-at,
  some-injective,
}
use telegram_rest_gateway.Prelude.Int.{ℤ, int_eq}
use telegram_rest_gateway.Prelude.Json.{Json}
use telegram_rest_gateway.Prelude.Map.{find, erase, find-erase, UniqueKeys, one_if, count_values}
use telegram_rest_gateway.Bridge.MessageSendTracker.{
  MessageSendOutcome, SendWaitState, Resume, Tracker, init, claim, await_resume, settle_state,
  resume_on, settle, settle_timeout, timeout, resolve_with, resolve_succeeded, resolve_failed,
  drain_each, drain_all, Event, run,
}
use telegram_rest_gateway.Bridge.MessageSendTracker.Once.{
  Inv, run-init-Inv, resumed, held_state, claim-Inv, drain_all-Inv, is_resolved,
}

claim_none : (t : Tracker) (id : ℤ) → find id t.waits ≡ none → timeout t id ≡ t
unfolding timeout claim
claim_none t id e = rw (e, timeout, claim)

resolve_none :
    (running : ℕ → Bool) (t : Tracker) (id : ℤ) (outcome : MessageSendOutcome)
    → find id t.waits ≡ none
    → resolve_with running t id outcome ≡ t
unfolding resolve_with claim
resolve_none running t id outcome e = rw (e, resolve_with, claim)

settle_held :
    (running : ℕ → Bool) (t : Tracker) (id : ℤ) (r : ℕ) (result : Option MessageSendOutcome)
    → Inv ((id, r) ∷ []) t
    → (await_resume (settle running t r result) r ≡ result)
      × ((settle running t r result).waits ≡ t.waits)
unfolding settle settle_state await_resume
settle_held running t id r result v =
    let (s, e) = held_state t [] id r v in
    let open_ : is_resolved (t.heap r) ≡ false = v.unresolved r (ground arith) in
    (ground (arith, e, open_), ground (arith, e, open_))

settle_timeout_held :
    (t : Tracker) (id : ℤ) (r : ℕ)
    → Inv ((id, r) ∷ []) t
    → (await_resume (settle_timeout t r) r ≡ none) × ((settle_timeout t r).waits ≡ t.waits)
unfolding settle_timeout settle_state await_resume
settle_timeout_held t id r v =
    let (s, e) = held_state t [] id r v in
    let open_ : is_resolved (t.heap r) ≡ false = v.unresolved r (ground arith) in
    (ground (arith, e, open_), ground (arith, e, open_))

pub resolve_found :
    (running : ℕ → Bool) (t : Tracker) (id : ℤ) (r : ℕ) (outcome : MessageSendOutcome)
    → find id t.waits ≡ some r
    → resolve_with running t id outcome
      ≡ settle running (record t { waits = erase id t.waits }) r (some outcome)
unfolding resolve_with claim
resolve_found running t id r outcome e = rw (e, resolve_with, claim)

timeout_found :
    (t : Tracker) (id : ℤ) (r : ℕ)
    → find id t.waits ≡ some r
    → timeout t id ≡ settle_timeout (record t { waits = erase id t.waits }) r
unfolding timeout claim
timeout_found t id r e = rw (e, timeout, claim)

-- The wait for a message ends with whichever comes first, its outcome or its timer: the coroutine gets
-- that outcome, or none from the timer, the message is no longer waited for, and the other one then
-- changes nothing.
pub first_settles :
    (running : ℕ → Bool) (t : Tracker) (id : ℤ) (r : ℕ) (outcome : MessageSendOutcome)
    → Inv [] t
    → find id t.waits ≡ some r
    → let t' = resolve_with running t id outcome in
      let t'' = timeout t id in
      (await_resume t' r ≡ some outcome)
      × (find id t'.waits ≡ none)
      × (timeout t' id ≡ t')
      × (await_resume t'' r ≡ none)
      × (find id t''.waits ≡ none)
      × (resolve_with running t'' id outcome ≡ t'')
first_settles running t id r outcome v e =
    let held = record t { waits = erase id t.waits } in
    let gone : find id (erase id t.waits) ≡ none =
      find-erase id id t.waits ∙ ground (arith, eq_refl id) in
    let (gets, waits) = settle_held running held id r (some outcome) (claim-Inv t id r e v) in
    let (blank, waits') = settle_timeout_held held id r (claim-Inv t id r e v) in
    let absent : find id (resolve_with running t id outcome).waits ≡ none =
      ap (λ x. find id x.waits) (resolve_found running t id r outcome e)
      ∙ ap (find id) waits
      ∙ gone in
    let absent' : find id (timeout t id).waits ≡ none =
      ap (λ x. find id x.waits) (timeout_found t id r e) ∙ ap (find id) waits' ∙ gone in
    (
      ap (λ x. await_resume x r) (resolve_found running t id r outcome e) ∙ gets,
      absent,
      claim_none (resolve_with running t id outcome) id absent,
      ap (λ x. await_resume x r) (timeout_found t id r e) ∙ blank,
      absent',
      resolve_none running (timeout t id) id outcome absent',
    )

settle_keeps :
    (running : ℕ → Bool) (t : Tracker) (r : ℕ) (result : Option MessageSendOutcome)
    → ((settle running t r result).waits ≡ t.waits)
      × ((settle running t r result).next_ref ≡ t.next_ref)
unfolding settle settle_state
settle_keeps running t r result = (ground arith, ground arith)

drain_each_keeps :
    (running : ℕ → Bool) (t : Tracker) (held : List (ℤ × ℕ))
    → ((drain_each running t held).waits ≡ t.waits)
      × ((drain_each running t held).next_ref ≡ t.next_ref)
unfolding drain_each
drain_each_keeps running t [] = (refl, refl)
drain_each_keeps running t ((id, r) ∷ held) =
    let (w, n) = drain_each_keeps running (settle running t r none) held in
    let (w', n') = settle_keeps running t r none in (w ∙ w', n ∙ n')

drain_all_keeps :
    (running : ℕ → Bool) (t : Tracker)
    → ((drain_all running t).waits ≡ []) × ((drain_all running t).next_ref ≡ t.next_ref)
unfolding drain_all
drain_all_keeps running t = drain_each_keeps running (record t { waits = [] }) t.waits

-- After the shutdown's drain, whatever happened before, no message is waited for and every coroutine
-- that was ever started has been resumed exactly once.
pub drain_all-resumed :
    (running : ℕ → Bool) (xs : List Event) (r : ℕ)
    → r < (run init xs).next_ref
    → let t = drain_all running (run init xs) in (t.waits ≡ []) × (resumed r t.resumes ≡ 1)
drain_all-resumed running xs r lt =
    let t = run init xs in
    let v = drain_all-Inv running t (run-init-Inv xs) in
    let (w, n) = drain_all_keeps running t in
    let none_waits : count_values r (drain_all running t).waits ≡ 0 = ap (count_values r) w in
    (w, ground (arith, v.counts r, n, none_waits))
