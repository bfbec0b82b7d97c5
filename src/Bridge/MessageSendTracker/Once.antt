-- ===== src/Bridge/MessageSendTracker/Once.antt =====
-- Each coroutine that waits is resumed once, whoever settles it.
use telegram_rest_gateway.Prelude.{
  ℕ, suc, ◌+◌, ◌<◌, ◌≡◌, refl, subst, inl, inr, Bool, true, false, Option, none, some, List, [],
  ◌∷◌, arith, ltb, if◌then◌else◌, Option-cases, ◌==◌, nat_eq, bytes_eq,
}
use telegram_rest_gateway.Prelude.Int.{ℤ, int_eq}
use telegram_rest_gateway.Prelude.Map.{
  find, erase, UniqueKeys, one_if, count_values, count_values-erase, erase-UniqueKeys,
}
use telegram_rest_gateway.Bridge.MessageSendTracker.{
  MessageSendOutcome, SendWaitState, Resume, at_once, queued, direct, Tracker, init, try_insert,
  claim, new_state, await_suspend, await_resume, settle_state, resume_on, settle, settle_timeout,
  timeout, resolve_with, resolve_succeeded, resolve_failed, drain_each, drain_all, Event, step, run,
}

abbrev pub target : Resume → ℕ
target (at_once r) = r
target (queued l r) = r
target (direct r) = r

-- How often a coroutine was resumed.
abbrev pub resumed : ℕ → List Resume → ℕ
resumed r [] = 0
resumed r (x ∷ xs) = one_if (target x == r) + resumed r xs

abbrev pub is_resolved : Option SendWaitState → Bool
is_resolved none = true
is_resolved (some s) = s.resolved

-- With `held` claimed and not yet settled: no id waits twice, each coroutine that was started is
-- held, waits or was resumed, in all once, and what is held or waits is not
-- resolved and has no result.
pub record Inv (held : List (ℤ × ℕ)) (t : Tracker) : Type 0 where
  pub unique : UniqueKeys t.waits
  pub counts :
      (r : ℕ)
      → count_values r held + count_values r t.waits + resumed r t.resumes
        ≡ one_if (ltb r t.next_ref)
  pub unresolved :
      (r : ℕ) → 0 < count_values r held + count_values r t.waits → is_resolved (t.heap r) ≡ false
  pub blank : (r : ℕ) → 0 < count_values r held + count_values r t.waits → await_resume t r ≡ none

init-Inv : Inv [] init
unfolding init await_resume
init-Inv = record {
  unique = tt;
  counts = λ r. ground arith;
  unresolved = λ r h. ground arith;
  blank = λ r h. ground arith;
}

suspend_new-Inv :
    (t : Tracker) (id : ℤ) (s : SendWaitState)
    → s.resolved ≡ false
    → s.result ≡ none
    → find id t.waits ≡ none
    → Inv [] t
    → Inv [] (record t {
      heap = λ x. if t.next_ref == x then some s else t.heap x;
      next_ref = suc t.next_ref;
      waits = (id, t.next_ref) ∷ t.waits;
    })
unfolding await_resume
suspend_new-Inv t id s fresh empty absent v = record {
  unique = (absent, v.unique);
  counts = λ r. ground (arith, v.counts r);
  unresolved = λ r h. ground (arith, fresh, v.unresolved r, v.counts r);
  blank = λ r h. ground (arith, empty, v.blank r, v.counts r);
}

suspend_busy-Inv :
    (t : Tracker) (s : SendWaitState)
    → Inv [] t
    → Inv [] (record t {
      heap = λ x. if t.next_ref == x then some s else t.heap x;
      next_ref = suc t.next_ref;
      resumes = at_once t.next_ref ∷ t.resumes;
    })
unfolding await_resume
suspend_busy-Inv t s v = record {
  unique = v.unique;
  counts = λ r. ground (arith, v.counts r);
  unresolved = λ r h. ground (arith, v.unresolved r, v.counts r);
  blank = λ r h. ground (arith, v.blank r, v.counts r);
}

await_suspend-Inv :
    (t : Tracker) (id : ℤ) (current app : Option ℕ)
    → Inv [] t
    → Inv [] (await_suspend t id current app)
unfolding await_suspend try_insert new_state
await_suspend-Inv t id current app v = elim (Option-cases (find id t.waits)) [
  | inl e ↦
      rw (e, await_suspend, try_insert) (suspend_new-Inv t id (new_state current app) refl refl e v)
  | inr (old, e) ↦ rw (e, await_suspend, try_insert) (suspend_busy-Inv t (new_state current app) v)
]

-- Settling one held state resumes it and nothing else.
settle_held-Inv :
    (t : Tracker) (held : List (ℤ × ℕ)) (id : ℤ) (r : ℕ) (s : SendWaitState)
    (result : Option MessageSendOutcome) (resume : Resume)
    → target resume ≡ r
    → t.heap r ≡ some s
    → Inv ((id, r) ∷ held) t
    → Inv held (settle_state t r s result resume)
unfolding settle_state await_resume
settle_held-Inv t held id r s result resume to e v =
    let open_ : is_resolved (t.heap r) ≡ false = v.unresolved r (ground arith) in
    rw (subst (λ o. is_resolved o ≡ false) e open_) (record {
      unique = v.unique;
      counts = λ x. ground (arith, v.counts x, to);
      unresolved = λ x h. ground (arith, v.counts x, v.unresolved x);
      blank = λ x h. ground (arith, v.counts x, v.blank x);
    })

target-resume_on : (running : ℕ → Bool) (r : ℕ) (l : Option ℕ) → target (resume_on running r l) ≡ r
unfolding resume_on
target-resume_on running r none = refl
target-resume_on running r (some l) = ground arith

pub held_state :
    (t : Tracker) (held : List (ℤ × ℕ)) (id : ℤ) (r : ℕ)
    → Inv ((id, r) ∷ held) t
    → (s : SendWaitState) × (t.heap r ≡ some s)
held_state t held id r v = elim (Option-cases (t.heap r)) [
  | inl e ↦ absurd (no_cell e)
  | inr found ↦ found
]
  where
    no_cell : t.heap r ≡ none → ⊥
    no_cell e = ground (arith, e, v.unresolved r (ground arith))

settle-Inv :
    (running : ℕ → Bool) (t : Tracker) (held : List (ℤ × ℕ)) (id : ℤ) (r : ℕ)
    (result : Option MessageSendOutcome)
    → Inv ((id, r) ∷ held) t
    → Inv held (settle running t r result)
unfolding settle
settle-Inv running t held id r result v =
    let (s, e) = held_state t held id r v in
    rw (e, settle)
      (settle_held-Inv t held id r s result (resume_on running r s.event_loop)
        (target-resume_on running r s.event_loop) e v)

settle_timeout-Inv :
    (t : Tracker) (held : List (ℤ × ℕ)) (id : ℤ) (r : ℕ)
    → Inv ((id, r) ∷ held) t
    → Inv held (settle_timeout t r)
unfolding settle_timeout
settle_timeout-Inv t held id r v =
    let (s, e) = held_state t held id r v in
    rw (e, settle_timeout) (settle_held-Inv t held id r s none (direct r) refl e v)

-- A claim moves the state from the waits to the held.
pub claim-Inv :
    (t : Tracker) (id : ℤ) (r : ℕ)
    → find id t.waits ≡ some r
    → Inv [] t
    → Inv ((id, r) ∷ []) (record t { waits = erase id t.waits })
unfolding await_resume
claim-Inv t id r e v = record {
  unique = erase-UniqueKeys id t.waits v.unique;
  counts = λ x. omega (arith, v.counts x, count_values-erase x id t.waits r v.unique e);
  unresolved = λ x h. v.unresolved x (omega (arith, count_values-erase x id t.waits r v.unique e));
  blank = λ x h. v.blank x (omega (arith, count_values-erase x id t.waits r v.unique e));
}

resolve_with-Inv :
    (running : ℕ → Bool) (t : Tracker) (id : ℤ) (outcome : MessageSendOutcome)
    → Inv [] t
    → Inv [] (resolve_with running t id outcome)
unfolding resolve_with claim
resolve_with-Inv running t id outcome v = elim (Option-cases (find id t.waits)) [
  | inl e ↦ rw (e, resolve_with, claim) v
  | inr (r, e) ↦
      rw (e, resolve_with, claim)
        (settle-Inv running (record t { waits = erase id t.waits }) [] id r (some outcome)
          (claim-Inv t id r e v))
]

timeout-Inv : (t : Tracker) (id : ℤ) → Inv [] t → Inv [] (timeout t id)
unfolding timeout claim
timeout-Inv t id v = elim (Option-cases (find id t.waits)) [
  | inl e ↦ rw (e, timeout, claim) v
  | inr (r, e) ↦
      rw (e, timeout, claim)
        (settle_timeout-Inv (record t { waits = erase id t.waits }) [] id r (claim-Inv t id r e v))
]

drain_each-Inv :
    (running : ℕ → Bool) (t : Tracker) (held : List (ℤ × ℕ))
    → Inv held t
    → Inv [] (drain_each running t held)
unfolding drain_each
drain_each-Inv running t [] v = v
drain_each-Inv running t ((id, r) ∷ held) v =
    drain_each-Inv running (settle running t r none) held (settle-Inv running t held id r none v)

pub drain_all-Inv : (running : ℕ → Bool) (t : Tracker) → Inv [] t → Inv [] (drain_all running t)
unfolding drain_all await_resume
drain_all-Inv running t v =
    drain_each-Inv running (record t { waits = [] }) t.waits
      (record {
        unique = tt;
        counts = λ r. omega (arith, v.counts r);
        unresolved = λ r h. v.unresolved r (omega arith);
        blank = λ r h. v.blank r (omega arith);
      })

step-Inv : (t : Tracker) (x : Event) → Inv [] t → Inv [] (step t x)
unfolding step resolve_succeeded resolve_failed
step-Inv t (Event.waits_for id current app) v = await_suspend-Inv t id current app v
step-Inv t (Event.succeeds running id message) v = resolve_with-Inv running t id _ v
step-Inv t (Event.fails running id code message) v = resolve_with-Inv running t id _ v
step-Inv t (Event.fires id) v = timeout-Inv t id v
step-Inv t (Event.drains running) v = drain_all-Inv running t v

run_from-Inv : (t : Tracker) (xs : List Event) → Inv [] t → Inv [] (run t xs)
unfolding run
run_from-Inv t [] v = v
run_from-Inv t (x ∷ xs) v = run_from-Inv (step t x) xs (step-Inv t x v)

-- Whatever waits, succeeds, fails, times out or is drained, in any order: no message id waits twice,
-- each coroutine that was started either waits or was resumed exactly once, and none of those that
-- wait has a result yet.
pub run-init-Inv : (xs : List Event) → Inv [] (run init xs)
run-init-Inv xs = run_from-Inv init xs init-Inv
