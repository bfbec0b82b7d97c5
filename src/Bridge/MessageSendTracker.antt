-- ===== src/Bridge/MessageSendTracker.antt =====
-- src/bridge/message_send_tracker.{hpp,cpp}: a coroutine waits for the outcome of a message that it
-- sent, and the receiver thread, a timer or the shutdown resumes it. As in TdBridge, a shared
-- SendWaitState is a cell of a heap whose number stands for its coroutine, and each access under a
-- mutex is one step. A timer claims by the message id and may fire at any time after its wait began.
pub mod Once
pub mod Outcomes
use telegram_rest_gateway.Prelude.{
  ℕ, zero, suc, ◌+◌, ◌-◌, ◌*◌, ◌/◌, ◌%◌, ◌^◌, ◌≤◌, ◌<◌, min, max, ◌≡◌, refl, sym, ap, ◌∙◌, subst,
  ◌≢◌, ◌↔◌, ◌⊎◌, inl, inr, Bool, true, false, ◌&&◌, ◌||◌, not, Option, none, some, List, [], ◌∷◌,
  ◌++◌, map, arith, ltb, leb, ltb→lt, lt→ltb, leb→le, if◌then◌else◌, Bool-cases, Option-cases, Eq,
  ◌==◌, eq_refl, nat_eq, Bytes, bytes_beq_iff, nat_beq_iff, bytes_eq, codes, length, get_elem?,
  get_or, take, drop, keep_if, all, any, length-append, length-keep_if-le, take-append-drop,
  length-take, length-drop, drop-append, take-append, All, All-append, All-map, All-keep_if, All-at,
  some-injective,
}
use telegram_rest_gateway.Prelude.Int.{ℤ, int_eq}
use telegram_rest_gateway.Prelude.Json.{Json, null}
use telegram_rest_gateway.Prelude.Map.{find, erase}

pub record MessageSendOutcome : Type 0 where
  pub succeeded : Bool
  pub message : Json
  pub error_code : ℤ
  pub error_message : Bytes

pub record SendWaitState : Type 0 where
  pub resolved : Bool
  pub event_loop : Option ℕ
  pub result : Option MessageSendOutcome

-- How a coroutine goes on: at once, since await_suspend returned false; by a task on its loop; or
-- directly on the thread that settles it.
pub data Resume : Type 0 where
  at_once : ℕ → Resume
  queued : ℕ → ℕ → Resume
  direct : ℕ → Resume

pub record Tracker : Type 0 where
  pub waits : List (ℤ × ℕ)
  pub heap : ℕ → Option SendWaitState
  pub next_ref : ℕ
  pub resumes : List Resume

unfoldable pub init : Tracker
init = record { waits = []; heap = λ r. none; next_ref = 0; resumes = [] }

abbrev pub write : (ℕ → Option SendWaitState) → ℕ → SendWaitState → ℕ → Option SendWaitState
write heap r s x = if r == x then some s else heap x

-- map_.emplace(id, state).second, with the map then; none: the id is there.
unfoldable pub try_insert : List (ℤ × ℕ) → ℤ → ℕ → Option (List (ℤ × ℕ))
unfolding find
try_insert waits id r = elim (find id waits) [ none ↦ some ((id, r) ∷ waits) | some old ↦ none ]

unfoldable pub claim : List (ℤ × ℕ) → ℤ → Option (ℕ × List (ℤ × ℕ))
unfolding find erase
claim waits id = elim (find id waits) [ none ↦ none | some r ↦ some (r, erase id waits) ]

-- await_suspend. `current` is the loop of the calling thread and `app` that of drogon.
unfoldable pub new_state : Option ℕ → Option ℕ → SendWaitState
new_state current app = record {
  resolved = false;
  event_loop = elim current [ none ↦ app | some l ↦ some l ];
  result = none;
}

unfoldable pub await_suspend : Tracker → ℤ → Option ℕ → Option ℕ → Tracker
unfolding new_state try_insert
await_suspend t id current app =
    let r = t.next_ref in
    let t' = record t { heap = write t.heap r (new_state current app); next_ref = suc r } in
    elim (try_insert t.waits id r) [
      | none ↦ record t' { resumes = at_once r ∷ t.resumes }
      | some waits ↦ record t' { waits = waits }
    ]

unfoldable pub await_resume : Tracker → ℕ → Option MessageSendOutcome
await_resume t r = elim (t.heap r) [ none ↦ none | some s ↦ s.result ]

-- What is done with a claimed state: nothing if it is resolved, else it gets the result.
unfoldable pub settle_state :
    Tracker → ℕ → SendWaitState → Option MessageSendOutcome → Resume → Tracker
settle_state t r s result resume = if s.resolved then t else record t {
  heap = write t.heap r (record s { resolved = true; result = result });
  resumes = resume ∷ t.resumes;
}

-- By a task on the state's loop if that runs, else directly; `running` tells which loops run.
unfoldable pub resume_on : (ℕ → Bool) → ℕ → Option ℕ → Resume
resume_on running r none = direct r
resume_on running r (some l) = if running l then queued l r else direct r

unfoldable pub settle : (ℕ → Bool) → Tracker → ℕ → Option MessageSendOutcome → Tracker
unfolding settle_state resume_on
settle running t r result = elim (t.heap r) [
  | none ↦ t
  | some s ↦ settle_state t r s result (resume_on running r s.event_loop)
]

-- The timer's task, which runs on the state's own loop.
unfoldable pub settle_timeout : Tracker → ℕ → Tracker
unfolding settle_state
settle_timeout t r = elim (t.heap r) [ none ↦ t | some s ↦ settle_state t r s none (direct r) ]

unfoldable pub timeout : Tracker → ℤ → Tracker
unfolding claim settle_timeout
timeout t id = elim (claim t.waits id) [
  | none ↦ t
  | some (r, waits) ↦ settle_timeout (record t { waits = waits }) r
]

unfoldable pub resolve_with : (ℕ → Bool) → Tracker → ℤ → MessageSendOutcome → Tracker
unfolding claim settle
resolve_with running t id outcome = elim (claim t.waits id) [
  | none ↦ t
  | some (r, waits) ↦ settle running (record t { waits = waits }) r (some outcome)
]

unfoldable pub resolve_succeeded : (ℕ → Bool) → Tracker → ℤ → Json → Tracker
unfolding resolve_with
resolve_succeeded running t id message =
    resolve_with running t id
      (record { succeeded = true; message = message; error_code = ℤ.pos 0; error_message = [] })

unfoldable pub resolve_failed : (ℕ → Bool) → Tracker → ℤ → ℤ → Bytes → Tracker
unfolding resolve_with
resolve_failed running t id code message =
    resolve_with running t id
      (record { succeeded = false; message = null; error_code = code; error_message = message })

unfoldable pub drain_each : (ℕ → Bool) → Tracker → List (ℤ × ℕ) → Tracker
unfolding settle
drain_each running t [] = t
drain_each running t ((id, r) ∷ rest) = drain_each running (settle running t r none) rest

unfoldable pub drain_all : (ℕ → Bool) → Tracker → Tracker
unfolding drain_each
drain_all running t = drain_each running (record t { waits = [] }) t.waits

-- What may happen next.
pub data Event : Type 0 where
  waits_for : ℤ → Option ℕ → Option ℕ → Event
  succeeds : (ℕ → Bool) → ℤ → Json → Event
  fails : (ℕ → Bool) → ℤ → ℤ → Bytes → Event
  fires : ℤ → Event
  drains : (ℕ → Bool) → Event

unfoldable pub step : Tracker → Event → Tracker
step t (waits_for id current app) = await_suspend t id current app
step t (succeeds running id message) = resolve_succeeded running t id message
step t (fails running id code message) = resolve_failed running t id code message
step t (fires id) = timeout t id
step t (drains running) = drain_all running t

unfoldable pub run : Tracker → List Event → Tracker
run t [] = t
run t (x ∷ xs) = run (step t x) xs
