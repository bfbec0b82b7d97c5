-- ===== src/Bridge/TdBridge.antt =====
-- src/bridge/td_bridge.{hpp,cpp} and request_state.hpp: a coroutine suspends on a request to TDLib,
-- and the receiver thread, the sweep of timed-out requests or the shutdown resumes it.
-- The objects and functions of TDLib are a parameter. A shared RequestState is a heap cell, whose
-- number also stands for the coroutine handle that it holds; a mutex makes each access to the table
-- and to a state one step, and the calls of `step` interleave freely.
pub mod Cases
pub mod Invariant
pub mod Delivery
pub mod Responses
pub mod Tests
use telegram_rest_gateway.Prelude.{
  ℕ, zero, suc, ◌+◌, ◌-◌, ◌*◌, ◌/◌, ◌%◌, ◌^◌, ◌≤◌, ◌<◌, min, max, ◌≡◌, refl, sym, ap, ◌∙◌, subst,
  ◌≢◌, ◌↔◌, ◌⊎◌, inl, inr, Bool, true, false, ◌&&◌, ◌||◌, not, Option, none, some, List, [], ◌∷◌,
  ◌++◌, map, arith, ltb, leb, ltb→lt, lt→ltb, leb→le, if◌then◌else◌, Bool-cases, Option-cases, Eq,
  ◌==◌, eq_refl, nat_eq, Bytes, bytes_beq_iff, nat_beq_iff, bytes_eq, codes, length, get_elem?,
  get_or, take, drop, keep_if, all, any, length-append, length-keep_if-le, take-append-drop,
  length-take, length-drop, drop-append, take-append, All, All-append,
}
use telegram_rest_gateway.Bridge.RequestId.{next}
use telegram_rest_gateway.Bridge.CorrelationMap.{Table, try_insert, claim, claim_expired}

-- td_api: its objects, its functions, and the constructor of td_api::error.
pub record TdApi : Type 1 where
  pub Object : Type 0
  pub Function : Type 0
  pub error : ℕ → Bytes → Object

pub data Phase : Type 0 where
  pending fulfilled timed_out rejected : Phase

abbrev pub is_pending : Phase → Bool
is_pending pending = true
is_pending fulfilled = false
is_pending timed_out = false
is_pending rejected = false

-- How a coroutine goes on: at once, since await_suspend returned false; by a task on its loop; or
-- directly on the resolving thread, since the loop does not run.
pub data Resume : Type 0 where
  at_once : ℕ → Resume
  queued : ℕ → ℕ → Resume
  direct : ℕ → Resume

-- steady_clock::time_point::max(), in nanoseconds.
abbrev pub time_max : ℕ
time_max = 2 ^ 63 - 1

module _ (api : TdApi) where
  open api use {Object, Function, error}

  pub record RequestState : Type 0 where
    pub phase : Phase
    pub result : Option Object
    pub event_loop : Option ℕ
    pub deadline : ℕ
    pub request_id : ℕ

  pub record Config : Type 0 where
    pub max_inflight : ℕ
    pub ttl : ℕ
    pub sweep_interval : ℕ

  -- `sent` and `updates` are what the transport and the sink were given, the last first.
  pub record Bridge : Type 0 where
    pub config : Config
    pub corr : Table
    pub counter : ℕ
    pub heap : ℕ → Option RequestState
    pub next_ref : ℕ
    pub sent : List (ℕ × ℕ × Function)
    pub updates : List Object
    pub resumes : List Resume
    pub last_sweep : ℕ
    pub stopping : Bool

  unfoldable pub init : Config → Bridge
  init config = record {
    config = config;
    corr = [];
    counter = 0;
    heap = λ r. none;
    next_ref = 0;
    sent = [];
    updates = [];
    resumes = [];
    last_sweep = 0;
    stopping = false;
  }

  abbrev pub write : (ℕ → Option RequestState) → ℕ → RequestState → ℕ → Option RequestState
  write heap r s x = if r == x then some s else heap x

  -- TdBridge::resolve, from its test on; `running` tells which event loops run.
  resolve_state : (ℕ → Bool) → Bridge → ℕ → RequestState → Phase → Object → Bridge
  resolve_state running b r s phase result =
      if is_pending s.phase
      then record b {
        heap = write b.heap r (record s { phase = phase; result = some result });
        resumes = resume ∷ b.resumes;
      }
      else b
    where
      resume : Resume
      resume = elim s.event_loop [
        | none ↦ direct r
        | some l ↦ (if running l then queued l r else direct r)
      ]

  pub resolve : (ℕ → Bool) → Bridge → ℕ → Phase → Object → Bridge
  unfolding resolve_state
  resolve running b r phase result = elim (b.heap r) [
    | none ↦ b
    | some s ↦ resolve_state running b r s phase result
  ]

  -- TdBridge::registerAndSend: insert before send; `none` when the table is full.
  pub register_and_send : Bridge → ℕ → ℕ → ℕ → Function → Option Bridge
  register_and_send b r id client fn = elim (try_insert b.config.max_inflight b.corr id r) [
    | none ↦ none
    | some corr ↦ some (record b { corr = corr; sent = (client, id, fn) ∷ b.sent })
  ]

  abbrev service_busy : Object
  service_busy = error 503 (codes "SERVICE_BUSY")

  -- TdAwaitable::await_suspend. `current` is the loop of the calling thread and `app` that of drogon.
  pub new_state : ℕ → Option ℕ → Option ℕ → ℕ → RequestState
  new_state id current app deadline = record {
    phase = pending;
    result = none;
    event_loop = elim current [ none ↦ app | some l ↦ some l ];
    deadline = deadline;
    request_id = id;
  }

  pub allocate : Bridge → RequestState → Bridge
  allocate b s = record b {
    counter = s.request_id;
    heap = write b.heap b.next_ref s;
    next_ref = suc b.next_ref;
  }

  pub reject : Bridge → ℕ → RequestState → Bridge
  reject b r s = record b {
    heap = write b.heap r (record s { phase = rejected; result = some service_busy });
    resumes = at_once r ∷ b.resumes;
  }

  unfoldable pub await_suspend : Bridge → ℕ → Function → Option ℕ → Option ℕ → ℕ → Bridge
  unfolding new_state allocate reject register_and_send
  await_suspend b client fn current app now =
      let id = next b.counter in
      let r = b.next_ref in
      let s = new_state id current app (now + b.config.ttl) in
      let b' = allocate b s in
      elim (register_and_send b' r id client fn) [ none ↦ reject b' r s | some b'' ↦ b'' ]

  -- TdAwaitable::await_resume
  unfoldable pub await_resume : Bridge → ℕ → Option Object
  await_resume b r = elim (b.heap r) [ none ↦ none | some s ↦ s.result ]

  pub send_one_way : Bridge → ℕ → Function → Bridge
  send_one_way b client fn =
      let id = next b.counter in record b { counter = id; sent = (client, id, fn) ∷ b.sent }

  unfoldable pub dispatch : (ℕ → Bool) → Bridge → ℕ → Object → Bridge
  unfolding resolve
  dispatch running b id object =
      if id == 0
      then record b { updates = object ∷ b.updates }
      else (let (claimed, corr) = claim b.corr id in
          let b' = record b { corr = corr } in
          elim claimed [ none ↦ b' | some r ↦ resolve running b' r fulfilled object ])

  abbrev pub deadline_of : Bridge → ℕ → ℕ
  deadline_of b r = elim (b.heap r) [ none ↦ 0 | some s ↦ s.deadline ]

  pub resolve_all : (ℕ → Bool) → Bridge → List ℕ → Phase → Object → Bridge
  unfolding resolve
  resolve_all running b [] phase result = b
  resolve_all running b (r ∷ rs) phase result =
      resolve_all running (resolve running b r phase result) rs phase result

  -- The body that sweepExpired and drainPending share.
  pub resolve_expired : (ℕ → Bool) → Bridge → ℕ → Phase → Object → Bridge
  unfolding resolve_all
  resolve_expired running b now phase result =
      let (expired, corr) = claim_expired (λ r. leb (deadline_of b r) now) b.corr in
      resolve_all running (record b { corr = corr }) expired phase result

  pub sweep_expired : (ℕ → Bool) → Bridge → ℕ → Bridge
  unfolding resolve_expired
  sweep_expired running b now =
      resolve_expired running b now timed_out (error 504 (codes "UPSTREAM_TIMEOUT"))

  pub drain_pending : (ℕ → Bool) → Bridge → Bridge
  unfolding resolve_expired
  drain_pending running b =
      resolve_expired running b time_max rejected (error 503 (codes "UPSTREAM_SHUTDOWN"))

  pub sweep_if_time : (ℕ → Bool) → Bridge → ℕ → Bridge
  unfolding sweep_expired
  sweep_if_time running b now =
      if leb b.config.sweep_interval (now - b.last_sweep)
      then record (sweep_expired running b now) { last_sweep = now }
      else b

  -- One round of runReceiveLoop, for what the transport returned and the clock then; the steady clock
  -- does not run back, and no object is the time-out of `receive`.
  pub receive_round : (ℕ → Bool) → Bridge → ℕ → ℕ → Option Object → Bridge
  unfolding sweep_if_time dispatch
  receive_round running b now id object = if b.stopping then b else elim object [
    | none ↦ sweep_if_time running b now
    | some o ↦ dispatch running (sweep_if_time running b now) id o
  ]

  pub start : Bridge → ℕ → Bridge
  start b now = record b { stopping = false; last_sweep = now }

  pub stop : (ℕ → Bool) → Bridge → Bridge
  unfolding drain_pending
  stop running b = drain_pending running (record b { stopping = true })

  -- What may happen next, with what the environment answers in it.
  pub data Event : Type 0 where
    invokes : ℕ → Function → Option ℕ → Option ℕ → ℕ → Event
    sends : ℕ → Function → Event
    receives : (ℕ → Bool) → ℕ → ℕ → Option Object → Event
    drains : (ℕ → Bool) → Event
    starts : ℕ → Event
    stops : (ℕ → Bool) → Event

  unfoldable pub step : Bridge → Event → Bridge
  step b (invokes client fn current app now) = await_suspend b client fn current app now
  step b (sends client fn) = send_one_way b client fn
  step b (receives running now id object) = receive_round running b now id object
  step b (drains running) = drain_pending running b
  step b (starts now) = start b now
  step b (stops running) = stop running b

  unfoldable pub run : Bridge → List Event → Bridge
  run b [] = b
  run b (x ∷ xs) = run (step b x) xs
