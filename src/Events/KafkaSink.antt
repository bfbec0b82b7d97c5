-- ===== src/Events/KafkaSink.antt =====
-- src/events/kafka_sink.{hpp,cpp}: the queue between the receiver thread and the one thread that calls
-- librdkafka. Each part that runs under the mutex is one step, and a batch is handed over in the same step as
-- it is taken, since no other thread sees it in between. `accepts n record` is whether librdkafka takes
-- the record that it is given as its n-th.
pub mod Delivery
pub mod Tests
use telegram_rest_gateway.Prelude.{
  ℕ, zero, suc, ◌+◌, ◌-◌, ◌*◌, ◌/◌, ◌%◌, ◌^◌, ◌≤◌, ◌<◌, min, max, ◌≡◌, refl, sym, ap, ◌∙◌, subst,
  ◌≢◌, ◌↔◌, ◌⊎◌, inl, inr, Bool, true, false, ◌&&◌, ◌||◌, not, Option, none, some, List, [], ◌∷◌,
  ◌++◌, map, arith, ltb, leb, ltb→lt, lt→ltb, leb→le, if◌then◌else◌, Bool-cases, Option-cases, Eq,
  ◌==◌, eq_refl, nat_eq, Bytes, bytes_beq_iff, nat_beq_iff, bytes_eq, codes, length, get_elem?,
  get_or, take, drop, keep_if, all, any, length-append, length-keep_if-le, take-append-drop,
  length-take, length-drop, drop-append, take-append, All, All-append, All-map, All-keep_if, All-at,
  some-injective,
}

abbrev pub Record : Type 0
Record = Bytes × Bytes

abbrev pub max_queue : ℕ
max_queue = 20000

abbrev pub counter_mod : ℕ
counter_mod = 2 ^ 64

-- `accepted` is what was ever put into the queue, `handed` what librdkafka was given, and `sent` what it
-- took, each in order.
pub record Sink : Type 0 where
  pub queue : List Record
  pub stop : Bool
  pub worker_done : Bool
  pub flushed : Bool
  pub dropped_total : ℕ
  pub accepted : List Record
  pub handed : List Record
  pub sent : List Record

-- create, where Kafka is configured and librdkafka makes a producer.
unfoldable pub create : Sink
create = record {
  queue = [];
  stop = false;
  worker_done = false;
  flushed = false;
  dropped_total = 0;
  accepted = [];
  handed = [];
  sent = [];
}

unfoldable pub produce : Sink → Record → Sink
produce k r =
    if leb max_queue (length k.queue)
    then record k { dropped_total = (k.dropped_total + 1) % counter_mod }
    else record k { queue = k.queue ++ r ∷ []; accepted = k.accepted ++ r ∷ [] }

-- What the two threads may do.
pub data Event : Type 0 where
  produces : Record → Event
  rounds : Event

module _ (accepts : ℕ → Record → Bool) where
  -- The loop over a batch.
  unfoldable pub hand : Sink → Record → Sink
  hand k r = record k {
    handed = k.handed ++ r ∷ [];
    sent = if accepts (length k.handed) r then k.sent ++ r ∷ [] else k.sent;
    dropped_total =
        if accepts (length k.handed) r
        then k.dropped_total
        else (k.dropped_total + 1) % counter_mod;
  }

  unfoldable pub hand_over : List Record → Sink → Sink
  unfolding hand
  hand_over [] k = k
  hand_over (r ∷ batch) k = hand_over batch (hand k r)

  unfoldable pub is_done : List Record → Bool → Bool
  is_done [] stop = stop
  is_done (r ∷ rs) stop = false

  -- One round of workerLoop once its wait is over.
  unfoldable pub worker_round : Sink → Sink
  unfolding is_done hand_over
  worker_round k =
      if k.worker_done
      then k
      else if is_done k.queue k.stop
      then record k { worker_done = true }
      else hand_over k.queue (record k { queue = [] })

  unfoldable pub request_stop : Sink → Sink
  request_stop k = record k { stop = true }

  -- flush, with as many rounds of the worker as it takes to join it; none if `fuel` rounds do not do.
  unfoldable pub join : ℕ → Sink → Option Sink
  unfolding worker_round
  join zero k = if k.worker_done then some k else none
  join (suc fuel) k =
      let rest = join fuel (worker_round k) in if k.worker_done then some k else rest

  unfoldable pub flush : ℕ → Sink → Option Sink
  unfolding request_stop join
  flush fuel k = elim (join fuel (request_stop k)) [
    | none ↦ none
    | some k' ↦ some (record k' { flushed = true })
  ]

  unfoldable pub step : Sink → Event → Sink
  unfolding produce worker_round
  step k (produces r) = produce k r
  step k rounds = worker_round k

  unfoldable pub run : Sink → List Event → Sink
  run k [] = k
  run k (x ∷ xs) = run (step k x) xs
