-- ===== src/Events/KafkaSink/Tests.antt =====
-- Runs of src/events/kafka_sink.cpp.
use telegram_rest_gateway.Prelude.{
  ℕ, ◌≡◌, refl, Bool, not, some, List, [], ◌∷◌, ◌==◌, nat_eq, bytes_eq, codes,
}
use telegram_rest_gateway.Events.KafkaSink.{
  Record, Sink, create, produce, hand, hand_over, is_done, worker_round, flush, Event, produces,
  rounds, step, run,
}
use telegram_rest_gateway.Events.KafkaSink.Delivery.{Sound, run-create-Sound, flush-delivers}

-- librdkafka refuses the second record that it is given.
abbrev all_but_second : ℕ → Record → Bool
all_but_second n r = not (n == 1)

abbrev record_of : ℕ → Record
record_of n = (codes "default", n ∷ [])

abbrev events : List Event
events = produces (record_of 1) ∷ produces (record_of 2) ∷ rounds ∷ produces (record_of 3) ∷ []

run-sent : (run all_but_second create events).sent ≡ record_of 1 ∷ []
unfolding run step produce create worker_round is_done hand_over hand
run-sent = refl

run-create-Sound_example : Sound (run all_but_second create events)
run-create-Sound_example = run-create-Sound all_but_second events

flush-delivers_example :
    (k' : Sink) × (flush all_but_second 2 (run all_but_second create events) ≡ some k')
    × (k'.handed ≡ record_of 1 ∷ record_of 2 ∷ record_of 3 ∷ [])
    × (k'.queue ≡ [])
unfolding run step produce create worker_round is_done hand_over hand
flush-delivers_example =
    flush-delivers all_but_second (run all_but_second create events)
      (run-create-Sound all_but_second events) refl
