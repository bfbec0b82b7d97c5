-- ===== src/Ws/UpdateRouter/Log.antt =====
-- What the log of the router has for clients, for the publisher and for the hook.
use telegram_rest_gateway.Prelude.{
  ℕ, ◌+◌, ◌%◌, Option, none, some, List, [], ◌∷◌, nat_eq, Bytes, bytes_eq,
}
use telegram_rest_gateway.Prelude.Json.{Json}
use telegram_rest_gateway.Dto.Objects.{Message}
use telegram_rest_gateway.Ws.UpdateRouter.{
  Update, ForwardableUpdate, build_forwardable, Effect, fans_out, publishes, hooks, calls_ready,
  counter_mod, frame_of,
}

-- The parts of a log, the last first.
abbrev pub payloads : List Effect → List Bytes
payloads [] = []
payloads (fans_out t payload alive slow ∷ es) = payload ∷ payloads es
payloads (publishes key payload ∷ es) = payloads es
payloads (hooks m ∷ es) = payloads es
payloads (calls_ready ∷ es) = payloads es

abbrev pub published : List Effect → List Bytes
published [] = []
published (fans_out t payload alive slow ∷ es) = published es
published (publishes key payload ∷ es) = payload ∷ published es
published (hooks m ∷ es) = published es
published (calls_ready ∷ es) = published es

abbrev pub hooked : List Effect → List Message
hooked [] = []
hooked (fans_out t payload alive slow ∷ es) = hooked es
hooked (publishes key payload ∷ es) = hooked es
hooked (hooks m ∷ es) = m ∷ hooked es
hooked (calls_ready ∷ es) = hooked es

-- The forwardable ones of some updates, in their order.
abbrev pub forwardable_of : Option Update → Option ForwardableUpdate
forwardable_of none = none
forwardable_of (some u) = build_forwardable u

-- The frames of updates, numbered on from a number, and put before those that are there.
module _ (compact : Json → Bytes) where
  abbrev pub numbered : Bytes → ℕ → List (Option Update) → List Bytes → List Bytes
  numbered s n [] done = done
  numbered s n (u ∷ us) done = elim (forwardable_of u) [
    | none ↦ numbered s n us done
    | some f ↦ let n' = (n + 1) % counter_mod in numbered s n' us (compact (frame_of s n' f) ∷ done)
  ]

-- The messages of updateNewMessage, in the same way.
abbrev pub with_new_message : Option Update → List Message → List Message
with_new_message (some (Update.new_message (some m))) done = m ∷ done
with_new_message _ done = done

abbrev pub new_messages : List (Option Update) → List Message → List Message
new_messages [] done = done
new_messages (u ∷ us) done = new_messages us (with_new_message u done)
