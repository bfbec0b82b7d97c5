-- ===== src/Http/IdempotencyCache/Tests.antt =====
-- Runs of the cache, and the theorems at concrete inputs.
use telegram_rest_gateway.Prelude.{
  ◌<◌, ◌≡◌, refl, List, [], ◌∷◌, arith, nat_eq, Bytes, bytes_eq, codes,
}
use telegram_rest_gateway.Prelude.Map.{find, erase, assign}
use telegram_rest_gateway.Http.IdempotencyCache.Invariant.{empty-IsValid}
use telegram_rest_gateway.Http.IdempotencyCache.Retention.{claim-replays_stored}
use telegram_rest_gateway.Http.IdempotencyCache.View.{Refines, step-Refines}
use telegram_rest_gateway.Http.IdempotencyCache.{
  claimed, in_flight, replay, empty, claim, store, release, Call, claims, stores, releases, step,
  run,
}

abbrev key_a : Bytes
key_a = codes "a"

abbrev key_b : Bytes
key_b = codes "b"

abbrev history : List Call
history = claims key_a ∷ stores key_a 200 (codes "ok") ∷ claims key_b ∷ []

-- A second claim of a key in flight is refused, and a released key is free again.
claim_twice : (claim (run (empty 2) (claims key_a ∷ [])) key_a).1 ≡ in_flight
unfolding run step claim empty find assign
claim_twice = refl

claim_released : (claim (run (empty 2) (claims key_a ∷ releases key_a ∷ [])) key_a).1 ≡ claimed
unfolding run step claim release empty find assign erase
claim_released = refl

fresh_claim : (claim (empty 2) key_a).1 ≡ claimed
unfolding claim empty find
fresh_claim = refl

room_for_one : 1 < (empty 2).max_entries
unfolding empty
room_for_one = omega arith

claim-replays_stored_example :
    let later = run (store (claim (empty 2) key_a).0 key_a 200 (codes "ok")) (claims key_b ∷ []) in
    claim later key_a ≡ (later, replay 200 (codes "ok"))
claim-replays_stored_example =
    claim-replays_stored (empty 2) key_a 200 (codes "ok") (claims key_b ∷ [])
      (empty-IsValid 2 (omega arith)) fresh_claim (refl, tt) room_for_one

step-Refines_example : Refines (run (empty 2) history) (claims key_b) key_a
step-Refines_example = step-Refines (run (empty 2) history) (claims key_b) key_a
