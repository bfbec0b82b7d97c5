-- ===== src/Ws/UpdateRouter/Frames.antt =====
-- What clients, the publisher and the hook get of a sequence of updates.
use telegram_rest_gateway.Prelude.{
  ℕ, ◌≡◌, refl, ap, ◌∙◌, Bool, true, Option, List, [], ◌∷◌, nat_eq, Bytes, bytes_eq,
}
use telegram_rest_gateway.Prelude.Json.{Json}
use telegram_rest_gateway.Ws.UpdateRouter.{Update, Router, on_update, run}
use telegram_rest_gateway.Ws.UpdateRouter.Log.{payloads, published, hooked, numbered, new_messages}
use telegram_rest_gateway.Ws.UpdateRouter.Steps.{on_update-Advances}

module _ (compact : Json → Bytes) (running is_up : ℕ → Bool) where
  -- Whatever updates come, the clients are sent one frame for each forwardable update, in the order in
  -- which the updates came, and the frames are numbered one after the other from the number of the last
  -- one before.
  pub run-frames :
      (r : Router) (us : List (Option Update))
      → payloads (run compact running is_up r us).log
        ≡ numbered compact r.session_id r.seq us (payloads r.log)
  unfolding run
  run-frames r [] = refl
  run-frames r (u ∷ us) =
      run-frames (on_update compact running is_up r u) us
      ∙ (on_update-Advances compact running is_up r u).sends us

  -- A publisher that is set gets the same frames as the clients, each once and in the same order.
  pub run-published :
      (r : Router) (us : List (Option Update))
      → r.has_publisher ≡ true
      → published r.log ≡ payloads r.log
      → let r' = run compact running is_up r us in published r'.log ≡ payloads r'.log
  unfolding run
  run-published r [] set eq = eq
  run-published r (u ∷ us) set eq =
      let a = on_update-Advances compact running is_up r u in
      run-published (on_update compact running is_up r u) us (a.publisher ∙ set) (a.same set eq)

  -- A hook that is set gets the message of each updateNewMessage that has one, in order, and no other.
  pub run-hooked :
      (r : Router) (us : List (Option Update))
      → r.has_hook ≡ true
      → hooked (run compact running is_up r us).log ≡ new_messages us (hooked r.log)
  unfolding run
  run-hooked r [] set = refl
  run-hooked r (u ∷ us) set =
      let a = on_update-Advances compact running is_up r u in
      run-hooked (on_update compact running is_up r u) us (a.hook ∙ set)
      ∙ ap (new_messages us) (a.hooked_next set)
