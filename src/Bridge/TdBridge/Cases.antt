-- ===== src/Bridge/TdBridge/Cases.antt =====
-- The branches of `dispatch` and `await_suspend`, each with the state that it leaves.
use telegram_rest_gateway.Prelude.{
  ℕ, ◌+◌, ◌≤◌, ◌<◌, ◌≡◌, ◌≢◌, ◌⊎◌, inl, inr, Bool, Option, none, some, ◌∷◌, arith, leb, Bool-cases,
  Option-cases, ◌==◌, nat_eq, bytes_eq, length,
}
use telegram_rest_gateway.Prelude.Map.{find, erase, emplace}
use telegram_rest_gateway.Bridge.RequestId.{next}
use telegram_rest_gateway.Bridge.CorrelationMap.{try_insert, claim}
use telegram_rest_gateway.Bridge.TdBridge.{
  TdApi, RequestState, fulfilled, Bridge, resolve, register_and_send, new_state, allocate, reject,
  await_suspend, dispatch,
}

module _ (api : TdApi) where
  open api use {Object, Function}

  module _ (running : ℕ → Bool) (b : Bridge api) (id : ℕ) (object : Object) where
    abbrev pub DispatchCases : Type 0
    DispatchCases =
        ((id ≡ 0) × (dispatch api running b id object ≡ record b { updates = object ∷ b.updates }))
        ⊎ ((id ≢ 0) × (find id b.corr ≡ none) × (dispatch api running b id object ≡ b))
        ⊎ ((id ≢ 0)
            × (r : ℕ) × (find id b.corr ≡ some r)
            × (dispatch api running b id object
                ≡ resolve api running (record b { corr = erase id b.corr }) r fulfilled object))

    pub dispatch_cases : DispatchCases
    unfolding dispatch claim
    dispatch_cases = elim (Bool-cases (id == 0)) [
      | inl z ↦ inl (ground arith, ground arith)
      | inr nz ↦ elim (Option-cases (find id b.corr)) [
        | inl n ↦ inr (inl (ground arith, n, ground arith))
        | inr (r, f) ↦ inr (inr (ground arith, r, f, ground arith))
      ]
    ]

  module _ (b : Bridge api) (client : ℕ) (fn : Function) (current app : Option ℕ) (now : ℕ) where
    abbrev pub state_of : RequestState api
    state_of = new_state api (next b.counter) current app (now + b.config.ttl)

    abbrev pub SuspendCases : Type 0
    SuspendCases =
        ((b.config.max_inflight ≤ length b.corr)
          × (await_suspend api b client fn current app now
              ≡ reject api (allocate api b state_of) b.next_ref state_of))
        ⊎ ((length b.corr < b.config.max_inflight)
            × (await_suspend api b client fn current app now ≡ record (allocate api b state_of) {
              corr = emplace (next b.counter) b.next_ref b.corr;
              sent = (client, next b.counter, fn) ∷ b.sent;
            }))

    pub await_suspend_cases : SuspendCases
    unfolding await_suspend allocate reject register_and_send try_insert
    await_suspend_cases = elim (Bool-cases (leb b.config.max_inflight (length b.corr))) [
      | inl full ↦ inl (ground arith, ground arith)
      | inr room ↦ inr (ground arith, ground arith)
    ]
