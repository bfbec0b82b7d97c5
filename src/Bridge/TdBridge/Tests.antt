-- ===== src/Bridge/TdBridge/Tests.antt =====
-- Runs of the bridge over a small TdApi, and the theorems at concrete inputs.
use telegram_rest_gateway.Prelude.{
  ℕ, ◌+◌, ◌≤◌, ◌<◌, ◌≡◌, refl, ◌≢◌, Bool, true, false, none, some, List, [], ◌∷◌, arith, nat_eq,
  Bytes, bytes_eq, codes, length, All,
}
use telegram_rest_gateway.Prelude.Map.{find, erase, emplace}
use telegram_rest_gateway.Bridge.RequestId.{u64, next}
use telegram_rest_gateway.Bridge.CorrelationMap.{try_insert, claim, claim_expired}
use telegram_rest_gateway.Bridge.TdBridge.{
  receive_round, TdApi, timed_out, Config, Bridge, init, Event, invokes, receives, dispatch,
  await_suspend, await_resume, sweep_expired, drain_pending, run, step, deadline_of,
}
use telegram_rest_gateway.Bridge.TdBridge.Invariant.{
  waiting, Inv, init-Inv, run-Inv, await_suspend-Inv, count_resumes,
}
use telegram_rest_gateway.Bridge.TdBridge.Delivery.{drain_resumes_each}
use telegram_rest_gateway.Bridge.TdBridge.Responses.{
  phase_of, sweep_settles_due, dispatch_each, invoke-response,
}

-- Objects and functions as texts.
abbrev texts : TdApi
texts = record { Object = Bytes; Function = Bytes; error = λ c m. m }

abbrev config : Config texts
config = record { max_inflight = 2; ttl = 30; sweep_interval = 1 }

abbrev all_run : ℕ → Bool
all_run l = true

abbrev get_me : Bytes
get_me = codes "getMe"

abbrev start : Bridge texts
start = init texts config

-- One request in flight, as the first cell.
abbrev suspended : Bridge texts
suspended = await_suspend texts start 1 get_me (some 7) none 100

suspended_found : find 1 suspended.corr ≡ some 0
unfolding await_suspend next init try_insert emplace find
suspended_found = refl

small_start : (start.counter + 1 < u64) × (length start.corr < start.config.max_inflight)
unfolding init
small_start = omega arith

suspended-Inv : Inv texts [] suspended
suspended-Inv =
    await_suspend-Inv texts start 1 get_me (some 7) none 100 small_start.0 (init-Inv texts config)

abbrev history : List (Event texts)
history =
    invokes 1 get_me (some 7) none 100
    ∷ invokes 1 (codes "getChats") none none 101
    ∷ invokes 1 (codes "getChat") none none 102
    ∷ receives all_run 103 2 (some (codes "chats"))
    ∷ []

-- The second request has its answer, and the third found the table full.
history_results :
    (await_resume texts (run texts start history) 0 ≡ none)
    × (await_resume texts (run texts start history) 1 ≡ some (codes "chats"))
    × (await_resume texts (run texts start history) 2 ≡ some (codes "SERVICE_BUSY"))
unfolding run step await_suspend next init try_insert emplace find await_resume dispatch claim erase
    claim_expired receive_round
history_results = (refl, refl, refl)

run-Inv_example : Inv texts [] (run texts (init texts config) history)
run-Inv_example = run-Inv texts config history (omega arith)

drain_resumes_each_example :
    let b = run texts (init texts config) history in
    let b' = drain_pending texts all_run b in
    (b'.corr ≡ [])
    × ((r : ℕ) → waiting texts b' r ≡ false)
    × ((r : ℕ) → r < b'.next_ref → count_resumes r b'.resumes ≡ 1)
drain_resumes_each_example =
    drain_resumes_each texts config history all_run (omega arith) (omega arith)

sweep_settles_due_example :
    let b' = sweep_expired texts all_run suspended 130 in
    (deadline_of texts suspended 0 ≤ 130
      → (await_resume texts b' 0 ≡ some (codes "UPSTREAM_TIMEOUT"))
        × (phase_of texts b' 0 ≡ some timed_out)
        × (dispatch texts all_run b' 1 (codes "me") ≡ b'))
    × (130 < deadline_of texts suspended 0
        → (find 1 b'.corr ≡ some 0) × (b'.heap 0 ≡ suspended.heap 0))
sweep_settles_due_example =
    sweep_settles_due texts all_run suspended 130 1 0 (codes "me") suspended-Inv suspended_found
      (omega arith)

others_apart :
    All (λ (x : ℕ × Bytes). x.0 ≢ start.counter + 1) ((0, codes "update") ∷ (9, codes "late") ∷ [])
unfolding init
others_apart = omega arith

invoke-response_example :
    let b' =
      dispatch_each texts all_run
        (await_suspend texts start 1 get_me (some 7) none 100)
        ((0, codes "update") ∷ (9, codes "late") ∷ []) in
    ((await_suspend texts start 1 get_me (some 7) none 100).sent ≡ (1, 1, get_me) ∷ [])
    × (await_resume texts
          (dispatch texts all_run b' (start.counter + 1) (codes "me"))
          start.next_ref
        ≡ some (codes "me"))
unfolding init
invoke-response_example =
    invoke-response texts all_run start 1 get_me (some 7) none 100 (codes "me")
      ((0, codes "update") ∷ (9, codes "late") ∷ []) (init-Inv texts config) small_start.0
      small_start.1 others_apart
