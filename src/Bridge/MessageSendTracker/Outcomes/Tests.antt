-- ===== src/Bridge/MessageSendTracker/Outcomes/Tests.antt =====
-- Runs of src/bridge/message_send_tracker.cpp.
use telegram_rest_gateway.Prelude.{
  ℕ, ◌≡◌, refl, Bool, true, none, some, List, [], ◌∷◌, ltb→lt, nat_eq, bytes_eq, codes,
}
use telegram_rest_gateway.Prelude.Int.{ℤ, int_eq}
use telegram_rest_gateway.Prelude.Json.{Json}
use telegram_rest_gateway.Prelude.Map.{find}
use telegram_rest_gateway.Bridge.MessageSendTracker.{
  MessageSendOutcome, Resume, init, await_resume, await_suspend, timeout, resolve_with,
  resolve_failed, drain_all, Event, step, run,
}
use telegram_rest_gateway.Bridge.MessageSendTracker.Once.{Inv, run-init-Inv, resumed}
use telegram_rest_gateway.Bridge.MessageSendTracker.Outcomes.{first_settles, drain_all-resumed}

abbrev every_loop : ℕ → Bool
every_loop l = true

abbrev sent : MessageSendOutcome
sent = record {
  succeeded = true;
  message = Json.string (codes "sent");
  error_code = ℤ.pos 0;
  error_message = [];
}

-- Two messages wait, a third wait repeats the first id, and the second message fails.
abbrev events : List Event
events =
    Event.waits_for (ℤ.pos 70) (some 1) (some 0)
    ∷ Event.waits_for (ℤ.pos 71) none (some 0)
    ∷ Event.waits_for (ℤ.pos 70) (some 1) (some 0)
    ∷ Event.fails every_loop (ℤ.pos 71) (ℤ.pos 400) (codes "PEER_FLOOD")
    ∷ []

pub run-resumes : (run init events).resumes ≡ Resume.queued 0 1 ∷ Resume.at_once 2 ∷ []
unfolding run init step resolve_failed await_suspend
run-resumes = refl

run-init-Inv_example : Inv [] (run init events)
run-init-Inv_example = run-init-Inv events

drain_all-resumed_example :
    ((drain_all every_loop (run init events)).waits ≡ [])
    × (resumed 0 (drain_all every_loop (run init events)).resumes ≡ 1)
unfolding run init step resolve_failed await_suspend
drain_all-resumed_example = drain_all-resumed every_loop events 0 (ltb→lt 0 3 refl)

first_settles_example :
    let t = run init events in
    let t' = resolve_with every_loop t (ℤ.pos 70) sent in
    let t'' = timeout t (ℤ.pos 70) in
    (await_resume t' 0 ≡ some sent)
    × (find (ℤ.pos 70) t'.waits ≡ none)
    × (timeout t' (ℤ.pos 70) ≡ t')
    × (await_resume t'' 0 ≡ none)
    × (find (ℤ.pos 70) t''.waits ≡ none)
    × (resolve_with every_loop t'' (ℤ.pos 70) sent ≡ t'')
unfolding run init find step resolve_failed await_suspend
first_settles_example =
    first_settles every_loop (run init events) (ℤ.pos 70) 0 sent (run-init-Inv events) refl
