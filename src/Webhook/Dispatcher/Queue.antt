-- ===== src/Webhook/Dispatcher/Queue.antt =====
-- No event that was accepted is lost, and the queue stays within its limit.
use telegram_rest_gateway.Prelude.{
  ℕ, ◌≤◌, ◌<◌, ◌≡◌, refl, sym, ap, ◌∙◌, subst, inl, inr, Bool, true, false, ◌||◌, not, List, [],
  ◌∷◌, ◌++◌, arith, leb, Bool-cases, nat_eq, bytes_eq, length, length-append,
}
use telegram_rest_gateway.Webhook.Registry.{Webhook}
use telegram_rest_gateway.Webhook.Dispatcher.{
  Payload, Dispatcher, init, start, dispatch, worker_round, stop, is_done, post_all,
}

pub data Event : Type 0 where
  starts stops : Event
  dispatches : Payload → Event
  rounds : List Webhook → Event

unfoldable pub step : Dispatcher → Event → Dispatcher
step d Event.starts = start d
step d Event.stops = stop d
step d (Event.dispatches p) = dispatch d p
step d (Event.rounds hooks) = worker_round d hooks

unfoldable pub run : Dispatcher → List Event → Dispatcher
run d [] = d
run d (x ∷ xs) = run (step d x) xs

-- The accepted events are those that the worker took and then those in the queue, in order; the
-- queue is within its limit; a worker that has returned left nothing, and takes nothing any more.
abbrev pub Sound : Dispatcher → Type 0
Sound d =
    (d.accepted ≡ d.taken ++ d.queue)
    × (length d.queue ≤ d.queue_max)
    × (d.worker_done ≡ true → (d.queue ≡ []) × (d.stop_flag ≡ true) × (d.started ≡ true))

append_assoc {ℓ} : {A : Type ℓ} (xs ys zs : List A) → (xs ++ ys) ++ zs ≡ xs ++ (ys ++ zs)
append_assoc [] ys zs = refl
append_assoc (x ∷ xs) ys zs = ap (◌∷◌ x) (append_assoc xs ys zs)

append_nil {ℓ} : {A : Type ℓ} (xs : List A) → xs ++ [] ≡ xs
append_nil [] = refl
append_nil (x ∷ xs) = ap (◌∷◌ x) (append_nil xs)

start-Sound : (d : Dispatcher) → Sound d → Sound (start d)
unfolding start
start-Sound d s = ground (arith, s.0, s.1, s.2)

stop-Sound : (d : Dispatcher) → Sound d → Sound (stop d)
unfolding stop
stop-Sound d s = (s.0, s.1, λ h. ((s.2 h).0, refl, (s.2 h).2))

push-Sound :
    (d : Dispatcher) (p : Payload)
    → Sound d
    → d.stop_flag ≡ false
    → length d.queue < d.queue_max
    → Sound (record d { queue = d.queue ++ p ∷ []; accepted = d.accepted ++ p ∷ [] })
push-Sound d p s open_ lt = (
  ap (λ ps. ps ++ p ∷ []) s.0 ∙ append_assoc d.taken d.queue (p ∷ []),
  omega (arith, length-append d.queue (p ∷ [])),
  λ h. ground (arith, open_, (s.2 h).1),
)

dispatch-Sound : (d : Dispatcher) (p : Payload) → Sound d → Sound (dispatch d p)
unfolding dispatch
dispatch-Sound d p s = elim (Bool-cases (not d.started || d.stop_flag)) [
  | inl e ↦ ground (arith, e, s.0, s.1, s.2)
  | inr e ↦ elim (Bool-cases (leb d.queue_max (length d.queue))) [
    | inl f ↦ ground (arith, e, f, s.0, s.1, s.2)
    | inr f ↦ ground (arith, e, f, push-Sound d p s)
  ]
]

is_done-inv : (ps : List Payload) (b : Bool) → is_done ps b ≡ true → (ps ≡ []) × (b ≡ true)
unfolding is_done
is_done-inv [] b h = (refl, h)
is_done-inv (p ∷ ps) b h = ground (arith, h)

worker-Sound : (d : Dispatcher) (hooks : List Webhook) → Sound d → Sound (worker_round d hooks)
unfolding worker_round is_done
worker-Sound d hooks s = elim (Bool-cases (not d.started || d.worker_done)) [
  | inl e ↦ ground (arith, e, s.0, s.1, s.2)
  | inr e ↦ elim (Bool-cases (is_done d.queue d.stop_flag)) [
    | inl f ↦ ground (arith, e, f, s.0, s.1, is_done-inv d.queue d.stop_flag f)
    | inr f ↦ ground (arith, e, f, s.0, append_nil (d.taken ++ d.queue))
  ]
]

step-Sound : (d : Dispatcher) (x : Event) → Sound d → Sound (step d x)
unfolding step
step-Sound d Event.starts s = start-Sound d s
step-Sound d Event.stops s = stop-Sound d s
step-Sound d (Event.dispatches p) s = dispatch-Sound d p s
step-Sound d (Event.rounds hooks) s = worker-Sound d hooks s

run_from-Sound : (d : Dispatcher) (xs : List Event) → Sound d → Sound (run d xs)
unfolding run
run_from-Sound d [] s = s
run_from-Sound d (x ∷ xs) s = run_from-Sound (step d x) xs (step-Sound d x s)

-- Whatever is called, in any order: the accepted events are those that the worker took followed by
-- those in the queue, in the order of their dispatch; the queue is never longer than its limit; and a
-- worker that has returned has left no accepted event behind.
pub run-Sound : (n : ℕ) (xs : List Event) → Sound (run (init n) xs)
unfolding init
run-Sound n xs = run_from-Sound (init n) xs (refl, omega arith, λ h. ground (arith, h))

round_done :
    (d : Dispatcher) (hooks : List Webhook) → d.worker_done ≡ true → worker_round d hooks ≡ d
unfolding worker_round
round_done d hooks e = ground (arith, e)

round_end :
    (d : Dispatcher) (hooks : List Webhook)
    → d.started ≡ true
    → d.worker_done ≡ false
    → is_done d.queue d.stop_flag ≡ true
    → worker_round d hooks ≡ record d { worker_done = true }
unfolding worker_round
round_end d hooks on e f = ground (arith, on, e, f)

round_take :
    (d : Dispatcher) (hooks : List Webhook)
    → d.started ≡ true
    → d.worker_done ≡ false
    → is_done d.queue d.stop_flag ≡ false
    → worker_round d hooks ≡ record d {
      queue = [];
      taken = d.taken ++ d.queue;
      posted = d.posted ++ post_all hooks d.queue;
    }
unfolding worker_round
round_take d hooks on e f = ground (arith, on, e, f)

-- The worker has ended and has taken what was accepted.
abbrev Drained : List Payload → Dispatcher → Type 0
Drained accepted d = (d.worker_done ≡ true) × (d.taken ≡ accepted)

two_rounds :
    (d : Dispatcher) (hooks hooks' : List Webhook)
    → Sound d
    → d.started ≡ true
    → d.stop_flag ≡ true
    → Drained d.accepted (worker_round (worker_round d hooks) hooks')
unfolding is_done
two_rounds d hooks hooks' s on st = elim (Bool-cases d.worker_done) [
  | inl e ↦
      subst (λ x. Drained d.accepted (worker_round x hooks')) (sym (round_done d hooks e))
        (subst (Drained d.accepted) (sym (round_done d hooks' e))
          (e, sym (s.0 ∙ ap (λ q. d.taken ++ q) (s.2 e).0 ∙ append_nil d.taken)))
  | inr e ↦ elim (Bool-cases (is_done d.queue d.stop_flag)) [
    | inl f ↦
        subst (λ x. Drained d.accepted (worker_round x hooks')) (sym (round_end d hooks on e f))
          (subst (Drained d.accepted)
            (sym (round_done (record d { worker_done = true }) hooks' refl))
            (
              refl,
              sym (
                  s.0
                  ∙ ap (λ q. d.taken ++ q) (is_done-inv d.queue d.stop_flag f).0
                  ∙ append_nil d.taken),
            ))
    | inr f ↦
        let d' : Dispatcher = record d {
          queue = [];
          taken = d.taken ++ d.queue;
          posted = d.posted ++ post_all hooks d.queue;
        } in
        subst (λ x. Drained d.accepted (worker_round x hooks')) (sym (round_take d hooks on e f))
          (subst (Drained d.accepted) (sym (round_end d' hooks' on e st)) (refl, sym s.0))
  ]
]

-- After a stop of a started dispatcher, two rounds of the worker end it: every event that was
-- accepted has then been taken.
pub stop_drains :
    (n : ℕ) (xs : List Event) (hooks hooks' : List Webhook)
    → (run (init n) xs).started ≡ true
    → let d = worker_round (worker_round (stop (run (init n) xs)) hooks) hooks' in
      (d.worker_done ≡ true) × (d.taken ≡ (run (init n) xs).accepted)
unfolding stop
stop_drains n xs hooks hooks' on =
    two_rounds (stop (run (init n) xs)) hooks hooks' (stop-Sound (run (init n) xs) (run-Sound n xs))
      on refl
