-- ===== src/Bridge/TdBridge/Delivery.antt =====
-- After the shutdown has drained the table, no coroutine waits, and each was resumed exactly once.
use telegram_rest_gateway.Prelude.{
  ℕ, ◌+◌, ◌≤◌, ◌<◌, ◌≡◌, refl, ap, ◌∙◌, inl, inr, Bool, true, false, Option, List, [], ◌∷◌, arith,
  leb, nat_eq, bytes_eq, codes, length, All,
}
use telegram_rest_gateway.Bridge.RequestId.{u64}
use telegram_rest_gateway.Bridge.CorrelationMap.{claim_expired, claim_expired-all}
use telegram_rest_gateway.Bridge.TdBridge.Invariant.{
  receive_round_cases, count_resumes, waiting, Inv, resolve-frame, drain_pending-Inv, run-Inv,
}
use telegram_rest_gateway.Bridge.TdBridge.Cases.{await_suspend_cases, dispatch_cases}
use telegram_rest_gateway.Bridge.TdBridge.{
  TdApi, Phase, rejected, time_max, Config, Bridge, init, resolve_state, resolve, deadline_of,
  resolve_all, resolve_expired, drain_pending, await_suspend, reject, allocate, new_state,
  send_one_way, dispatch, sweep_if_time, sweep_expired, start, stop, Event, invokes, sends,
  receives, drains, starts, stops, step, run,
}

module _ (api : TdApi) where
  open api use {Object, Function}

  -- The clock and the time to live stay in the range of the clock's type.
  abbrev pub Timely : ℕ → Event api → Type 0
  Timely ttl (invokes client fn current app now) = now + ttl ≤ time_max
  Timely ttl (sends client fn) = Unit
  Timely ttl (receives running now id object) = Unit
  Timely ttl (drains running) = Unit
  Timely ttl (starts now) = Unit
  Timely ttl (stops running) = Unit

  record Due (config : Config api) (b : Bridge api) : Type 0 where
    limit : (r : ℕ) → deadline_of api b r ≤ time_max
    same : b.config ≡ config

  module _ (running : ℕ → Bool) where
    deadline-resolve :
        (b : Bridge api) (r : ℕ) (phase : Phase) (result : Object) (x : ℕ)
        → deadline_of api (resolve api running b r phase result) x ≡ deadline_of api b x
    unfolding resolve resolve_state
    deadline-resolve b r phase result x = ground arith

    deadline-resolve_all :
        (b : Bridge api) (rs : List ℕ) (phase : Phase) (result : Object) (x : ℕ)
        → deadline_of api (resolve_all api running b rs phase result) x ≡ deadline_of api b x
    unfolding resolve_all
    deadline-resolve_all b [] phase result x = refl
    deadline-resolve_all b (r ∷ rs) phase result x =
        deadline-resolve_all (resolve api running b r phase result) rs phase result x
        ∙ deadline-resolve b r phase result x

    corr-resolve_all :
        (b : Bridge api) (rs : List ℕ) (phase : Phase) (result : Object)
        → (resolve_all api running b rs phase result).corr ≡ b.corr
    unfolding resolve_all
    corr-resolve_all b [] phase result = refl
    corr-resolve_all b (r ∷ rs) phase result =
        corr-resolve_all (resolve api running b r phase result) rs phase result
        ∙ (resolve-frame api running b r phase result).0

    next_ref-resolve_all :
        (b : Bridge api) (rs : List ℕ) (phase : Phase) (result : Object)
        → (resolve_all api running b rs phase result).next_ref ≡ b.next_ref
    unfolding resolve_all
    next_ref-resolve_all b [] phase result = refl
    next_ref-resolve_all b (r ∷ rs) phase result =
        next_ref-resolve_all (resolve api running b r phase result) rs phase result
        ∙ (resolve-frame api running b r phase result).2

    deadline-resolve_expired :
        (b : Bridge api) (now : ℕ) (phase : Phase) (result : Object) (x : ℕ)
        → deadline_of api (resolve_expired api running b now phase result) x ≡ deadline_of api b x
    unfolding resolve_expired
    deadline-resolve_expired b now phase result x =
        deadline-resolve_all _ (claim_expired (λ r. leb (deadline_of api b r) now) b.corr).0 phase
          result x

    corr-drain_pending :
        (c : Config api) (b : Bridge api) → Due c b → (drain_pending api running b).corr ≡ []
    unfolding drain_pending resolve_expired
    corr-drain_pending c b d =
        corr-resolve_all _ (claim_expired (λ r. leb (deadline_of api b r) time_max) b.corr).0 _ _
        ∙ claim_expired-all (λ r. leb (deadline_of api b r) time_max) b.corr
            (λ x. ground (arith, d.limit x))

    deadline-sweep_if_time :
        (b : Bridge api) (now : ℕ) (x : ℕ)
        → deadline_of api (sweep_if_time api running b now) x ≡ deadline_of api b x
    unfolding sweep_if_time sweep_expired
    deadline-sweep_if_time b now x = ground (
      arith,
      deadline-resolve_expired b now Phase.timed_out (api.error 504 (codes "UPSTREAM_TIMEOUT")) x,
    )

    deadline-dispatch :
        (b : Bridge api) (id : ℕ) (object : Object) (x : ℕ)
        → deadline_of api (dispatch api running b id object) x ≡ deadline_of api b x
    deadline-dispatch b id object x = elim (dispatch_cases api running b id object) [
      | inl (z, e) ↦ rw e
      | inr (inl (nz, n, e)) ↦ rw e
      | inr (inr (nz, r, f, e)) ↦ rw e (deadline-resolve _ r _ object x)
    ]

    config-resolve_all :
        (b : Bridge api) (rs : List ℕ) (phase : Phase) (result : Object)
        → (resolve_all api running b rs phase result).config ≡ b.config
    unfolding resolve_all
    config-resolve_all b [] phase result = refl
    config-resolve_all b (r ∷ rs) phase result =
        config-resolve_all (resolve api running b r phase result) rs phase result
        ∙ (resolve-frame api running b r phase result).3

    config-resolve_expired :
        (b : Bridge api) (now : ℕ) (phase : Phase) (result : Object)
        → (resolve_expired api running b now phase result).config ≡ b.config
    unfolding resolve_expired
    config-resolve_expired b now phase result =
        config-resolve_all _ (claim_expired (λ r. leb (deadline_of api b r) now) b.corr).0 phase
          result

    config-sweep_if_time :
        (b : Bridge api) (now : ℕ) → (sweep_if_time api running b now).config ≡ b.config
    unfolding sweep_if_time sweep_expired
    config-sweep_if_time b now = ground (
      arith,
      config-resolve_expired b now Phase.timed_out (api.error 504 (codes "UPSTREAM_TIMEOUT")),
    )

    config-dispatch :
        (b : Bridge api) (id : ℕ) (object : Object)
        → (dispatch api running b id object).config ≡ b.config
    config-dispatch b id object = elim (dispatch_cases api running b id object) [
      | inl (z, e) ↦ rw e
      | inr (inl (nz, n, e)) ↦ rw e
      | inr (inr (nz, r, f, e)) ↦ rw e (resolve-frame api running _ r _ object).3
    ]

    module _ (c : Config api) (b : Bridge api) (d : Due c b) where
      sweep_if_time-Due : (now : ℕ) → Due c (sweep_if_time api running b now)
      sweep_if_time-Due now = record {
        limit = λ x. omega (arith, deadline-sweep_if_time b now x, d.limit x);
        same = config-sweep_if_time b now ∙ d.same;
      }

      dispatch-Due : (id : ℕ) (object : Object) → Due c (dispatch api running b id object)
      dispatch-Due id object = record {
        limit = λ x. omega (arith, deadline-dispatch b id object x, d.limit x);
        same = config-dispatch b id object ∙ d.same;
      }

      drain_pending-Due : Due c (drain_pending api running b)
      unfolding drain_pending
      drain_pending-Due = record {
        limit = λ x. omega (
          arith,
          deadline-resolve_expired b time_max rejected (api.error 503 (codes "UPSTREAM_SHUTDOWN"))
              x,
          d.limit x,
        );
        same = config-resolve_expired b time_max rejected _ ∙ d.same;
      }

  await_suspend-Due :
      (c : Config api) (b : Bridge api) (client : ℕ) (fn : Function) (current app : Option ℕ)
      (now : ℕ)
      → now + c.ttl ≤ time_max
      → Due c b
      → Due c (await_suspend api b client fn current app now)
  unfolding allocate reject new_state
  await_suspend-Due c b client fn current app now h d =
      let ttl : b.config.ttl ≡ c.ttl = ap (λ (k : Config api). k.ttl) d.same in
      elim (await_suspend_cases api b client fn current app now) [
        | inl (full, e) ↦
            rw e (record { limit = λ x. ground (arith, d.limit x, ttl); same = d.same })
        | inr (room, e) ↦
            rw e (record { limit = λ x. ground (arith, d.limit x, ttl); same = d.same })
      ]

  step-Due :
      (c : Config api) (b : Bridge api) (x : Event api)
      → Timely c.ttl x
      → Due c b
      → Due c (step api b x)
  unfolding step send_one_way start stop
  step-Due c b (invokes client fn current app now) h d =
      await_suspend-Due c b client fn current app now h d
  step-Due c b (sends client fn) h d = record { limit = d.limit; same = d.same }
  step-Due c b (receives running now id object) h d =
      let swept = sweep_if_time-Due running c b d now in
      elim (receive_round_cases api running b now id object) [
        | inl e ↦ rw e d
        | inr (inl e) ↦ rw e swept
        | inr (inr (o, e)) ↦ rw e (dispatch-Due running c _ swept id o)
      ]
  step-Due c b (drains running) h d = drain_pending-Due running c b d
  step-Due c b (starts now) h d = record { limit = d.limit; same = d.same }
  step-Due c b (stops running) h d =
      drain_pending-Due running c (record b { stopping = true })
        (record { limit = d.limit; same = d.same })

  run_from-Due :
      (c : Config api) (b : Bridge api) (xs : List (Event api))
      → All (Timely c.ttl) xs
      → Due c b
      → Due c (run api b xs)
  unfolding run
  run_from-Due c b [] h d = d
  run_from-Due c b (x ∷ xs) h d = run_from-Due c (step api b x) xs h.1 (step-Due c b x h.0 d)

  -- For fewer than 2^64 events in any order, with no deadline past the end of the clock: after a
  -- further drain the table is empty, no coroutine waits, and every coroutine that was started has
  -- been resumed exactly once.
  pub drain_resumes_each :
      (config : Config api) (xs : List (Event api)) (running : ℕ → Bool)
      → length xs < u64
      → All (Timely config.ttl) xs
      → let b = run api (init api config) xs in
        let b' = drain_pending api running b in
        (b'.corr ≡ [])
        × ((r : ℕ) → waiting api b' r ≡ false)
        × ((r : ℕ) → r < b'.next_ref → count_resumes r b'.resumes ≡ 1)
  drain_resumes_each config xs running h timely =
      let b = run api (init api config) xs in
      let d =
        run_from-Due config (init api config) xs timely
          (unfold init in record { limit = λ r. omega arith; same = refl }) in
      let v = drain_pending-Inv api running b (run-Inv api config xs h) in
      let none_left = corr-drain_pending running config b d in
      let idle = λ (r : ℕ). quiet (drain_pending api running b) v none_left r in
      (none_left, idle, λ r lt. ground (arith, v.once r, idle r))
    where
      quiet : (b' : Bridge api) → Inv api [] b' → b'.corr ≡ [] → (r : ℕ) → waiting api b' r ≡ false
      quiet b' v e r = ground (arith, v.tickets r)
