-- ===== src/Bridge/TdBridge/Invariant.antt =====
-- Every coroutine that was started has one ticket: in the table, with the thread that claimed it, or
-- among the resumptions.
use telegram_rest_gateway.Prelude.{
  ℕ, ◌+◌, ◌-◌, ◌≤◌, ◌<◌, ◌≡◌, refl, ◌∙◌, ◌⊎◌, inl, inr, Bool, true, false, Option, none, some, List,
  [], ◌∷◌, arith, ltb, leb, if◌then◌else◌, Bool-cases, ◌==◌, nat_eq, bytes_eq, length,
}
use telegram_rest_gateway.Prelude.Map.{
  erase, emplace, emplace-UniqueKeys, UniqueKeys, length-erase-le, erase-UniqueKeys,
}
use telegram_rest_gateway.Bridge.RequestId.{u64, next, next-no_wrap}
use telegram_rest_gateway.Bridge.CorrelationMap.{
  claim_expired, one_if, count, count_states, IdsUpTo, find-above, IdsUpTo-mono, erase-IdsUpTo,
  count_states-erase, count-claim_expired, length-claim_expired-le, claim_expired-IdsUpTo,
  claim_expired-UniqueKeys,
}
use telegram_rest_gateway.Bridge.TdBridge.Cases.{dispatch_cases, await_suspend_cases}
use telegram_rest_gateway.Bridge.TdBridge.{
  TdApi, Phase, fulfilled, timed_out, rejected, is_pending, Resume, at_once, queued, direct,
  time_max, Config, Bridge, init, resolve_state, resolve, new_state, allocate, reject,
  await_suspend, send_one_way, dispatch, deadline_of, resolve_all, resolve_expired, sweep_expired,
  drain_pending, sweep_if_time, receive_round, start, stop, Event, invokes, sends, receives, drains,
  starts, stops, step, run,
}

abbrev pub ref_of : Resume → ℕ
ref_of (at_once r) = r
ref_of (queued l r) = r
ref_of (direct r) = r

abbrev pub count_resumes : ℕ → List Resume → ℕ
count_resumes r [] = 0
count_resumes r (x ∷ xs) = one_if (ref_of x == r) + count_resumes r xs

module _ (api : TdApi) where
  open api use {Object, Function}

  abbrev pub waiting : Bridge api → ℕ → Bool
  waiting b r = elim (b.heap r) [ none ↦ false | some s ↦ is_pending s.phase ]

  -- `own` are the states that the running method has claimed and not yet resolved.
  pub record Inv (own : List ℕ) (b : Bridge api) : Type 0 where
    pub unique : UniqueKeys b.corr
    pub ids : IdsUpTo b.counter b.corr
    pub bounded : length b.corr ≤ b.config.max_inflight
    pub tickets : (r : ℕ) → count r own + count_states r b.corr ≡ one_if (waiting b r)
    pub once :
        (r : ℕ) → one_if (waiting b r) + count_resumes r b.resumes ≡ one_if (ltb r b.next_ref)

  pub init-Inv : (config : Config api) → Inv [] (init api config)
  unfolding init
  init-Inv config = record {
    unique = tt;
    ids = tt;
    bounded = omega arith;
    tickets = λ r. refl;
    once = λ r. ground arith;
  }

  module _ (running : ℕ → Bool) (b : Bridge api) (r : ℕ) (phase : Phase) (result : Object) where
    waiting-resolve :
        (x : ℕ)
        → is_pending phase ≡ false
        → waiting b r ≡ true
        → waiting (resolve api running b r phase result) x ≡ (if r == x then false else waiting b x)
    unfolding resolve resolve_state
    waiting-resolve x p w = ground arith

    count_resumes-resolve :
        (x : ℕ)
        → waiting b r ≡ true
        → count_resumes x (resolve api running b r phase result).resumes
          ≡ one_if (r == x) + count_resumes x b.resumes
    unfolding resolve resolve_state
    count_resumes-resolve x w = ground arith

    pub resolve-frame :
        let b' = resolve api running b r phase result in
        (b'.corr ≡ b.corr)
        × (b'.counter ≡ b.counter)
        × (b'.next_ref ≡ b.next_ref)
        × (b'.config ≡ b.config)
        × (b'.stopping ≡ b.stopping)
    unfolding resolve resolve_state
    resolve-frame = ground arith

    pub resolve-Inv :
        (own : List ℕ)
        → is_pending phase ≡ false
        → Inv (r ∷ own) b
        → Inv own (resolve api running b r phase result)
    resolve-Inv own p v =
        let w : waiting b r ≡ true = ground (arith, v.tickets r) in
        let same = resolve-frame in
        record {
          unique = rw same.0 v.unique;
          ids = rw (same.0, same.1) v.ids;
          bounded = rw (same.0, same.3) v.bounded;
          tickets = λ x. rw same.0 (ground (arith, v.tickets x, waiting-resolve x p w));
          once = λ x.
              rw same.2
                (ground (arith, v.once x, waiting-resolve x p w, count_resumes-resolve x w));
        }

  resolve_all-Inv :
      (running : ℕ → Bool) (b : Bridge api) (rs : List ℕ) (phase : Phase) (result : Object)
      → is_pending phase ≡ false
      → Inv rs b
      → Inv [] (resolve_all api running b rs phase result)
  unfolding resolve_all
  resolve_all-Inv running b [] phase result p v = v
  resolve_all-Inv running b (r ∷ rs) phase result p v =
      resolve_all-Inv running (resolve api running b r phase result) rs phase result p
        (resolve-Inv running b r phase result rs p v)

  resolve_expired-Inv :
      (running : ℕ → Bool) (b : Bridge api) (now : ℕ) (phase : Phase) (result : Object)
      → is_pending phase ≡ false
      → Inv [] b
      → Inv [] (resolve_expired api running b now phase result)
  unfolding resolve_expired
  resolve_expired-Inv running b now phase result p v =
      let due = λ (r : ℕ). leb (deadline_of api b r) now in
      resolve_all-Inv running (record b { corr = (claim_expired due b.corr).1 })
        (claim_expired due b.corr).0 phase result p
        (record {
          unique = claim_expired-UniqueKeys due b.corr v.unique;
          ids = claim_expired-IdsUpTo due b.counter b.corr v.ids;
          bounded = omega (arith, length-claim_expired-le due b.corr, v.bounded);
          tickets = λ x. omega (arith, v.tickets x, count-claim_expired x due b.corr);
          once = λ x. v.once x;
        })

  module _ (running : ℕ → Bool) (b : Bridge api) where
    sweep_expired-Inv : (now : ℕ) → Inv [] b → Inv [] (sweep_expired api running b now)
    unfolding sweep_expired
    sweep_expired-Inv now v = resolve_expired-Inv running b now timed_out _ refl v

    pub drain_pending-Inv : Inv [] b → Inv [] (drain_pending api running b)
    unfolding drain_pending
    drain_pending-Inv v = resolve_expired-Inv running b time_max rejected _ refl v

    pub dispatch-Inv :
        (id : ℕ) (object : Object) → Inv [] b → Inv [] (dispatch api running b id object)
    dispatch-Inv id object v = elim (dispatch_cases api running b id object) [
      | inl (z, e) ↦ rw e (record {
        unique = v.unique;
        ids = v.ids;
        bounded = v.bounded;
        tickets = v.tickets;
        once = v.once;
      })
      | inr (inl (nz, n, e)) ↦ rw e v
      | inr (inr (nz, r, f, e)) ↦ rw e (
          resolve-Inv running (record b { corr = erase id b.corr }) r fulfilled object [] refl
            (record {
              unique = erase-UniqueKeys id b.corr v.unique;
              ids = erase-IdsUpTo b.counter id b.corr v.ids;
              bounded = omega (arith, length-erase-le id b.corr, v.bounded);
              tickets =
                  λ x. omega (arith, v.tickets x, count_states-erase x id b.corr r v.unique f);
              once = λ x. v.once x;
            }))
    ]

  -- The cell of the coroutine that starts is fresh.
  fresh : (b : Bridge api) → Inv [] b → waiting b b.next_ref ≡ false
  fresh b v = ground (arith, v.once b.next_ref)

  pub await_suspend-Inv :
      (b : Bridge api) (client : ℕ) (fn : Function) (current app : Option ℕ) (now : ℕ)
      → b.counter + 1 < u64
      → Inv [] b
      → Inv [] (await_suspend api b client fn current app now)
  unfolding allocate reject new_state emplace
  await_suspend-Inv b client fn current app now small v =
      let id = next-no_wrap b.counter small in
      let new = find-above b.counter (next b.counter) b.corr v.ids (omega arith) in
      elim (await_suspend_cases api b client fn current app now) [
        | inl (full, e) ↦ rw e (record {
          unique = v.unique;
          ids = IdsUpTo-mono b.counter (next b.counter) b.corr (omega arith) v.ids;
          bounded = v.bounded;
          tickets = λ x. ground (arith, v.tickets x, fresh b v);
          once = λ x. ground (arith, v.once x, fresh b v);
        })
        | inr (room, e) ↦ rw e (record {
          unique = emplace-UniqueKeys (next b.counter) b.next_ref b.corr v.unique;
          ids = ground (arith, IdsUpTo-mono b.counter (next b.counter) b.corr (omega arith) v.ids);
          bounded = ground arith;
          tickets = λ x. ground (arith, v.tickets x, fresh b v);
          once = λ x. ground (arith, v.once x, fresh b v);
        })
      ]

  module _ (running : ℕ → Bool) where
    counter-resolve_all :
        (b : Bridge api) (rs : List ℕ) (phase : Phase) (result : Object)
        → (resolve_all api running b rs phase result).counter ≡ b.counter
    unfolding resolve_all
    counter-resolve_all b [] phase result = refl
    counter-resolve_all b (r ∷ rs) phase result =
        counter-resolve_all (resolve api running b r phase result) rs phase result
        ∙ (resolve-frame running b r phase result).1

    counter-sweep_if_time :
        (b : Bridge api) (now : ℕ) → (sweep_if_time api running b now).counter ≡ b.counter
    unfolding sweep_if_time sweep_expired resolve_expired
    counter-sweep_if_time b now =
        elim (Bool-cases (leb b.config.sweep_interval (now - b.last_sweep))) [
          | inl t ↦
              rw (t, sweep_if_time)
                (counter-resolve_all _ (claim_expired (λ r. leb (deadline_of api b r) now) b.corr).0
                  _ _)
          | inr t ↦ rw (t, sweep_if_time)
        ]

    counter-dispatch :
        (b : Bridge api) (id : ℕ) (object : Object)
        → (dispatch api running b id object).counter ≡ b.counter
    counter-dispatch b id object = elim (dispatch_cases api running b id object) [
      | inl (z, e) ↦ rw e
      | inr (inl (nz, n, e)) ↦ rw e
      | inr (inr (nz, r, f, e)) ↦
          rw e (resolve-frame running (record b { corr = erase id b.corr }) r fulfilled object).1
    ]

    counter-receive_round :
        (b : Bridge api) (now id : ℕ) (object : Option Object)
        → (receive_round api running b now id object).counter ≡ b.counter
    unfolding receive_round
    counter-receive_round b now id none = ground (arith, counter-sweep_if_time b now)
    counter-receive_round b now id (some o) = ground (
      arith,
      counter-sweep_if_time b now,
      counter-dispatch (sweep_if_time api running b now) id o,
    )

    sweep_if_time-Inv :
        (b : Bridge api) (now : ℕ) → Inv [] b → Inv [] (sweep_if_time api running b now)
    unfolding sweep_if_time
    sweep_if_time-Inv b now v =
        elim (Bool-cases (leb b.config.sweep_interval (now - b.last_sweep))) [
          | inl t ↦
              let w = sweep_expired-Inv running b now v in
              rw (t, sweep_if_time)
                (record {
                  unique = w.unique;
                  ids = w.ids;
                  bounded = w.bounded;
                  tickets = w.tickets;
                  once = w.once;
                })
          | inr t ↦ rw (t, sweep_if_time) v
        ]

    pub receive_round_cases :
        (b : Bridge api) (now id : ℕ) (object : Option Object)
        → (receive_round api running b now id object ≡ b)
          ⊎ (receive_round api running b now id object ≡ sweep_if_time api running b now)
          ⊎ ((o : Object) × (receive_round api running b now id object
                ≡ dispatch api running (sweep_if_time api running b now) id o))
    unfolding receive_round
    receive_round_cases b now id none = ground arith
    receive_round_cases b now id (some o) = elim (Bool-cases b.stopping) [
      | inl t ↦ inl (ground arith)
      | inr t ↦ inr (inr (o, ground arith))
    ]

    receive_round-Inv :
        (b : Bridge api) (now id : ℕ) (object : Option Object)
        → Inv [] b
        → Inv [] (receive_round api running b now id object)
    receive_round-Inv b now id object v = elim (receive_round_cases b now id object) [
      | inl e ↦ rw e v
      | inr (inl e) ↦ rw e (sweep_if_time-Inv b now v)
      | inr (inr (o, e)) ↦
          rw e (
            dispatch-Inv running (sweep_if_time api running b now) id o (sweep_if_time-Inv b now v))
    ]

  stop-Inv : (running : ℕ → Bool) (b : Bridge api) → Inv [] b → Inv [] (stop api running b)
  unfolding stop
  stop-Inv running b v =
      drain_pending-Inv running (record b { stopping = true })
        (record {
          unique = v.unique;
          ids = v.ids;
          bounded = v.bounded;
          tickets = v.tickets;
          once = v.once;
        })

  pub step-Inv :
      (b : Bridge api) (x : Event api) → b.counter + 1 < u64 → Inv [] b → Inv [] (step api b x)
  unfolding step send_one_way start
  step-Inv b (invokes client fn current app now) h v =
      await_suspend-Inv b client fn current app now h v
  step-Inv b (sends client fn) h v = record {
    unique = v.unique;
    ids =
        IdsUpTo-mono b.counter (next b.counter) b.corr (omega (arith, next-no_wrap b.counter h))
          v.ids;
    bounded = v.bounded;
    tickets = v.tickets;
    once = v.once;
  }
  step-Inv b (receives running now id object) h v = receive_round-Inv running b now id object v
  step-Inv b (drains running) h v = drain_pending-Inv running b v
  step-Inv b (starts now) h v = record {
    unique = v.unique;
    ids = v.ids;
    bounded = v.bounded;
    tickets = v.tickets;
    once = v.once;
  }
  step-Inv b (stops running) h v = stop-Inv running b v

  counter-step :
      (b : Bridge api) (x : Event api)
      → b.counter + 1 < u64
      → (step api b x).counter ≤ b.counter + 1
  unfolding step send_one_way start stop drain_pending resolve_expired allocate reject new_state
  counter-step b (invokes client fn current app now) h =
      elim (await_suspend_cases api b client fn current app now) [
        | inl (full, e) ↦ rw e (omega (arith, next-no_wrap b.counter h))
        | inr (room, e) ↦ rw e (omega (arith, next-no_wrap b.counter h))
      ]
  counter-step b (sends client fn) h = omega (arith, next-no_wrap b.counter h)
  counter-step b (receives running now id object) h =
      omega (arith, counter-receive_round running b now id object)
  counter-step b (drains running) h = omega (
    arith,
    counter-resolve_all running _ (claim_expired (λ r. leb (deadline_of api b r) time_max) b.corr).0
        _ _,
  )
  counter-step b (starts now) h = omega arith
  counter-step b (stops running) h = omega (
    arith,
    counter-resolve_all running _ (claim_expired (λ r. leb (deadline_of api b r) time_max) b.corr).0
        _ _,
  )

  run_from-Inv :
      (b : Bridge api) (xs : List (Event api))
      → b.counter + length xs < u64
      → Inv [] b
      → Inv [] (run api b xs)
  unfolding run
  run_from-Inv b [] h v = v
  run_from-Inv b (x ∷ xs) h v =
      run_from-Inv (step api b x) xs (omega (arith, counter-step b x (omega arith)))
        (step-Inv b x (omega arith) v)

  -- For fewer than 2^64 events in any order, from the start of the bridge: the ids in the table are
  -- distinct and at most the counter, at most `max_inflight` requests are in flight, a coroutine waits
  -- exactly if the table holds its state once, and each started coroutine either waits or was resumed
  -- exactly once.
  pub run-Inv :
      (config : Config api) (xs : List (Event api))
      → length xs < u64
      → Inv [] (run api (init api config) xs)
  unfolding init
  run-Inv config xs h = run_from-Inv (init api config) xs (omega arith) (init-Inv config)
