-- ===== src/Bridge/TdBridge/Responses.antt =====
-- Which coroutine a response, a time-out or a full table reaches, and with what.
use telegram_rest_gateway.Prelude.{
  ℕ, ◌+◌, ◌≤◌, ◌<◌, ◌≡◌, refl, ◌∙◌, ◌≢◌, inl, inr, Bool, true, false, Option, none, some, List, [],
  ◌∷◌, arith, leb, if◌then◌else◌, Bool-cases, ◌==◌, nat_eq, bytes_eq, codes, length, All,
}
use telegram_rest_gateway.Prelude.Map.{find, erase, emplace, find-erase}
use telegram_rest_gateway.Bridge.RequestId.{u64, next, next-no_wrap}
use telegram_rest_gateway.Bridge.CorrelationMap.{
  Table, claim_expired, count, count_states, find-claim_expired, find-above,
}
use telegram_rest_gateway.Bridge.TdBridge.Invariant.{
  dispatch-Inv, await_suspend-Inv, waiting, Inv, resolve-frame,
}
use telegram_rest_gateway.Bridge.TdBridge.Cases.{dispatch_cases, await_suspend_cases}
use telegram_rest_gateway.Bridge.TdBridge.{
  TdApi, Phase, fulfilled, timed_out, is_pending, RequestState, Bridge, resolve_state, resolve,
  resolve_all, resolve_expired, sweep_expired, deadline_of, dispatch, new_state, allocate, reject,
  await_suspend, await_resume,
}

module _ (api : TdApi) where
  open api use {Object, Function}

  abbrev pub phase_of : Bridge api → ℕ → Option Phase
  phase_of b r = elim (b.heap r) [ none ↦ none | some s ↦ some s.phase ]

  count_states_found : (id : ℕ) (m : Table) (r : ℕ) → find id m ≡ some r → 0 < count_states r m
  unfolding find
  count_states_found id [] r h = ground arith
  count_states_found id ((j, x) ∷ m) r h = ground (arith, count_states_found id m r)

  pub found-waiting :
      (b : Bridge api) (id r : ℕ) → Inv api [] b → find id b.corr ≡ some r → waiting api b r ≡ true
  found-waiting b id r v f = ground (arith, v.tickets r, count_states_found id b.corr r f)

  module _ (running : ℕ → Bool) (phase : Phase) (result : Object) where
    -- The cell of a waiting coroutine after its resolution.
    abbrev settled : Option (RequestState api) → Option (RequestState api)
    settled none = none
    settled (some s) = some (record s { phase = phase; result = some result })

    heap-resolve :
        (b : Bridge api) (r x : ℕ)
        → waiting api b r ≡ true
        → (resolve api running b r phase result).heap x
          ≡ (if r == x then settled (b.heap x) else b.heap x)
    unfolding resolve resolve_state
    heap-resolve b r x w = ground arith

    heap-resolve_done :
        (b : Bridge api) (r x : ℕ)
        → waiting api b x ≡ false
        → (resolve api running b r phase result).heap x ≡ b.heap x
    unfolding resolve resolve_state
    heap-resolve_done b r x w = ground arith

    waiting-resolve_other :
        (b : Bridge api) (r x : ℕ)
        → (r == x) ≡ false
        → (resolve api running b r phase result).heap x ≡ b.heap x
    unfolding resolve resolve_state
    waiting-resolve_other b r x h = ground arith

    heap-resolve_all_done :
        (b : Bridge api) (rs : List ℕ) (x : ℕ)
        → waiting api b x ≡ false
        → (resolve_all api running b rs phase result).heap x ≡ b.heap x
    unfolding resolve_all
    heap-resolve_all_done b [] x w = refl
    heap-resolve_all_done b (r ∷ rs) x w =
        let e = heap-resolve_done b r x w in
        heap-resolve_all_done (resolve api running b r phase result) rs x (ground (arith, e)) ∙ e

    heap-resolve_all :
        (b : Bridge api) (rs : List ℕ) (x : ℕ)
        → is_pending phase ≡ false
        → waiting api b x ≡ true
        → (resolve_all api running b rs phase result).heap x
          ≡ (if count x rs == 0 then b.heap x else settled (b.heap x))
    unfolding resolve_all
    heap-resolve_all b [] x p w = refl
    heap-resolve_all b (r ∷ rs) x p w = elim (Bool-cases (r == x)) [
      | inl own ↦
          let here : r ≡ x = ground arith in
          let e = heap-resolve b r x (ground arith) in
          ground (
            arith,
            e,
            heap-resolve_all_done (resolve api running b r phase result) rs x (ground (arith, e)),
          )
      | inr other ↦
          let e = waiting-resolve_other b r x other in
          ground (
            arith,
            e,
            heap-resolve_all (resolve api running b r phase result) rs x p (ground (arith, e)),
          )
    ]

  -- A response with the id of a request in flight settles that coroutine with its object, takes the
  -- id out of the table and changes no other cell.
  pub dispatch_delivers :
      (running : ℕ → Bool) (b : Bridge api) (id r : ℕ) (object : Object)
      → Inv api [] b
      → find id b.corr ≡ some r
      → id ≢ 0
      → let b' = dispatch api running b id object in
        (await_resume api b' r ≡ some object)
        × (phase_of b' r ≡ some fulfilled)
        × (find id b'.corr ≡ none)
        × ((x : ℕ) → x ≢ r → b'.heap x ≡ b.heap x)
  unfolding await_resume
  dispatch_delivers running b id r object v f nz =
      let w = found-waiting b id r v f in
      elim (dispatch_cases api running b id object) [
        | inl (z, e) ↦ absurd (nz z)
        | inr (inl (n, g, e)) ↦ absurd (ground arith)
        | inr (inr (n, r', g, e)) ↦
            let same : r' ≡ r = ground arith in
            let cleared = record b { corr = erase id b.corr } in
            let own = heap-resolve running fulfilled object cleared r' r (ground arith) in
            let frame = resolve-frame api running cleared r' fulfilled object in
            rw e (
              ground (arith, own),
              ground (arith, own),
              ground (arith, frame.0, find-erase id id b.corr),
              λ x ne. waiting-resolve_other running fulfilled object cleared r' x (ground arith),
            )
      ]

  corr-resolve_all :
      (running : ℕ → Bool) (b : Bridge api) (rs : List ℕ) (phase : Phase) (result : Object)
      → (resolve_all api running b rs phase result).corr ≡ b.corr
  unfolding resolve_all
  corr-resolve_all running b [] phase result = refl
  corr-resolve_all running b (r ∷ rs) phase result =
      corr-resolve_all running (resolve api running b r phase result) rs phase result
      ∙ (resolve-frame api running b r phase result).0

  -- The due states among those of the table are claimed.
  count-expired :
      (due : ℕ → Bool) (m : Table) (r : ℕ)
      → count r (claim_expired due m).0 ≡ (if due r then count_states r m else 0)
  unfolding claim_expired
  count-expired due [] r = ground arith
  count-expired due ((j, x) ∷ m) r = ground (arith, count-expired due m r)

  module _ (running : ℕ → Bool) (b : Bridge api) (now id r : ℕ) (v : Inv api [] b)
      (f : find id b.corr ≡ some r) where
    heap-sweep : (sweep_expired api running b now).heap r ≡ (
        if leb (deadline_of api b r) now
        then settled running timed_out (api.error 504 (codes "UPSTREAM_TIMEOUT")) (b.heap r)
        else b.heap r)
    unfolding sweep_expired resolve_expired
    heap-sweep =
        let due = λ (x : ℕ). leb (deadline_of api b x) now in
        ground (
          arith,
          heap-resolve_all running timed_out (api.error 504 (codes "UPSTREAM_TIMEOUT"))
              (record b { corr = (claim_expired due b.corr).1 }) (claim_expired due b.corr).0 r refl
              (found-waiting b id r v f),
          count-expired due b.corr r,
          count_states_found id b.corr r f,
        )

    find-sweep :
        find id (sweep_expired api running b now).corr
        ≡ (if leb (deadline_of api b r) now then none else some r)
    unfolding sweep_expired resolve_expired
    find-sweep =
        let due = λ (x : ℕ). leb (deadline_of api b x) now in
        ground (
          arith,
          corr-resolve_all running (record b { corr = (claim_expired due b.corr).1 })
              (claim_expired due b.corr).0 timed_out (api.error 504 (codes "UPSTREAM_TIMEOUT")),
          find-claim_expired due id b.corr v.unique,
          f,
        )

  -- A sweep at or after the deadline of a request in flight settles its coroutine with
  -- UPSTREAM_TIMEOUT, and a response that comes after it changes nothing. A sweep before the deadline
  -- leaves the request in flight and its cell as it was.
  pub sweep_settles_due :
      (running : ℕ → Bool) (b : Bridge api) (now id r : ℕ) (late : Object)
      → Inv api [] b
      → find id b.corr ≡ some r
      → id ≢ 0
      → let b' = sweep_expired api running b now in
        (deadline_of api b r ≤ now
          → (await_resume api b' r ≡ some (api.error 504 (codes "UPSTREAM_TIMEOUT")))
            × (phase_of b' r ≡ some timed_out)
            × (dispatch api running b' id late ≡ b'))
        × (now < deadline_of api b r → (find id b'.corr ≡ some r) × (b'.heap r ≡ b.heap r))
  unfolding await_resume
  sweep_settles_due running b now id r late v f nz =
      let b' = sweep_expired api running b now in
      let heap = heap-sweep running b now id r v f in
      let left = find-sweep running b now id r v f in
      (
        λ due. (
          ground (arith, heap, found-waiting b id r v f),
          ground (arith, heap, found-waiting b id r v f),
          elim (dispatch_cases api running b' id late) [
            | inl (z, e) ↦ absurd (nz z)
            | inr (inl (n, g, e)) ↦ e
            | inr (inr (n, r', g, e)) ↦ absurd (ground (arith, left))
          ],
        ),
        λ early. (ground (arith, left), ground (arith, heap)),
      )

  -- With room in the table a coroutine that invokes a function waits, its id is the next number, the
  -- table leads from that id to it, and the function is sent last with that id. With a full table it
  -- goes on at once with SERVICE_BUSY, and nothing is sent or put into the table.
  pub await_suspend_outcome :
      (b : Bridge api) (client : ℕ) (fn : Function) (current app : Option ℕ) (now : ℕ)
      → Inv api [] b
      → b.counter + 1 < u64
      → let b' = await_suspend api b client fn current app now in
        let id = b.counter + 1 in
        (length b.corr < b.config.max_inflight
          → (waiting api b' b.next_ref ≡ true)
            × (find id b'.corr ≡ some b.next_ref)
            × (deadline_of api b' b.next_ref ≡ now + b.config.ttl)
            × (b'.sent ≡ (client, id, fn) ∷ b.sent))
        × (b.config.max_inflight ≤ length b.corr
            → (await_resume api b' b.next_ref ≡ some (api.error 503 (codes "SERVICE_BUSY")))
              × (waiting api b' b.next_ref ≡ false)
              × (b'.corr ≡ b.corr)
              × (b'.sent ≡ b.sent))
  unfolding allocate reject new_state await_resume
  await_suspend_outcome b client fn current app now v small =
      let id = next-no_wrap b.counter small in
      let new : find (next b.counter) b.corr ≡ none =
        find-above b.counter (next b.counter) b.corr v.ids (omega arith) in
      elim (await_suspend_cases api b client fn current app now) [
        | inl (full, e) ↦
            (λ room. absurd (omega arith), λ _. rw e (ground arith, ground arith, refl, refl))
        | inr (room, e) ↦ (
          λ _. rw e (
            ground arith,
            unfold emplace find in ground (arith, new),
            ground arith,
            ground arith,
          ),
          λ full. absurd (omega arith),
        )
      ]

  -- The receiver thread dispatches a sequence of responses.
  abbrev pub dispatch_each : (ℕ → Bool) → Bridge api → List (ℕ × Object) → Bridge api
  dispatch_each running b [] = b
  dispatch_each running b ((id, object) ∷ xs) =
      dispatch_each running (dispatch api running b id object) xs

  dispatch_other :
      (running : ℕ → Bool) (b : Bridge api) (id r id' : ℕ) (object : Object)
      → find id b.corr ≡ some r
      → id' ≢ id
      → find id (dispatch api running b id' object).corr ≡ some r
  dispatch_other running b id r id' object f ne = elim (dispatch_cases api running b id' object) [
    | inl (z, e) ↦ rw e f
    | inr (inl (n, g, e)) ↦ rw e f
    | inr (inr (n, r', g, e)) ↦ rw e (
        ground (
          arith,
          (resolve-frame api running (record b { corr = erase id' b.corr }) r' fulfilled object).0,
          find-erase id' id b.corr,
          f,
        ))
  ]

  deliver_after :
      (running : ℕ → Bool) (b : Bridge api) (id r : ℕ) (object : Object)
      (others : List (ℕ × Object))
      → Inv api [] b
      → find id b.corr ≡ some r
      → id ≢ 0
      → All (λ x. x.0 ≢ id) others
      → await_resume api (dispatch api running (dispatch_each running b others) id object) r
        ≡ some object
  deliver_after running b id r object [] v f nz h =
      (dispatch_delivers running b id r object v f nz).0
  deliver_after running b id r object ((id', o) ∷ xs) v f nz h =
      deliver_after running (dispatch api running b id' o) id r object xs
        (dispatch-Inv api running b id' o v) (dispatch_other running b id r id' o f h.0) nz h.1

  -- With room in the table, a function that is invoked is sent once, with the next number as its id, and
  -- the response with that id comes to the coroutine that invoked it, after any responses with other ids
  -- and any updates.
  pub invoke-response :
      (running : ℕ → Bool) (b : Bridge api) (client : ℕ) (fn : Function) (current app : Option ℕ)
      (now : ℕ) (object : Object) (others : List (ℕ × Object))
      → Inv api [] b
      → b.counter + 1 < u64
      → length b.corr < b.config.max_inflight
      → All (λ x. x.0 ≢ b.counter + 1) others
      → let suspended = await_suspend api b client fn current app now in
        let b' = dispatch_each running suspended others in
        (suspended.sent ≡ (client, b.counter + 1, fn) ∷ b.sent)
        × (await_resume api (dispatch api running b' (b.counter + 1) object) b.next_ref
            ≡ some object)
  invoke-response running b client fn current app now object others v small room h =
      let (waits, found, due, sent) =
        (await_suspend_outcome b client fn current app now v small).0 room in
      (
        sent,
        deliver_after running _ (b.counter + 1) b.next_ref object others
            (await_suspend-Inv api b client fn current app now small v) found (omega arith) h,
      )
