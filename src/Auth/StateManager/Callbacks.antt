-- ===== src/Auth/StateManager/Callbacks.antt =====
-- Which callbacks are called, and how often.
use telegram_rest_gateway.Prelude.{
  ℕ, ◌+◌, ◌%◌, ◌≤◌, ◌<◌, ◌≡◌, refl, ◌∙◌, Bool, true, false, ◌&&◌, ◌||◌, not, Option, none, some,
  List, [], ◌∷◌, map, arith, if◌then◌else◌, nat_eq, bytes_eq, any,
}
use telegram_rest_gateway.Auth.AuthState.{
  TdAuthState, AuthState, auth_state_from_td, is_terminal, is_ready,
}
use telegram_rest_gateway.Auth.StateManager.{
  Callback, unexpected_termination, on_ready, Manager, init, counter_mod, report, set_state,
  take_payload, Update, authorization_state, other_update, on_update, Event, updates, expects,
  cancels, sets_termination, sets_ready, step, run,
}

abbrev pub one_if : Bool → ℕ
one_if true = 1
one_if false = 0

abbrev pub is_termination : Callback → Bool
is_termination unexpected_termination = true
is_termination on_ready = false

abbrev pub terminations : List Callback → ℕ
terminations [] = 0
terminations (c ∷ cs) = one_if (is_termination c) + terminations cs

abbrev pub readies : List Callback → ℕ
readies [] = 0
readies (c ∷ cs) = one_if (not (is_termination c)) + readies cs

-- A callback was called only after its flag was set, and then once at most.
record Once (m : Manager) : Type 0 where
  termination : terminations m.called ≤ one_if m.termination_reported
  ready : readies m.called ≤ one_if m.ready_reported

take_payload-Once : (m : Manager) (td : TdAuthState) → Once m → Once (take_payload m td)
unfolding take_payload
take_payload-Once m (TdAuthState.wait_other_device_confirmation link) v = record {
  termination = v.termination;
  ready = v.ready;
}
take_payload-Once m (TdAuthState.wait_code info) v = record {
  termination = v.termination;
  ready = v.ready;
}
take_payload-Once m _ v = v

set_state-Once : (m : Manager) (s : AuthState) → Once m → Once (set_state m s)
unfolding set_state report
set_state-Once m s v = record {
  termination = ground (arith, v.termination);
  ready = ground (arith, v.ready);
}

step-Once : (m : Manager) (x : Event) → Once m → Once (step m x)
unfolding step on_update
step-Once m (updates none) v = v
step-Once m (updates (some (authorization_state none))) v = v
step-Once m (updates (some (authorization_state (some td)))) v =
    set_state-Once (take_payload m td) (auth_state_from_td td) (take_payload-Once m td v)
step-Once m (updates (some other_update)) v = record {
  termination = v.termination;
  ready = v.ready;
}
step-Once m _ v = record { termination = v.termination; ready = v.ready }

run-Once : (m : Manager) (xs : List Event) → Once m → Once (run m xs)
unfolding run
run-Once m [] v = v
run-Once m (x ∷ xs) v = run-Once (step m x) xs (step-Once m x v)

-- Whatever happens, in any order, each of the two callbacks is called at most once.
pub run_calls_once :
    (xs : List Event) → (terminations (run init xs).called ≤ 1) × (readies (run init xs).called ≤ 1)
unfolding init
run_calls_once xs =
    let v = run-Once init xs (record { termination = omega arith; ready = omega arith }) in
    (bounded _ _ v.termination, bounded _ _ v.ready)
  where
    bounded : (n : ℕ) (b : Bool) → n ≤ one_if b → n ≤ 1
    bounded n b h = ground (arith, h)

-- The state that an update reports.
abbrev pub reported_state : Option Update → Option AuthState
reported_state none = none
reported_state (some other_update) = none
reported_state (some (authorization_state none)) = none
reported_state (some (authorization_state (some td))) = some (auth_state_from_td td)

abbrev pub reports : (AuthState → Bool) → Option Update → Bool
reports p u = elim (reported_state u) [ none ↦ false | some s ↦ p s ]

abbrev pub is_some : Option AuthState → Bool
is_some none = false
is_some (some s) = true

-- How many updates report a state, and the last state.
abbrev pub states_in : List (Option Update) → ℕ
states_in [] = 0
states_in (u ∷ us) = one_if (is_some (reported_state u)) + states_in us

abbrev pub last_state : AuthState → List (Option Update) → AuthState
last_state s [] = s
last_state s (u ∷ us) = last_state (elim (reported_state u) [ none ↦ s | some t ↦ t ]) us

-- How the manager changes under updates alone, with both callbacks set.
record Summary (m : Manager) (us : List (Option Update)) (m' : Manager) : Type 0 where
  state : m'.state ≡ last_state m.state us
  generation : m'.generation ≡ (m.generation + states_in us) % counter_mod
  terminated :
      m'.termination_reported
      ≡ (m.termination_reported || (not m.expect_shutdown && any (reports is_terminal) us))
  readied : m'.ready_reported ≡ (m.ready_reported || any (reports is_ready) us)
  termination :
      terminations m'.called
      ≡ terminations m.called
        + one_if
            (not m.termination_reported && (not m.expect_shutdown && any (reports is_terminal) us))
  ready :
      readies m'.called
      ≡ readies m.called + one_if (not m.ready_reported && any (reports is_ready) us)
  expect : m'.expect_shutdown ≡ m.expect_shutdown
  has_termination : m'.has_termination ≡ true
  has_ready : m'.has_ready ≡ true

set_state-Summary :
    (m : Manager) (td : TdAuthState)
    → m.has_termination ≡ true
    → m.has_ready ≡ true
    → Summary m (some (authorization_state (some td)) ∷ []) (set_state m (auth_state_from_td td))
unfolding set_state report
set_state-Summary m td t r =
    let s = auth_state_from_td td in
    record {
      state = refl;
      generation = omega arith;
      terminated = ground arith;
      readied = ground arith;
      termination = ground (arith, t);
      ready = ground (arith, t, r);
      expect = refl;
      has_termination = t;
      has_ready = r;
    }

update-Summary :
    (m : Manager) (u : Option Update)
    → m.generation < counter_mod
    → m.has_termination ≡ true
    → m.has_ready ≡ true
    → Summary m (u ∷ []) (on_update m u)
unfolding on_update take_payload
update-Summary m none h t r = record {
  state = refl;
  generation = omega arith;
  terminated = ground arith;
  readied = ground arith;
  termination = ground arith;
  ready = ground arith;
  expect = refl;
  has_termination = t;
  has_ready = r;
}
update-Summary m (some other_update) h t r = record {
  state = refl;
  generation = omega arith;
  terminated = ground arith;
  readied = ground arith;
  termination = ground arith;
  ready = ground arith;
  expect = refl;
  has_termination = t;
  has_ready = r;
}
update-Summary m (some (authorization_state none)) h t r = record {
  state = refl;
  generation = omega arith;
  terminated = ground arith;
  readied = ground arith;
  termination = ground arith;
  ready = ground arith;
  expect = refl;
  has_termination = t;
  has_ready = r;
}
update-Summary m (some (authorization_state (some td))) h t r =
    moved m td (set_state-Summary (take_payload m td) td (kept_t td) (kept_r td))
  where
    kept_t : (x : TdAuthState) → (take_payload m x).has_termination ≡ true
    kept_t (TdAuthState.wait_code info) = t
    kept_t _ = t

    kept_r : (x : TdAuthState) → (take_payload m x).has_ready ≡ true
    kept_r (TdAuthState.wait_code info) = r
    kept_r _ = r

    moved :
        (m : Manager) (x : TdAuthState)
        → Summary
            (take_payload m x)
            (some (authorization_state (some td)) ∷ [])
            (set_state (take_payload m x) (auth_state_from_td td))
        → Summary m
            (some (authorization_state (some td)) ∷ [])
            (set_state (take_payload m x) (auth_state_from_td td))
    moved m (TdAuthState.wait_code info) v = record {
      state = v.state;
      generation = v.generation;
      terminated = v.terminated;
      readied = v.readied;
      termination = v.termination;
      ready = v.ready;
      expect = v.expect;
      has_termination = v.has_termination;
      has_ready = v.has_ready;
    }
    moved m _ v = record {
      state = v.state;
      generation = v.generation;
      terminated = v.terminated;
      readied = v.readied;
      termination = v.termination;
      ready = v.ready;
      expect = v.expect;
      has_termination = v.has_termination;
      has_ready = v.has_ready;
    }

Summary-trans :
    (a b c : Manager) (u : Option Update) (us : List (Option Update))
    → Summary a (u ∷ []) b
    → Summary b us c
    → Summary a (u ∷ us) c
Summary-trans a b c u us v w = record {
  state = ground (arith, w.state, v.state);
  generation = omega (arith, w.generation, v.generation);
  terminated = ground (arith, w.terminated, v.terminated, v.expect);
  readied = ground (arith, w.readied, v.readied);
  termination = ground (arith, w.termination, v.termination, v.terminated, v.expect);
  ready = ground (arith, w.ready, v.ready, v.readied);
  expect = w.expect ∙ v.expect;
  has_termination = w.has_termination;
  has_ready = w.has_ready;
}

run-Summary :
    (m : Manager) (us : List (Option Update))
    → m.generation < counter_mod
    → m.has_termination ≡ true
    → m.has_ready ≡ true
    → Summary m us (run m (map updates us))
unfolding run step
run-Summary m [] h t r = record {
  state = refl;
  generation = omega arith;
  terminated = ground arith;
  readied = ground arith;
  termination = ground arith;
  ready = ground arith;
  expect = refl;
  has_termination = t;
  has_ready = r;
}
run-Summary m (u ∷ us) h t r =
    let v = update-Summary m u h t r in
    Summary-trans m (on_update m u) _ u us v
      (run-Summary (on_update m u) us (omega (arith, v.generation)) v.has_termination v.has_ready)

abbrev pub prepared : Bool → Manager
prepared expected =
    run init
      (sets_termination true ∷ sets_ready true ∷ (if expected then expects else cancels) ∷ [])

-- With both callbacks set at the start, and the shutdown expected from then on or not: after any
-- updates, fewer than 2^64, the state is the last one reported, the generation counts the reports, the
-- ready callback was called once if Ready was reported and else never, and the termination callback
-- once if a terminal state was reported and the shutdown is not expected, and else never.
pub run_updates_lem :
    (expected : Bool) (us : List (Option Update))
    → states_in us < counter_mod
    → let m = run (prepared expected) (map updates us) in
      (m.state ≡ last_state AuthState.unknown us)
      × (m.generation ≡ states_in us)
      × (readies m.called ≡ one_if (any (reports is_ready) us))
      × (terminations m.called ≡ one_if (not expected && any (reports is_terminal) us))
unfolding init run step
run_updates_lem true us h =
    let v = run-Summary (prepared true) us (omega arith) refl refl in
    (v.state, omega (arith, v.generation), ground (arith, v.ready), ground (arith, v.termination))
run_updates_lem false us h =
    let v = run-Summary (prepared false) us (omega arith) refl refl in
    (v.state, omega (arith, v.generation), ground (arith, v.ready), ground (arith, v.termination))
