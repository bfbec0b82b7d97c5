-- ===== src/Events/KafkaSink/Delivery.antt =====
-- Every record that was accepted is handed to librdkafka once, in its order.
use telegram_rest_gateway.Prelude.{
  ℕ, zero, suc, ◌≤◌, ◌≡◌, refl, sym, ap, ◌∙◌, subst, inl, inr, Bool, true, false, none, some, List,
  [], ◌∷◌, ◌++◌, arith, leb, if◌then◌else◌, Bool-cases, nat_eq, bytes_eq, length, length-append,
}
use telegram_rest_gateway.Events.KafkaSink.{
  Record, max_queue, Sink, create, produce, hand, hand_over, is_done, worker_round, request_stop,
  join, flush, Event, produces, rounds, step, run,
}

append_assoc : (xs ys zs : List Record) → (xs ++ ys) ++ zs ≡ xs ++ (ys ++ zs)
append_assoc [] ys zs = refl
append_assoc (x ∷ xs) ys zs = ap (◌∷◌ x) (append_assoc xs ys zs)

append_nil : (xs : List Record) → xs ++ [] ≡ xs
append_nil [] = refl
append_nil (x ∷ xs) = ap (◌∷◌ x) (append_nil xs)

-- What was accepted is what was handed over and then what is queued, and the queue is bounded.
pub record Sound (k : Sink) : Type 0 where
  pub in_order : k.accepted ≡ k.handed ++ k.queue
  pub bounded : length k.queue ≤ max_queue

module _ (accepts : ℕ → Record → Bool) where
  -- What handing over a batch leaves as it was, and what it adds.
  hand_over_lem :
      (batch : List Record) (k : Sink)
      → let k' = hand_over accepts batch k in
        (k'.handed ≡ k.handed ++ batch)
        × (k'.queue ≡ k.queue)
        × (k'.accepted ≡ k.accepted)
        × (k'.stop ≡ k.stop)
        × (k'.worker_done ≡ k.worker_done)
  unfolding hand_over hand
  hand_over_lem [] k = (sym (append_nil k.handed), refl, refl, refl, refl)
  hand_over_lem (r ∷ batch) k =
      let (h, q, a, s, w) = hand_over_lem batch (hand accepts k r) in
      (h ∙ append_assoc k.handed (r ∷ []) batch, q, a, s, w)

  produce-Sound : (k : Sink) (r : Record) → Sound k → Sound (produce k r)
  unfolding produce
  produce-Sound k r s = elim (Bool-cases (leb max_queue (length k.queue))) [
    | inl e ↦ rw e (record { in_order = s.in_order; bounded = s.bounded })
    | inr e ↦ rw e (record {
      in_order = ap (λ xs. xs ++ r ∷ []) s.in_order ∙ append_assoc k.handed k.queue (r ∷ []);
      bounded = ground (arith, e, length-append k.queue (r ∷ []));
    })
  ]

  -- The three outcomes of a round.
  round_after_end : (k : Sink) → k.worker_done ≡ true → worker_round accepts k ≡ k
  unfolding worker_round
  round_after_end k e =
      ap
        (λ b.
          if b
          then k
          else if is_done accepts k.queue k.stop
          then record k { worker_done = true }
          else hand_over accepts k.queue (record k { queue = [] }))
        e

  round_at_end :
      (k : Sink)
      → k.worker_done ≡ false
      → is_done accepts k.queue k.stop ≡ true
      → worker_round accepts k ≡ record k { worker_done = true }
  unfolding worker_round
  round_at_end k e d =
      ap
        (λ b.
          if b
          then k
          else if is_done accepts k.queue k.stop
          then record k { worker_done = true }
          else hand_over accepts k.queue (record k { queue = [] }))
        e
      ∙ ap
          (λ b.
            if b
            then record k { worker_done = true }
            else hand_over accepts k.queue (record k { queue = [] }))
          d

  round_with_batch :
      (k : Sink)
      → k.worker_done ≡ false
      → is_done accepts k.queue k.stop ≡ false
      → worker_round accepts k ≡ hand_over accepts k.queue (record k { queue = [] })
  unfolding worker_round
  round_with_batch k e d =
      ap
        (λ b.
          if b
          then k
          else if is_done accepts k.queue k.stop
          then record k { worker_done = true }
          else hand_over accepts k.queue (record k { queue = [] }))
        e
      ∙ ap
          (λ b.
            if b
            then record k { worker_done = true }
            else hand_over accepts k.queue (record k { queue = [] }))
          d

  hand_over-Sound :
      (k : Sink) → Sound k → Sound (hand_over accepts k.queue (record k { queue = [] }))
  hand_over-Sound k s =
      let (h, q, a, stop, w) = hand_over_lem k.queue (record k { queue = [] }) in
      record {
        in_order =
            a
            ∙ (s.in_order
                ∙ (sym h
                    ∙ (sym (append_nil _)
                        ∙ ap
                            (λ xs.
                              (hand_over accepts k.queue (record k { queue = [] })).handed ++ xs)
                            (sym q))));
        bounded = ground (arith, ap length q);
      }

  worker_round-Sound : (k : Sink) → Sound k → Sound (worker_round accepts k)
  worker_round-Sound k s = elim (Bool-cases k.worker_done) [
    | inl e ↦ subst Sound (sym (round_after_end k e)) s
    | inr e ↦ elim (Bool-cases (is_done accepts k.queue k.stop)) [
      | inl d ↦
          subst Sound (sym (round_at_end k e d))
            (record { in_order = s.in_order; bounded = s.bounded })
      | inr d ↦ subst Sound (sym (round_with_batch k e d)) (hand_over-Sound k s)
    ]
  ]

  step-Sound : (k : Sink) (x : Event) → Sound k → Sound (step accepts k x)
  unfolding step
  step-Sound k (produces r) s = produce-Sound k r s
  step-Sound k rounds s = worker_round-Sound k s

  run_from-Sound : (k : Sink) (xs : List Event) → Sound k → Sound (run accepts k xs)
  unfolding run
  run_from-Sound k [] s = s
  run_from-Sound k (x ∷ xs) s = run_from-Sound (step accepts k x) xs (step-Sound k x s)

  -- Whatever the receiver thread and the worker do, in any order: what was accepted is what librdkafka was
  -- given and then what is queued, in the order in which it came, and the queue has at most 20000 records.
  pub run-create-Sound : (xs : List Event) → Sound (run accepts create xs)
  unfolding create
  run-create-Sound xs =
      run_from-Sound create xs (record { in_order = refl; bounded = ground arith })

  join_done : (fuel : ℕ) (k : Sink) → k.worker_done ≡ true → join accepts fuel k ≡ some k
  unfolding join
  join_done zero k e = ap (λ b. if b then some k else none) e
  join_done (suc fuel) k e =
      ap (λ b. if b then some k else join accepts fuel (worker_round accepts k)) e

  join_goes_on :
      (fuel : ℕ) (k : Sink)
      → k.worker_done ≡ false
      → join accepts (suc fuel) k ≡ join accepts fuel (worker_round accepts k)
  unfolding join
  join_goes_on fuel k e =
      ap (λ b. if b then some k else join accepts fuel (worker_round accepts k)) e

  join_empty :
      (fuel : ℕ) (k : Sink)
      → k.worker_done ≡ false
      → k.queue ≡ []
      → k.stop ≡ true
      → join accepts (suc fuel) k ≡ some (record k { worker_done = true })
  unfolding is_done
  join_empty fuel k e q s =
      join_goes_on fuel k e
      ∙ (ap (join accepts fuel) (round_at_end k e (rw (q, s, is_done)))
          ∙ join_done fuel (record k { worker_done = true }) refl)

  -- Where the worker has not returned, and nothing more is produced, two of its rounds are enough for a flush to
  -- join it, and librdkafka has then been given everything that was ever accepted.
  pub flush-delivers :
      (k : Sink)
      → Sound k
      → k.worker_done ≡ false
      → (k' : Sink) × (flush accepts 2 k ≡ some k') × (k'.handed ≡ k.accepted) × (k'.queue ≡ [])
  unfolding flush request_stop
  flush-delivers k s e = go k.queue refl
    where
      stopped : Sink
      stopped = record k { stop = true }

      flushed_from :
          (k₁ : Sink)
          → join accepts 2 stopped ≡ some k₁
          → flush accepts 2 k ≡ some (record k₁ { flushed = true })
      flushed_from k₁ j =
          ap (λ o. elim o [ none ↦ none | some k' ↦ some (record k' { flushed = true }) ]) j

      go :
          (q : List Record)
          → k.queue ≡ q
          → (k' : Sink) × (flush accepts 2 k ≡ some k') × (k'.handed ≡ k.accepted) × (k'.queue ≡ [])
      go [] eq = (
        record stopped { worker_done = true; flushed = true },
        flushed_from (record stopped { worker_done = true }) (join_empty 1 stopped e eq refl),
        sym (s.in_order ∙ (ap (λ q. k.handed ++ q) eq ∙ append_nil k.handed)),
        eq,
      )
      go (r ∷ rs) eq =
          let k₁ = hand_over accepts k.queue (record stopped { queue = [] }) in
          let (h, q, a, st, w) = hand_over_lem k.queue (record stopped { queue = [] }) in
          (
            record k₁ { worker_done = true; flushed = true },
            flushed_from (record k₁ { worker_done = true })
                (join_goes_on 1 stopped e
                  ∙ (ap (join accepts 1) (round_with_batch stopped e (rw (eq, is_done)))
                      ∙ join_empty 0 k₁ (w ∙ e) q st)),
            h ∙ sym s.in_order,
            q,
          )
