-- ===== src/Http/IdempotencyCache/Retention.antt =====
-- How long a stored response is replayed.
use telegram_rest_gateway.Prelude.{
  ℕ, suc, ◌+◌, ◌≤◌, ◌<◌, ◌≡◌, ◌∙◌, inl, inr, true, false, some, List, [], ◌∷◌, ◌++◌, arith,
  if◌then◌else◌, Option-cases, ◌==◌, nat_eq, Bytes, bytes_beq_iff, bytes_eq, length, length-append,
  All,
}
use telegram_rest_gateway.Prelude.Map.{find, erase, find-erase, find-assign}
use telegram_rest_gateway.Http.IdempotencyCache.Keys.{
  contains-evict, contains, contains-append, contains-remove_first,
}
use telegram_rest_gateway.Http.IdempotencyCache.Invariant.{
  store-IsValid, claim-IsValid, max_entries-step, IsValid, step-IsValid,
}
use telegram_rest_gateway.Http.IdempotencyCache.{
  claimed, replay, Entry, Cache, pending, evict, evict_if_needed, admit, claim, store, remove_first,
  release, Call, claims, stores, releases, step, run,
}

-- How many keys stand behind the first slot of `k`.
abbrev behind : Bytes → List Bytes → ℕ
behind k [] = 0
behind k (x ∷ xs) = if x == k then length xs else behind k xs

record Kept (k : Bytes) (e : Entry) (b : ℕ) (c : Cache) : Type 0 where
  found : find k c.entries ≡ some e
  slot : contains k c.order ≡ true
  place : behind k c.order ≤ b

evict-keeps :
    (n : ℕ) (k : Bytes) (ks : List Bytes) (es : List (Bytes × Entry))
    → contains k ks ≡ true
    → behind k ks + 1 < n
    → (contains k (evict n ks es).0 ≡ true)
      × (behind k (evict n ks es).0 ≡ behind k ks)
      × (find k (evict n ks es).1 ≡ find k es)
unfolding evict
evict-keeps n k [] es h lt = ground arith
evict-keeps n k (x ∷ ks) es h lt =
    ground (arith, evict-keeps n k ks (erase x es), find-erase x k es, bytes_beq_iff x k)

behind-append :
    (k j : Bytes) (xs : List Bytes)
    → contains k xs ≡ true
    → behind k (xs ++ j ∷ []) ≡ behind k xs + 1
behind-append k j [] h = ground arith
behind-append k j (x ∷ xs) h = ground (arith, behind-append k j xs, length-append xs (j ∷ []))

behind-append_new :
    (k : Bytes) (xs : List Bytes) → contains k xs ≡ false → behind k (xs ++ k ∷ []) ≡ 0
behind-append_new k [] h = ground (arith, bytes_beq_iff k k)
behind-append_new k (x ∷ xs) h = ground (arith, behind-append_new k xs)

length-remove_first : (j : Bytes) (xs : List Bytes) → length (remove_first j xs) ≤ length xs
unfolding remove_first
length-remove_first j [] = omega arith
length-remove_first j (x ∷ xs) = ground (arith, length-remove_first j xs)

behind-remove_first :
    (k j : Bytes) (xs : List Bytes) → (j == k) ≡ false → behind k (remove_first j xs) ≤ behind k xs
unfolding remove_first
behind-remove_first k j [] h = omega arith
behind-remove_first k j (x ∷ xs) h = ground (
  arith,
  behind-remove_first k j xs h,
  length-remove_first j xs,
  bytes_beq_iff x j,
  bytes_beq_iff x k,
  bytes_beq_iff j k,
)

abbrev pub key_of : Call → Bytes
key_of (claims key) = key
key_of (stores key status body) = key
key_of (releases key) = key

-- The calls of `claim` in a sequence.
abbrev pub claims_in : List Call → ℕ
claims_in [] = 0
claims_in (claims key ∷ xs) = suc (claims_in xs)
claims_in (stores key status body ∷ xs) = claims_in xs
claims_in (releases key ∷ xs) = claims_in xs

abbrev pub cost : Call → ℕ
cost (claims key) = 1
cost (stores key status body) = 0
cost (releases key) = 0

module _ (k : Bytes) (e : Entry) (b : ℕ) (c : Cache) (v : IsValid c) (kept : Kept k e b c) where
  admit-Kept :
      (j : Bytes)
      → (j == k) ≡ false
      → b + 1 < c.max_entries
      → Kept k e (b + 1) (admit (evict_if_needed c) j)
  unfolding admit evict_if_needed
  admit-Kept j other lt =
      let keeps =
        evict-keeps c.max_entries k c.order c.entries kept.slot (omega (arith, kept.place)) in
      let order = (evict c.max_entries c.order c.entries).0 in
      record {
        found = find-assign j k pending _ ∙ ground (arith, keeps, kept.found);
        slot = ground (arith, keeps, contains-append k order (j ∷ []));
        place = omega (arith, keeps.1, kept.place, behind-append k j order keeps.0);
      }

  step-Kept :
      (x : Call)
      → (key_of x == k) ≡ false
      → b + cost x < c.max_entries
      → Kept k e (b + cost x) (step c x)
  unfolding step claim store release
  step-Kept (claims j) other lt = elim (Option-cases (find j c.entries)) [
    | inl n ↦ rw (n, step, claim) (admit-Kept j other lt)
    | inr (y, s) ↦
        rw (s, step, claim)
          (record { found = kept.found; slot = kept.slot; place = omega (arith, kept.place) })
  ]
  step-Kept (stores j status body) other lt = elim (Option-cases (find j c.entries)) [
    | inl n ↦
        rw (n, step, store)
          (record { found = kept.found; slot = kept.slot; place = omega (arith, kept.place) })
    | inr (y, s) ↦
        rw (s, step, store)
          (record {
            found = find-assign j k _ c.entries ∙ ground (arith, kept.found);
            slot = kept.slot;
            place = omega (arith, kept.place);
          })
  ]
  step-Kept (releases j) other lt = record {
    found = find-erase j k c.entries ∙ ground (arith, kept.found);
    slot = ground (arith, contains-remove_first j k c.order v.distinct, kept.slot);
    place = omega (arith, kept.place, behind-remove_first k j c.order other);
  }

cost-le : (x : Call) (xs : List Call) → cost x + claims_in xs ≡ claims_in (x ∷ xs)
cost-le (claims key) xs = omega arith
cost-le (stores key status body) xs = omega arith
cost-le (releases key) xs = omega arith

run-found :
    (k : Bytes) (e : Entry) (xs : List Call) (b : ℕ) (c : Cache)
    → IsValid c
    → Kept k e b c
    → All (λ x. (key_of x == k) ≡ false) xs
    → b + claims_in xs < c.max_entries
    → find k (run c xs).entries ≡ some e
unfolding run
run-found k e [] b c v kept others lt = kept.found
run-found k e (x ∷ xs) b c v kept others lt =
    run-found k e xs (b + cost x) (step c x) (step-IsValid c x v)
      (step-Kept k e b c v kept x others.0 (omega (arith, cost-le x xs))) others.1
      (omega (arith, cost-le x xs, max_entries-step c x))

Kept-claim :
    (k : Bytes) (c : Cache) → IsValid c → (claim c k).1 ≡ claimed → Kept k pending 0 (claim c k).0
unfolding claim admit evict_if_needed
Kept-claim k c v h = elim (Option-cases (find k c.entries)) [
  | inl n ↦
      let gone = contains-evict c.max_entries k c.order c.entries (ground (arith, v.same k)) in
      rw (n, claim)
        (record {
          found = find-assign k k pending _ ∙ ground (arith, bytes_beq_iff k k);
          slot = ground (
            arith,
            contains-append k (evict c.max_entries c.order c.entries).0 (k ∷ []),
            bytes_beq_iff k k,
          );
          place = omega (arith, behind-append_new k (evict c.max_entries c.order c.entries).0 gone);
        })
  | inr (e, s) ↦ absurd (ground arith)
]

Kept-store :
    (k : Bytes) (e : Entry) (c : Cache) (status : ℕ) (body : Bytes)
    → Kept k e 0 c
    → Kept k (record { done = true; status = status; body = body }) 0 (store c k status body)
unfolding store
Kept-store k e c status body kept =
    rw (kept.found, store)
      (record {
        found = find-assign k k _ c.entries ∙ ground (arith, bytes_beq_iff k k);
        slot = kept.slot;
        place = kept.place;
      })

claim-replay :
    (c : Cache) (k : Bytes) (status : ℕ) (body : Bytes)
    → find k c.entries ≡ some (record { done = true; status = status; body = body })
    → claim c k ≡ (c, replay status body)
unfolding claim
claim-replay c k status body h = rw (h, claim)

-- In a valid cache, once a key was claimed and its response stored, a claim of the key replays that
-- response and changes nothing, after any calls for other keys with fewer than `max_entries` claims
-- among them.
pub claim-replays_stored :
    (c : Cache) (k : Bytes) (status : ℕ) (body : Bytes) (xs : List Call)
    → IsValid c
    → (claim c k).1 ≡ claimed
    → All (λ x. (key_of x == k) ≡ false) xs
    → claims_in xs < c.max_entries
    → let later = run (store (claim c k).0 k status body) xs in
      claim later k ≡ (later, replay status body)
unfolding step
claim-replays_stored c k status body xs v h others lt = claim-replay _ k status body (
    run-found k _ xs 0 _ (store-IsValid _ k status body (claim-IsValid c k v))
      (Kept-store k pending _ status body (Kept-claim k c v h)) others
      (omega (
        arith,
        max_entries-step c (claims k),
        max_entries-step (claim c k).0 (stores k status body),
      )))
