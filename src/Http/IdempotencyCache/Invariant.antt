-- ===== src/Http/IdempotencyCache/Invariant.antt =====
-- The invariant that the header of idempotency_cache.hpp states, and what `claim` answers.
use telegram_rest_gateway.Prelude.{
  ℕ, ◌≤◌, ◌<◌, ◌≡◌, refl, ◌∙◌, inl, inr, true, false, none, List, [], ◌∷◌, arith, Option-cases,
  nat_eq, Bytes, bytes_beq_iff, bytes_eq, length, length-append,
}
use telegram_rest_gateway.Prelude.Map.{find, UniqueKeys, find-erase, find-assign, erase-UniqueKeys}
use telegram_rest_gateway.Http.IdempotencyCache.Keys.{
  contains, Distinct, SameKeys, contains-append, Distinct-append_one, contains-remove_first,
  remove_first-Distinct, length-remove_first-le, assign-UniqueKeys, evict-Distinct,
  evict-UniqueKeys, evict-SameKeys, length-evict, contains-evict,
}
use telegram_rest_gateway.Http.IdempotencyCache.{
  Cache, pending, empty, evict_if_needed, admit, claim, store, release, Call, claims, stores,
  releases, step, run,
}

pub record IsValid (c : Cache) : Type 0 where
  pub distinct : Distinct c.order
  pub unique : UniqueKeys c.entries
  pub same : SameKeys c.order c.entries
  pub bounded : length c.order ≤ c.max_entries
  pub room : 0 < c.max_entries

pub empty-IsValid : (n : ℕ) → 0 < n → IsValid (empty n)
unfolding empty find
empty-IsValid n h = record {
  distinct = tt;
  unique = tt;
  same = λ k. refl;
  bounded = omega arith;
  room = h;
}

module _ (c : Cache) (key : Bytes) (v : IsValid c) where
  evict_if_needed-IsValid : IsValid (evict_if_needed c)
  unfolding evict_if_needed
  evict_if_needed-IsValid = record {
    distinct = evict-Distinct c.max_entries c.order c.entries v.distinct;
    unique = evict-UniqueKeys c.max_entries c.order c.entries v.unique;
    same = evict-SameKeys c.max_entries c.order c.entries v.distinct v.same;
    bounded = omega (arith, length-evict c.max_entries c.order c.entries v.room);
    room = v.room;
  }

  absent : find key c.entries ≡ none → contains key (evict_if_needed c).order ≡ false
  unfolding evict_if_needed
  absent h = contains-evict c.max_entries key c.order c.entries (ground (arith, v.same key))

admit-IsValid :
    (c : Cache) (key : Bytes)
    → IsValid c
    → contains key c.order ≡ false
    → length c.order < c.max_entries
    → IsValid (admit c key)
unfolding admit
admit-IsValid c key v h lt = record {
  distinct = Distinct-append_one key c.order v.distinct h;
  unique = assign-UniqueKeys key pending c.entries v.unique;
  same = λ j. ground (
    arith,
    v.same j,
    contains-append j c.order (key ∷ []),
    find-assign key j pending c.entries,
    bytes_beq_iff key j,
  );
  bounded = omega (arith, length-append c.order (key ∷ []));
  room = v.room;
}

pub claim-IsValid : (c : Cache) (key : Bytes) → IsValid c → IsValid (claim c key).0
unfolding claim
claim-IsValid c key v = elim (Option-cases (find key c.entries)) [
  | inl e ↦
      rw (e, claim)
        (admit-IsValid (evict_if_needed c) key (evict_if_needed-IsValid c key v) (absent c key v e)
          (unfold evict_if_needed in length-evict c.max_entries c.order c.entries v.room))
  | inr (x, e) ↦ rw (e, claim) v
]

pub store-IsValid :
    (c : Cache) (key : Bytes) (status : ℕ) (body : Bytes)
    → IsValid c
    → IsValid (store c key status body)
unfolding store
store-IsValid c key status body v = elim (Option-cases (find key c.entries)) [
  | inl e ↦ rw (e, store) v
  | inr (x, e) ↦
      rw (e, store)
        (record {
          distinct = v.distinct;
          unique = assign-UniqueKeys key _ c.entries v.unique;
          same = λ j. ground (
            arith,
            v.same j,
            find-assign key j (record { done = true; status = status; body = body }) c.entries,
            bytes_beq_iff key j,
          );
          bounded = v.bounded;
          room = v.room;
        })
]

pub release-IsValid : (c : Cache) (key : Bytes) → IsValid c → IsValid (release c key)
unfolding release
release-IsValid c key v = record {
  distinct = remove_first-Distinct key c.order v.distinct;
  unique = erase-UniqueKeys key c.entries v.unique;
  same = λ j.
      ground (
        arith,
        v.same j,
        contains-remove_first key j c.order v.distinct,
        find-erase key j c.entries,
      );
  bounded = omega (arith, length-remove_first-le key c.order, v.bounded);
  room = v.room;
}

pub step-IsValid : (c : Cache) (x : Call) → IsValid c → IsValid (step c x)
unfolding step
step-IsValid c (claims key) v = claim-IsValid c key v
step-IsValid c (stores key status body) v = store-IsValid c key status body v
step-IsValid c (releases key) v = release-IsValid c key v

run_from-IsValid : (c : Cache) (xs : List Call) → IsValid c → IsValid (run c xs)
unfolding run
run_from-IsValid c [] v = v
run_from-IsValid c (x ∷ xs) v = run_from-IsValid (step c x) xs (step-IsValid c x v)

pub max_entries-step : (c : Cache) (x : Call) → (step c x).max_entries ≡ c.max_entries
unfolding step claim store release admit evict_if_needed
max_entries-step c (claims key) = ground arith
max_entries-step c (stores key status body) = ground arith
max_entries-step c (releases key) = refl

pub max_entries-run : (c : Cache) (xs : List Call) → (run c xs).max_entries ≡ c.max_entries
unfolding run
max_entries-run c [] = refl
max_entries-run c (x ∷ xs) = max_entries-run (step c x) xs ∙ max_entries-step c x

-- For a cache made for at least one entry, after any sequence of calls the deque holds the keys of
-- the map, each once, and at most as many as the cache was made for.
pub run-IsValid :
    (n : ℕ) (xs : List Call)
    → 0 < n
    → IsValid (run (empty n) xs) × (length (run (empty n) xs).order ≤ n)
unfolding empty
run-IsValid n xs h =
    let v = run_from-IsValid (empty n) xs (empty-IsValid n h) in
    (v, omega (arith, v.bounded, max_entries-run (empty n) xs))
