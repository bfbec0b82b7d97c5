-- ===== src/Http/IdempotencyCache/View.antt =====
-- What a client can see of the cache: for each key a slot that is free, taken, or answered.
use telegram_rest_gateway.Prelude.{
  ℕ, ◌≤◌, ◌≡◌, refl, subst, ◌≢◌, ◌⊎◌, inl, inr, true, false, Option, none, some, List, [], ◌∷◌,
  arith, if◌then◌else◌, Bool-cases, ◌==◌, nat_eq, Bytes, bytes_beq_iff, bytes_eq, length,
}
use telegram_rest_gateway.Prelude.Map.{find, erase, find-erase, find-assign}
use telegram_rest_gateway.Http.IdempotencyCache.Keys.{contains}
use telegram_rest_gateway.Http.IdempotencyCache.{
  Entry, Cache, Claim, claimed, in_flight, replay, pending, evict, evict_if_needed, admit, claim,
  store, release, Call, claims, stores, releases, step,
}
use telegram_rest_gateway.Http.IdempotencyCache.Retention.{key_of}

pub data Slot : Type 0 where
  free taken : Slot
  answered : ℕ → Bytes → Slot

abbrev pub slot_of : Option Entry → Slot
slot_of none = free
slot_of (some e) = if e.done then answered e.status e.body else taken

abbrev pub view : Cache → Bytes → Slot
view c k = slot_of (find k c.entries)

-- The life of one slot under the calls for its key.
abbrev pub next : Slot → Call → Slot
next free (claims key) = taken
next s (claims key) = s
next free (stores key status body) = free
next s (stores key status body) = answered status body
next s (releases key) = free

-- What a claim of the key answers.
abbrev pub answer : Slot → Claim
answer free = claimed
answer taken = in_flight
answer (answered status body) = replay status body

evict-find :
    (n : ℕ) (k : Bytes) (ks : List Bytes) (es : List (Bytes × Entry))
    → (find k (evict n ks es).1 ≡ find k es)
      ⊎ ((find k (evict n ks es).1 ≡ none) × (contains k ks ≡ true) × (n ≤ length ks))
unfolding evict
evict-find n k [] es = inl refl
evict-find n k (x ∷ ks) es =
    ground (arith, evict-find n k ks (erase x es), find-erase x k es, bytes_beq_iff x k)

admit-view : (c : Cache) (j k : Bytes) → view (admit c j) k ≡ (if j == k then taken else view c k)
unfolding admit
admit-view c j k = ground (arith, find-assign j k pending c.entries)

-- A claim answers by the slot of its key alone.
pub claim-answer : (c : Cache) (k : Bytes) → (claim c k).1 ≡ answer (view c k)
unfolding claim
claim-answer c k = ground arith

abbrev pub Refines : Cache → Call → Bytes → Type 0
Refines c x k =
    ((key_of x ≡ k) × (view (step c x) k ≡ next (view c k) x))
    ⊎ ((key_of x ≢ k) × (view (step c x) k ≡ view c k))
    ⊎ ((key_of x ≢ k) × (view (step c x) k ≡ free) × (c.max_entries ≤ length c.order))

step_own : (c : Cache) (x : Call) → view (step c x) (key_of x) ≡ next (view c (key_of x)) x
unfolding step claim store release
step_own c (claims k) = ground (arith, admit-view (evict_if_needed c) k k, bytes_beq_iff k k)
step_own c (stores k status body) = ground (
  arith,
  find-assign k k (record { done = true; status = status; body = body }) c.entries,
  bytes_beq_iff k k,
)
step_own c (releases k) = ground (arith, find-erase k k c.entries, bytes_beq_iff k k)

step_other :
    (c : Cache) (x : Call) (k : Bytes)
    → (key_of x == k) ≡ false
    → (view (step c x) k ≡ view c k)
      ⊎ ((view (step c x) k ≡ free) × (c.max_entries ≤ length c.order))
unfolding step claim store release evict_if_needed
step_other c (claims j) k h =
    ground (arith, admit-view (evict_if_needed c) j k, evict-find c.max_entries k c.order c.entries)
step_other c (stores j status body) k h =
    ground (arith, find-assign j k (record { done = true; status = status; body = body }) c.entries)
step_other c (releases j) k h = ground (arith, find-erase j k c.entries)

-- Every call moves the slot of its own key by the life cycle, and leaves the slot of any other key
-- as it is, or frees it when the cache was full.
pub step-Refines : (c : Cache) (x : Call) (k : Bytes) → Refines c x k
step-Refines c x k = elim (Bool-cases (key_of x == k)) [
  | inl own ↦
      let e = (bytes_beq_iff (key_of x) k).0 own in
      inl (e, subst (λ j. view (step c x) j ≡ next (view c j) x) e (step_own c x))
  | inr other ↦
      let apart : key_of x ≢ k = λ e. ground (arith, bytes_beq_iff (key_of x) k) in
      elim (step_other c x k other) [
        | inl same ↦ inr (inl (apart, same))
        | inr (gone, full) ↦ inr (inr (apart, gone, full))
      ]
]
