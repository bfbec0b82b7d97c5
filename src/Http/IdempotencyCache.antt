-- ===== src/Http/IdempotencyCache.antt =====
-- src/http/idempotency_cache.hpp: the cache of finished responses by Idempotency-Key. Each public
-- method runs under the mutex, so a method is one step.
pub mod Keys
pub mod Invariant
pub mod Retention
pub mod View
pub mod Tests
use telegram_rest_gateway.Prelude.{
  ℕ, zero, suc, ◌+◌, ◌-◌, ◌*◌, ◌/◌, ◌%◌, ◌^◌, ◌≤◌, ◌<◌, min, max, ◌≡◌, refl, sym, ap, ◌∙◌, subst,
  ◌≢◌, ◌↔◌, ◌⊎◌, inl, inr, Bool, true, false, ◌&&◌, ◌||◌, not, Option, none, some, List, [], ◌∷◌,
  ◌++◌, map, arith, ltb, leb, ltb→lt, lt→ltb, leb→le, if◌then◌else◌, Bool-cases, Option-cases, Eq,
  ◌==◌, eq_refl, nat_eq, Bytes, bytes_beq_iff, nat_beq_iff, bytes_eq, codes, length, get_elem?,
  get_or, take, drop, keep_if, all, any, length-append, length-keep_if-le, take-append-drop,
  length-take, length-drop, drop-append, take-append, All, All-append,
}
use telegram_rest_gateway.Prelude.Map.{find, erase, assign}

pub record Entry : Type 0 where
  pub done : Bool
  pub status : ℕ
  pub body : Bytes

-- `entries` is the map, `order` the deque with the oldest key in front.
pub record Cache : Type 0 where
  pub max_entries : ℕ
  pub entries : List (Bytes × Entry)
  pub order : List Bytes

-- What `claim` returns: 0, 1, or 2 with the status and body written to its out parameters.
pub data Claim : Type 0 where
  claimed in_flight : Claim
  replay : ℕ → Bytes → Claim

abbrev pub pending : Entry
pending = record { done = false; status = 0; body = [] }

pub empty : ℕ → Cache
empty n = record { max_entries = n; entries = []; order = [] }

-- The loop of evictIfNeeded, over the two containers.
pub evict : ℕ → List Bytes → List (Bytes × Entry) → List Bytes × List (Bytes × Entry)
evict n [] es = ([], es)
evict n (k ∷ ks) es =
    let rest = evict n ks (erase k es) in if leb n (length (k ∷ ks)) then rest else (k ∷ ks, es)

pub evict_if_needed : Cache → Cache
unfolding evict
evict_if_needed c =
    let (order, entries) = evict c.max_entries c.order c.entries in
    record c { entries = entries; order = order }

admit : Cache → Bytes → Cache
admit c key = record c { entries = assign key pending c.entries; order = c.order ++ key ∷ [] }

pub claim : Cache → Bytes → Cache × Claim
unfolding admit evict_if_needed
claim c key = elim (find key c.entries) [
  | none ↦ (admit (evict_if_needed c) key, claimed)
  | some e ↦ (c, (if e.done then replay e.status e.body else in_flight))
]

pub store : Cache → Bytes → ℕ → Bytes → Cache
store c key status body = elim (find key c.entries) [
  | none ↦ c
  | some e ↦ record c {
    entries = assign key (record { done = true; status = status; body = body }) c.entries;
  }
]

-- The loop of `release` over `order_`: the first slot that holds the key goes.
pub remove_first : Bytes → List Bytes → List Bytes
remove_first key [] = []
remove_first key (k ∷ ks) = if k == key then ks else k ∷ remove_first key ks

pub release : Cache → Bytes → Cache
unfolding remove_first
release c key = record c { entries = erase key c.entries; order = remove_first key c.order }

-- One call of a public method.
pub data Call : Type 0 where
  claims : Bytes → Call
  stores : Bytes → ℕ → Bytes → Call
  releases : Bytes → Call

pub step : Cache → Call → Cache
step c (claims key) = (claim c key).0
step c (stores key status body) = store c key status body
step c (releases key) = release c key

pub run : Cache → List Call → Cache
run c [] = c
run c (x ∷ xs) = run (step c x) xs
