-- ===== src/Http/IdempotencyCache/Keys.antt =====
-- The keys of the two containers: membership, and what each mutator does to it.
use telegram_rest_gateway.Prelude.{
  ℕ, ◌≤◌, ◌<◌, ◌≡◌, refl, Bool, true, false, Option, none, some, List, [], ◌∷◌, ◌++◌, arith,
  if◌then◌else◌, ◌==◌, nat_eq, Bytes, bytes_beq_iff, bytes_eq, length,
}
use telegram_rest_gateway.Prelude.Map.{
  find, erase, assign, UniqueKeys, find-erase, find-assign, erase-UniqueKeys,
}
use telegram_rest_gateway.Http.IdempotencyCache.{Entry, evict, remove_first}

abbrev pub contains : Bytes → List Bytes → Bool
contains k [] = false
contains k (x ∷ xs) = if x == k then true else contains k xs

abbrev pub Distinct : List Bytes → Type 0
Distinct [] = Unit
Distinct (x ∷ xs) = (contains x xs ≡ false) × Distinct xs

abbrev pub present : Option Entry → Bool
present none = false
present (some e) = true

-- The deque and the map hold the same keys.
abbrev pub SameKeys : List Bytes → List (Bytes × Entry) → Type 0
SameKeys ks es = (k : Bytes) → contains k ks ≡ present (find k es)

pub contains-append :
    (k : Bytes) (xs ys : List Bytes)
    → contains k (xs ++ ys) ≡ (if contains k xs then true else contains k ys)
contains-append k [] ys = refl
contains-append k (x ∷ xs) ys = ground (arith, contains-append k xs ys)

pub Distinct-append_one :
    (k : Bytes) (xs : List Bytes) → Distinct xs → contains k xs ≡ false → Distinct (xs ++ k ∷ [])
Distinct-append_one k [] d h = ground arith
Distinct-append_one k (x ∷ xs) d h = ground (
  arith,
  Distinct-append_one k xs,
  contains-append x xs (k ∷ []),
  bytes_beq_iff x k,
  bytes_beq_iff k x,
)

pub contains-remove_first :
    (k j : Bytes) (xs : List Bytes)
    → Distinct xs
    → contains j (remove_first k xs) ≡ (if k == j then false else contains j xs)
unfolding remove_first
contains-remove_first k j [] d = ground arith
contains-remove_first k j (x ∷ xs) d = ground (
  arith,
  contains-remove_first k j xs d.1,
  bytes_beq_iff x k,
  bytes_beq_iff k j,
  bytes_beq_iff x j,
)

pub remove_first-Distinct :
    (k : Bytes) (xs : List Bytes) → Distinct xs → Distinct (remove_first k xs)
unfolding remove_first
remove_first-Distinct k [] d = tt
remove_first-Distinct k (x ∷ xs) d =
    ground (arith, remove_first-Distinct k xs d.1, contains-remove_first k x xs d.1)

pub length-remove_first-le : (k : Bytes) (xs : List Bytes) → length (remove_first k xs) ≤ length xs
unfolding remove_first
length-remove_first-le k [] = omega arith
length-remove_first-le k (x ∷ xs) = ground (arith, length-remove_first-le k xs)

pub assign-UniqueKeys :
    (k : Bytes) (v : Entry) (es : List (Bytes × Entry)) → UniqueKeys es → UniqueKeys (assign k v es)
unfolding assign find
assign-UniqueKeys k v [] u = ground arith
assign-UniqueKeys k v ((i, w) ∷ es) u = ground (
  arith,
  assign-UniqueKeys k v es u.1,
  find-assign k i v es,
  bytes_beq_iff i k,
  bytes_beq_iff k i,
)

-- Dropping the front key from both containers.
SameKeys-tail :
    (k : Bytes) (ks : List Bytes) (es : List (Bytes × Entry))
    → Distinct (k ∷ ks)
    → SameKeys (k ∷ ks) es
    → SameKeys ks (erase k es)
SameKeys-tail k ks es d s j = ground (arith, s j, find-erase k j es, bytes_beq_iff k j)

pub evict-Distinct :
    (n : ℕ) (ks : List Bytes) (es : List (Bytes × Entry)) → Distinct ks → Distinct (evict n ks es).0
unfolding evict
evict-Distinct n [] es d = tt
evict-Distinct n (k ∷ ks) es d = ground (arith, evict-Distinct n ks (erase k es) d.1)

pub evict-UniqueKeys :
    (n : ℕ) (ks : List Bytes) (es : List (Bytes × Entry))
    → UniqueKeys es
    → UniqueKeys (evict n ks es).1
unfolding evict
evict-UniqueKeys n [] es u = u
evict-UniqueKeys n (k ∷ ks) es u =
    ground (arith, evict-UniqueKeys n ks (erase k es) (erase-UniqueKeys k es u))

pub evict-SameKeys :
    (n : ℕ) (ks : List Bytes) (es : List (Bytes × Entry))
    → Distinct ks
    → SameKeys ks es
    → SameKeys (evict n ks es).0 (evict n ks es).1
unfolding evict
evict-SameKeys n [] es d s j = s j
evict-SameKeys n (k ∷ ks) es d s j =
    ground (arith, s j, evict-SameKeys n ks (erase k es) d.1 (SameKeys-tail k ks es d s) j)

-- Unless no entry may stay, the loop ends below the limit.
pub length-evict :
    (n : ℕ) (ks : List Bytes) (es : List (Bytes × Entry)) → 0 < n → length (evict n ks es).0 < n
unfolding evict
length-evict n [] es h = h
length-evict n (k ∷ ks) es h = ground (arith, length-evict n ks (erase k es) h)

-- No key comes in by eviction.
pub contains-evict :
    (n : ℕ) (k : Bytes) (ks : List Bytes) (es : List (Bytes × Entry))
    → contains k ks ≡ false
    → contains k (evict n ks es).0 ≡ false
unfolding evict
contains-evict n k [] es h = h
contains-evict n k (x ∷ ks) es h = ground (arith, contains-evict n k ks (erase x es))
