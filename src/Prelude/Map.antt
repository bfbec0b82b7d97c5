-- ===== src/Prelude/Map.antt =====
-- `std::unordered_map` as an association list. The order of the list stands for the order in which
-- the map iterates, which the standard leaves open; no theorem depends on it.
use Prim.Native.Nat.{ℕ, ◌+◌, ◌≤◌}
use mathlib.Core.Bool.{Bool, true, false}
use mathlib.Core.Path.{◌≡◌, refl}
use mathlib.Core.Option.{Option, none, some}
use mathlib.Core.List.{List, [], ◌∷◌}
use native.Mathlib.Omega.{arith}
use telegram_rest_gateway.Prelude.Tests.{if◌then◌else◌}
use telegram_rest_gateway.Prelude.Lists.{length}
use telegram_rest_gateway.Prelude.Equality.{Eq, ◌==◌, nat_eq}

module _ {ℓ κ} {K : Type ℓ} {V : Type κ} ⦃e : Eq K⦄ where
  -- m.find(k)
  unfoldable pub find : K → List (K × V) → Option V
  find k [] = none
  find k ((j, v) ∷ m) = if j == k then some v else find k m

  -- m.erase(k)
  unfoldable pub erase : K → List (K × V) → List (K × V)
  erase k [] = []
  erase k ((j, v) ∷ m) = if j == k then erase k m else (j, v) ∷ erase k m

  -- m[k] = v
  unfoldable pub assign : K → V → List (K × V) → List (K × V)
  assign k v [] = (k, v) ∷ []
  assign k v ((j, w) ∷ m) = if j == k then (k, v) ∷ m else (j, w) ∷ assign k v m

  -- m.emplace(k, v): an entry that is there stays.
  unfoldable pub emplace : K → V → List (K × V) → List (K × V)
  unfolding find
  emplace k v m = elim (find k m) [ none ↦ (k, v) ∷ m | some w ↦ m ]

  -- No key stands twice.
  abbrev pub UniqueKeys : List (K × V) → Type κ
  UniqueKeys [] = Unit
  UniqueKeys ((j, v) ∷ m) = (find j m ≡ none) × UniqueKeys m

  pub find-erase :
      (k j : K) (m : List (K × V)) → find j (erase k m) ≡ (if k == j then none else find j m)
  unfolding find erase
  find-erase k j [] = ground arith
  find-erase k j ((i, w) ∷ m) =
      ground (arith, e.beq_iff k j, e.beq_iff i k, e.beq_iff i j, find-erase k j m)

  pub find-assign :
      (k j : K) (v : V) (m : List (K × V))
      → find j (assign k v m) ≡ (if k == j then some v else find j m)
  unfolding find assign
  find-assign k j v [] = refl
  find-assign k j v ((i, w) ∷ m) =
      ground (arith, e.beq_iff k j, e.beq_iff i k, e.beq_iff i j, find-assign k j v m)

  pub length-erase-le : (k : K) (m : List (K × V)) → length (erase k m) ≤ length m
  unfolding erase
  length-erase-le k [] = omega arith
  length-erase-le k ((i, w) ∷ m) = ground (arith, length-erase-le k m)

  pub erase-UniqueKeys : (k : K) (m : List (K × V)) → UniqueKeys m → UniqueKeys (erase k m)
  unfolding erase
  erase-UniqueKeys k [] u = tt
  erase-UniqueKeys k ((i, w) ∷ m) u = ground (arith, erase-UniqueKeys k m u.1, find-erase k i m)

  pub emplace-UniqueKeys :
      (k : K) (v : V) (m : List (K × V)) → UniqueKeys m → UniqueKeys (emplace k v m)
  unfolding emplace
  emplace-UniqueKeys k v m u = ground arith

-- How often a value stands in a list of pairs.
abbrev pub one_if : Bool → ℕ
one_if true = 1
one_if false = 0

module _ {ℓ} {K : Type ℓ} where
  abbrev pub count_values : ℕ → List (K × ℕ) → ℕ
  count_values v [] = 0
  count_values v ((k, w) ∷ m) = one_if (w == v) + count_values v m

module _ {ℓ} {K : Type ℓ} ⦃e : Eq K⦄ where
  erase-absent : (k : K) (m : List (K × ℕ)) → find k m ≡ none → erase k m ≡ m
  unfolding find erase
  erase-absent k [] h = refl
  erase-absent k ((j, w) ∷ m) h = ground (arith, erase-absent k m)

  pub count_values-erase :
      (v : ℕ) (k : K) (m : List (K × ℕ)) (w : ℕ)
      → UniqueKeys m
      → find k m ≡ some w
      → count_values v m ≡ one_if (w == v) + count_values v (erase k m)
  unfolding find erase
  count_values-erase v k [] w u h = ground arith
  count_values-erase v k ((j, x) ∷ m) w u h =
      ground (arith, count_values-erase v k m w u.1, erase-absent k m, e.beq_iff j k)
