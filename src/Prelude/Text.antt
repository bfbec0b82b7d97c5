-- ===== src/Prelude/Text.antt =====
-- The `std::string` operations that the components share, over byte lists.
use Prim.Native.Nat.{ℕ, zero, suc, ◌<◌}
use mathlib.Core.Path.{◌≡◌, refl}
use mathlib.Core.Bool.{Bool, true, false, ◌&&◌}
use mathlib.Core.Option.{Option, none, some}
use mathlib.Core.List.{[], ◌∷◌, ◌++◌}
use native.Mathlib.Omega.{arith}
use telegram_rest_gateway.Prelude.Tests.{leb, if◌then◌else◌}
use telegram_rest_gateway.Prelude.Lists.{length, take, drop}
use telegram_rest_gateway.Prelude.Equality.{Bytes, ◌==◌, nat_eq}

-- s.find(c): the first position of a byte.
unfoldable pub find : ℕ → Bytes → Option ℕ
find c [] = none
find c (x ∷ xs) =
    let rest = find c xs in
    if x == c then some 0 else elim rest [ none ↦ none | some i ↦ some (suc i) ]

-- s.compare(0, prefix.size(), prefix) == 0
unfoldable pub starts_with : Bytes → Bytes → Bool
starts_with s [] = true
starts_with [] (p ∷ ps) = false
starts_with (c ∷ s) (p ∷ ps) = if c == p then starts_with s ps else false

pub starts_with-append : (s p : Bytes) → starts_with s p ≡ true → s ≡ p ++ drop (length p) s
unfolding starts_with
starts_with-append s [] h = refl
starts_with-append [] (p ∷ ps) h = ground arith
starts_with-append (c ∷ s) (p ∷ ps) h = ground (arith, starts_with-append s ps)

pub starts_with_prefix : (p s : Bytes) → starts_with (p ++ s) p ≡ true
unfolding starts_with
starts_with_prefix [] s = refl
starts_with_prefix (p ∷ ps) s = ground (arith, starts_with_prefix ps s)

pub find-lt-length : (c : ℕ) (s : Bytes) (i : ℕ) → find c s ≡ some i → i < length s
unfolding find
find-lt-length c [] i h = ground arith
find-lt-length c (x ∷ xs) zero h = ground arith
find-lt-length c (x ∷ xs) (suc i) h = ground (arith, find-lt-length c xs i)

pub find-at : (c : ℕ) (s : Bytes) (i : ℕ) → find c s ≡ some i → s ≡ take i s ++ c ∷ drop (suc i) s
unfolding find
find-at c [] i h = ground (arith, h)
find-at c (x ∷ xs) zero h = ground (arith, h)
find-at c (x ∷ xs) (suc i) h = ground (arith, h, find-at c xs i)

-- The byte is not before its first position.
pub find-take : (c : ℕ) (s : Bytes) (i : ℕ) → find c s ≡ some i → find c (take i s) ≡ none
unfolding find
find-take c [] i h = ground (arith, h)
find-take c (x ∷ xs) zero h = refl
find-take c (x ∷ xs) (suc i) h = ground (arith, h, find-take c xs i)

-- '0'..'9'
unfoldable pub is_digit : ℕ → Bool
is_digit c = leb b'0' c && leb c b'9'
