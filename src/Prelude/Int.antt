-- ===== src/Prelude/Int.antt =====
-- Signed integers: an int32 or an int64 of the source, and std::to_string.
use Prim.Native.Nat.{ℕ, zero, suc, ◌+◌, ◌-◌, ◌*◌, ◌/◌, ◌%◌, ◌≤◌, ◌<◌}
use mathlib.Core.Path.{◌≡◌, refl, sym, ap, ◌∙◌, subst}
use mathlib.Core.Logic.{◌↔◌, ◌≢◌, inl, inr}
use mathlib.Core.Bool.{Bool, true, false, not}
use mathlib.Core.List.{[], ◌∷◌, ◌++◌}
use native.Mathlib.Omega.{arith}
use telegram_rest_gateway.Prelude.Tests.{ltb, if◌then◌else◌, Bool-cases}
use telegram_rest_gateway.Prelude.Equality.{Eq, ◌==◌, nat_eq, Bytes}

-- `negsuc n` is -(n + 1).
pub data ℤ : Type 0 where
  pos : ℕ → ℤ
  negsuc : ℕ → ℤ

abbrev pub int_beq : ℤ → ℤ → Bool
int_beq (pos a) (pos b) = a == b
int_beq (negsuc a) (negsuc b) = a == b
int_beq _ _ = false

pub int_beq_iff : (a b : ℤ) → (int_beq a b ≡ true) ↔ (a ≡ b)
int_beq_iff (pos a) (pos b) = ground arith
int_beq_iff (pos a) (negsuc b) = ground arith
int_beq_iff (negsuc a) (pos b) = ground arith
int_beq_iff (negsuc a) (negsuc b) = ground arith

instance abbrev pub int_eq : Eq ℤ
int_eq = record { beq = int_beq; beq_iff = int_beq_iff }

-- The decimal digits, with one round of fuel for each digit at least.
unfoldable pub digits : ℕ → ℕ → Bytes
digits zero n = []
digits (suc fuel) n =
    let high = digits fuel (n / 10) in
    if ltb n 10 then (b'0' + n) ∷ [] else high ++ (b'0' + n % 10) ∷ []

unfoldable pub decimal : ℕ → Bytes
unfolding digits
decimal n = digits (suc n) n

unfoldable pub to_string : ℤ → Bytes
unfolding decimal
to_string (pos n) = decimal n
to_string (negsuc n) = b'-' ∷ decimal (suc n)

-- The number that a text of digits stands for, after what was read before it.
abbrev pub value_from : ℕ → Bytes → ℕ
value_from acc [] = acc
value_from acc (c ∷ s) = value_from (acc * 10 + (c - b'0')) s

value_from-append :
    (acc : ℕ) (s : Bytes) (c : ℕ)
    → value_from acc (s ++ c ∷ []) ≡ value_from acc s * 10 + (c - b'0')
value_from-append acc [] c = refl
value_from-append acc (d ∷ s) c = value_from-append (acc * 10 + (d - b'0')) s c

pub value_from-digits : (fuel n : ℕ) → n < fuel → value_from 0 (digits fuel n) ≡ n
unfolding digits
value_from-digits zero n h = absurd (omega arith)
value_from-digits (suc fuel) n h = elim (Bool-cases (ltb n 10)) [
  | inl e ↦ ground (arith, e)
  | inr e ↦ ground (
    arith,
    e,
    value_from-digits fuel (n / 10),
    value_from-append 0 (digits fuel (n / 10)) (b'0' + n % 10),
  )
]

-- The texts of two numbers differ.
pub decimal-injective : (m n : ℕ) → decimal m ≡ decimal n → m ≡ n
unfolding decimal
decimal-injective m n e =
    sym (value_from-digits (suc m) m (omega arith))
    ∙ (ap (value_from 0) e ∙ value_from-digits (suc n) n (omega arith))

abbrev pub int_ltb : ℤ → ℤ → Bool
int_ltb (pos a) (pos b) = ltb a b
int_ltb (pos a) (negsuc b) = false
int_ltb (negsuc a) (pos b) = true
int_ltb (negsuc a) (negsuc b) = ltb b a

abbrev tail : Bytes → Bytes
tail [] = []
tail (c ∷ s) = s

-- A text that does not begin with a byte before '0', as '-' is.
abbrev begins_late : Bytes → Bool
begins_late [] = true
begins_late (c ∷ s) = not (ltb c b'0')

begins_late-append :
    (s : Bytes) (c : ℕ) → begins_late s ≡ true → b'0' ≤ c → begins_late (s ++ c ∷ []) ≡ true
begins_late-append [] c h le = ground arith
begins_late-append (d ∷ s) c h le = h

begins_late-digits : (fuel n : ℕ) → begins_late (digits fuel n) ≡ true
unfolding digits
begins_late-digits zero n = refl
begins_late-digits (suc fuel) n = ground (
  arith,
  begins_late-append (digits fuel (n / 10)) (b'0' + n % 10) (begins_late-digits fuel (n / 10)),
)

unsigned : (m : ℕ) (s : Bytes) → decimal m ≢ b'-' ∷ s
unfolding decimal
unsigned m s e = ground (arith, subst (λ x. begins_late x ≡ true) e (begins_late-digits (suc m) m))

-- The texts of two integers differ.
pub to_string-injective : (m n : ℤ) → to_string m ≡ to_string n → m ≡ n
unfolding to_string
to_string-injective (pos m) (pos n) e = ap pos (decimal-injective m n e)
to_string-injective (pos m) (negsuc n) e = absurd (unsigned m (decimal (suc n)) e)
to_string-injective (negsuc m) (pos n) e = absurd (unsigned n (decimal (suc m)) (sym e))
to_string-injective (negsuc m) (negsuc n) e =
    ground (arith, decimal-injective (suc m) (suc n) (ap tail e))

-- The sum, as on a width where it does not overflow.
abbrev minus : ℕ → ℕ → ℤ
minus m n = if ltb m n then negsuc (n - m - 1) else pos (m - n)

infixl 60 ◌+ℤ◌
abbrev pub ◌+ℤ◌ : ℤ → ℤ → ℤ
pos m +ℤ pos n = pos (m + n)
pos m +ℤ negsuc n = minus m (suc n)
negsuc m +ℤ pos n = minus n (suc m)
negsuc m +ℤ negsuc n = negsuc (m + n + 1)

-- A positive factor on the right.
abbrev pub times : ℤ → ℕ → ℤ
times (pos m) k = pos (m * k)
times (negsuc m) k = negsuc (suc m * k - 1)
