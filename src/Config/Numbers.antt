-- ===== src/Config/Numbers.antt =====
-- Which texts are numbers of the configuration.
use telegram_rest_gateway.Prelude.{
  ℕ, zero, suc, ◌+◌, ◌-◌, ◌/◌, ◌%◌, ◌≤◌, ◌<◌, ◌≡◌, refl, sym, ap, ◌∙◌, ◌≢◌, inl, inr, Bool, true,
  false, ◌&&◌, not, [], ◌∷◌, ◌++◌, arith, ltb, leb, if◌then◌else◌, Bool-cases, ◌==◌, nat_eq, Bytes,
  bytes_beq_iff, bytes_eq, all,
}
use telegram_rest_gateway.Prelude.Int.{
  ℤ, pos, negsuc, value_from, digits, decimal, to_string, value_from-digits,
}
use telegram_rest_gateway.Config.Environment.{
  ok, NumberType, is_digit, leading_digits, after_digits, Parsed, parsed, invalid_argument,
  result_out_of_range, parse_unsigned, parse_negative, from_chars, number_of, parse_numeric_env,
}

abbrev pub in_range : NumberType → ℤ → Bool
in_range t (pos n) = leb n t.largest
in_range t (negsuc n) = t.is_signed && leb n t.largest

-- Digits, and at least one; after a minus sign where the type has one.
abbrev pub is_numeral : Bytes → Bool
is_numeral s = not (s == []) && all is_digit s

abbrev pub is_number : NumberType → Bytes → Bool
is_number t [] = false
is_number t (c ∷ s) = if t.is_signed && c == b'-' then is_numeral s else is_numeral (c ∷ s)

digits_only : (s : Bytes) → after_digits s ≡ [] → all is_digit s ≡ true
unfolding after_digits
digits_only [] e = refl
digits_only (c ∷ s) e = ground (arith, e, digits_only s)

only_digits : (s : Bytes) → all is_digit s ≡ true → (leading_digits s ≡ s) × (after_digits s ≡ [])
unfolding leading_digits after_digits
only_digits [] e = (refl, refl)
only_digits (c ∷ s) e = (ground (arith, e, only_digits s), ground (arith, e, only_digits s))

all-append :
    (s t : Bytes) → all is_digit s ≡ true → all is_digit t ≡ true → all is_digit (s ++ t) ≡ true
all-append [] t e e' = e'
all-append (c ∷ s) t e e' = ground (arith, e, all-append s t)

all-digits : (fuel n : ℕ) → all is_digit (digits fuel n) ≡ true
unfolding digits
all-digits zero n = refl
all-digits (suc fuel) n = elim (Bool-cases (ltb n 10)) [
  | inl e ↦ ground (arith, e)
  | inr e ↦ rw e (
      all-append (digits fuel (n / 10)) ((b'0' + n % 10) ∷ []) (all-digits fuel (n / 10))
        (ground arith))
]

snoc-ne-nil : (s : Bytes) (c : ℕ) → s ++ c ∷ [] ≢ []
snoc-ne-nil [] c e = ground (arith, e)
snoc-ne-nil (d ∷ s) c e = ground (arith, e)

pub decimal-ne-nil : (n : ℕ) → decimal n ≢ []
unfolding decimal digits
decimal-ne-nil n e = elim (Bool-cases (ltb n 10)) [
  | inl h ↦ ground (arith, h, e)
  | inr h ↦ ground (arith, h, e, snoc-ne-nil (digits n (n / 10)) (b'0' + n % 10))
]

pub decimal_lem : (n : ℕ) → (all is_digit (decimal n) ≡ true) × (value_from 0 (decimal n) ≡ n)
unfolding decimal
decimal_lem n = (all-digits (suc n) n, value_from-digits (suc n) n (omega arith))

pub parse_unsigned_lem :
    (t : NumberType) (s : Bytes)
    → all is_digit s ≡ true
    → s ≢ []
    → value_from 0 s ≤ t.largest
    → parse_unsigned t s ≡ parsed (pos (value_from 0 s)) []
unfolding parse_unsigned
parse_unsigned_lem t s d ne le = ground (arith, only_digits s d, bytes_beq_iff s [], ne)

pub parse_negative_lem :
    (t : NumberType) (s : Bytes)
    → all is_digit s ≡ true
    → s ≢ []
    → 0 < value_from 0 s
    → value_from 0 s ≤ t.largest + 1
    → parse_negative t s ≡ parsed (negsuc (value_from 0 s - 1)) []
unfolding parse_negative
parse_negative_lem t s d ne lt le = ground (arith, only_digits s d, bytes_beq_iff s [], ne)

pub from_chars-digits :
    (t : NumberType) (s : Bytes) → all is_digit s ≡ true → from_chars t s ≡ parse_unsigned t s
unfolding from_chars parse_unsigned leading_digits
from_chars-digits t [] d = refl
from_chars-digits t (c ∷ s) d = ground (arith, d)

from_chars-minus :
    (t : NumberType) (s : Bytes) → t.is_signed ≡ true → from_chars t (b'-' ∷ s) ≡ parse_negative t s
unfolding from_chars
from_chars-minus t s h = ground (arith, h)

parsed_whole :
    (name value : Bytes) (r : Parsed) (n : ℤ) → number_of name value r ≡ ok n → r ≡ parsed n []
unfolding number_of
parsed_whole name value invalid_argument n e = ground (arith, e)
parsed_whole name value result_out_of_range n e = ground (arith, e)
parsed_whole name value (parsed m []) n e = ground (arith, e)
parsed_whole name value (parsed m (c ∷ s)) n e = ground (arith, e)

parse_unsigned-InRange :
    (t : NumberType) (s : Bytes) (n : ℤ)
    → parse_unsigned t s ≡ parsed n []
    → (in_range t n ≡ true) × (is_numeral s ≡ true)
unfolding parse_unsigned leading_digits after_digits
parse_unsigned-InRange t [] n e = ground (arith, e)
parse_unsigned-InRange t (c ∷ s) n e = (ground (arith, e), ground (arith, e, digits_only s))

parse_negative-InRange :
    (t : NumberType) (s : Bytes) (n : ℤ)
    → t.is_signed ≡ true
    → parse_negative t s ≡ parsed n []
    → (in_range t n ≡ true) × (is_numeral s ≡ true)
unfolding parse_negative leading_digits after_digits
parse_negative-InRange t [] n h e = ground (arith, e)
parse_negative-InRange t (c ∷ s) n h e = (ground (arith, h, e), ground (arith, e, digits_only s))

-- A text is read as a value only if the type has that value, and the whole text is a number.
pub parse_numeric_env-InRange :
    (t : NumberType) (name value : Bytes) (n : ℤ)
    → parse_numeric_env t name value ≡ ok n
    → (in_range t n ≡ true) × (is_number t value ≡ true)
unfolding parse_numeric_env from_chars
parse_numeric_env-InRange t name [] n e = ground (arith, parsed_whole name [] invalid_argument n e)
parse_numeric_env-InRange t name (c ∷ s) n e = elim (Bool-cases (t.is_signed && c == b'-')) [
  | inl minus ↦ rw minus (
      parse_negative-InRange t s n (ground (arith, minus))
        (sym (ap (λ b. if b then parse_negative t s else parse_unsigned t (c ∷ s)) minus) ∙ whole))
  | inr plain ↦ rw plain (
      parse_unsigned-InRange t (c ∷ s) n
        (sym (ap (λ b. if b then parse_negative t s else parse_unsigned t (c ∷ s)) plain) ∙ whole))
]
  where
    whole : from_chars t (c ∷ s) ≡ parsed n []
    whole = parsed_whole name (c ∷ s) (from_chars t (c ∷ s)) n e

-- Every value that the type has is read back from its decimal text.
pub parse_numeric_env-to_string :
    (t : NumberType) (name : Bytes) (n : ℤ)
    → in_range t n ≡ true
    → parse_numeric_env t name (to_string n) ≡ ok n
unfolding parse_numeric_env from_chars number_of to_string
parse_numeric_env-to_string t name (pos n) h =
    let (d, v) = decimal_lem n in
    let e =
      from_chars-digits t (decimal n) d
      ∙ parse_unsigned_lem t (decimal n) d (decimal-ne-nil n) (ground (arith, v, h)) in
    ap (number_of name (decimal n)) e ∙ ap ok (ap pos v)
parse_numeric_env-to_string t name (negsuc n) h =
    let (d, v) = decimal_lem (suc n) in
    let e =
      parse_negative_lem t (decimal (suc n)) d (decimal-ne-nil (suc n)) (ground (arith, v, h))
        (ground (arith, v, h)) in
    ap (number_of name (to_string (negsuc n)))
      (from_chars-minus t (decimal (suc n)) (ground (arith, h)) ∙ e)
    ∙ ap (λ k. ok (negsuc k)) (omega (arith, v))
