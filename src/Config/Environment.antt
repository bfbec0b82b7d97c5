-- ===== src/Config/Environment.antt =====
-- src/config/config.cpp: how a variable is read. The environment and the files are functions, which do not
-- change while the configuration is loaded; an exception is an error.
use telegram_rest_gateway.Prelude.{
  ℕ, ◌+◌, ◌-◌, ◌^◌, Bool, true, false, ◌&&◌, ◌||◌, Option, none, some, [], ◌∷◌, ◌++◌, leb,
  if◌then◌else◌, ◌==◌, nat_eq, Bytes, bytes_eq, codes, all,
}
use telegram_rest_gateway.Prelude.Int.{ℤ, pos, negsuc, value_from}

pub data Error : Type 0 where
  cannot_read : Bytes → Error
  missing : Bytes → Error
  out_of_range : Bytes → Bytes → Error
  not_a_number : Bytes → Bytes → Error
  invalid_session_id : Bytes → Error
  idle_too_short : Error

pub data Result {ℓ} (A : Type ℓ) : Type ℓ where
  ok : A → Result A
  throws : Error → Result A

infixl 5 ◌>>=◌
abbrev pub ◌>>=◌ {ℓ κ} : {A : Type ℓ} {B : Type κ} → Result A → (A → Result B) → Result B
ok a >>= f = f a
throws e >>= f = throws e

abbrev pub is_space : ℕ → Bool
is_space c = c == 32 || c == 9 || c == 13 || c == 10

-- find_first_not_of and find_last_not_of with what stands between them.
unfoldable pub trim_start : Bytes → Bytes
trim_start [] = []
trim_start (c ∷ s) = if is_space c then trim_start s else c ∷ s

unfoldable pub trim_end : Bytes → Bytes
trim_end [] = []
trim_end (c ∷ s) = let rest = trim_end s in if is_space c && rest == [] then [] else c ∷ rest

unfoldable pub trim : Bytes → Bytes
unfolding trim_start trim_end
trim s = trim_end (trim_start s)

-- The types that are parsed: whether there is a sign, and the largest value. The least value is 0, or one
-- less than the largest, negated.
pub record NumberType : Type 0 where
  pub is_signed : Bool
  pub largest : ℕ

abbrev pub int32 : NumberType
int32 = record { is_signed = true; largest = 2 ^ 31 - 1 }

abbrev pub uint16 : NumberType
uint16 = record { is_signed = false; largest = 2 ^ 16 - 1 }

abbrev pub uint64 : NumberType
uint64 = record { is_signed = false; largest = 2 ^ 64 - 1 }

abbrev pub is_digit : ℕ → Bool
is_digit c = leb b'0' c && leb c b'9'

unfoldable pub leading_digits : Bytes → Bytes
leading_digits [] = []
leading_digits (c ∷ s) = let rest = leading_digits s in if is_digit c then c ∷ rest else []

unfoldable pub after_digits : Bytes → Bytes
after_digits [] = []
after_digits (c ∷ s) = let rest = after_digits s in if is_digit c then rest else c ∷ s

-- std::from_chars in base 10: no number at the front, one that is out of the type's range, or a value and
-- the text after it.
pub data Parsed : Type 0 where
  invalid_argument : Parsed
  result_out_of_range : Parsed
  parsed : ℤ → Bytes → Parsed

unfoldable pub parse_unsigned : NumberType → Bytes → Parsed
unfolding leading_digits after_digits
parse_unsigned t s =
    let n = value_from 0 (leading_digits s) in
    if leading_digits s == []
    then invalid_argument
    else if leb n t.largest
    then parsed (pos n) (after_digits s)
    else result_out_of_range

unfoldable pub parse_negative : NumberType → Bytes → Parsed
unfolding leading_digits after_digits
parse_negative t s =
    let n = value_from 0 (leading_digits s) in
    if leading_digits s == []
    then invalid_argument
    else if leb n (t.largest + 1)
    then parsed (if n == 0 then pos 0 else negsuc (n - 1)) (after_digits s)
    else result_out_of_range

unfoldable pub from_chars : NumberType → Bytes → Parsed
unfolding parse_unsigned parse_negative
from_chars t [] = invalid_argument
from_chars t (c ∷ s) =
    if t.is_signed && c == b'-' then parse_negative t s else parse_unsigned t (c ∷ s)

unfoldable pub number_of : Bytes → Bytes → Parsed → Result ℤ
number_of name value result_out_of_range = throws (out_of_range name value)
number_of name value invalid_argument = throws (not_a_number name value)
number_of name value (parsed n []) = ok n
number_of name value (parsed n (c ∷ s)) = throws (not_a_number name value)

unfoldable pub parse_numeric_env : NumberType → Bytes → Bytes → Result ℤ
unfolding from_chars number_of
parse_numeric_env t name value = number_of name value (from_chars t value)

abbrev is_segment_byte : ℕ → Bool
is_segment_byte c =
    (leb b'A' c && leb c b'Z')
    || (leb b'a' c && leb c b'z')
    || is_digit c
    || c == b'.'
    || c == b'_'
    || c == b'-'

unfoldable pub is_safe_segment : Bytes → Bool
is_safe_segment s =
    if s == [] || s == codes "." || s == codes ".." then false else all is_segment_byte s

module _ (getenv read_file : Bytes → Option Bytes) where
  unfoldable pub read_secret : Bytes → Result Bytes
  unfolding trim
  read_secret path = elim (read_file path) [
    | none ↦ throws (cannot_read path)
    | some s ↦ ok (trim s)
  ]

  unfoldable pub env_or_file : Bytes → Bytes → Result Bytes
  unfolding read_secret trim
  env_or_file name fallback = elim (getenv (name ++ codes "_FILE")) [
    | some path ↦ read_secret path
    | none ↦ elim (getenv name) [ some v ↦ ok (trim v) | none ↦ ok fallback ]
  ]

  unfoldable pub require : Bytes → Result Bytes
  unfolding env_or_file
  require name = do v ← env_or_file name []; (if v == [] then throws (missing name) else ok v)
