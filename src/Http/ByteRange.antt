-- ===== src/Http/ByteRange.antt =====
-- src/http/byte_range.hpp: the single range of a Range header. std::stoull is taken by its documented
-- behaviour on a text of digits: its value, or an exception above 64 bits.
pub mod Bounds
pub mod Laws
pub mod Tests
use telegram_rest_gateway.Prelude.{
  ℕ, zero, suc, ◌+◌, ◌-◌, ◌*◌, ◌/◌, ◌%◌, ◌^◌, ◌≤◌, ◌<◌, min, max, ◌≡◌, refl, sym, ap, ◌∙◌, subst,
  ◌≢◌, ◌↔◌, ◌⊎◌, inl, inr, Bool, true, false, ◌&&◌, ◌||◌, not, Option, none, some, List, [], ◌∷◌,
  ◌++◌, map, arith, ltb, leb, ltb→lt, lt→ltb, leb→le, if◌then◌else◌, Bool-cases, Option-cases, Eq,
  ◌==◌, eq_refl, nat_eq, Bytes, bytes_beq_iff, nat_beq_iff, bytes_eq, codes, length, get_elem?,
  get_or, take, drop, keep_if, all, any, length-append, length-keep_if-le, take-append-drop,
  length-take, length-drop, drop-append, take-append, All, All-append,
}
use telegram_rest_gateway.Prelude.Text.{find, starts_with, is_digit}

abbrev pub uintmax : ℕ
uintmax = 2 ^ 64 - 1

unfoldable pub is_all_digits : Bytes → Bool
unfolding is_digit
is_all_digits [] = false
is_all_digits (c ∷ cs) = all is_digit (c ∷ cs)

-- The value of a text of digits, after those before it.
abbrev pub value_from : ℕ → Bytes → ℕ
value_from n [] = n
value_from n (c ∷ cs) = value_from (n * 10 + (c - b'0')) cs

unfoldable pub parse_digits : Bytes → Option ℕ
unfolding is_all_digits
parse_digits s =
    if not (is_all_digits s)
    then none
    else if leb (value_from 0 s) uintmax
    then some (value_from 0 s)
    else none

abbrev pub range_prefix : Bytes
range_prefix = codes "bytes="

-- The suffix form, bytes=-N.
unfoldable pub last_bytes : ℕ → Bytes → Option (ℕ × ℕ)
unfolding parse_digits
last_bytes file_size to = elim (parse_digits to) [
  | none ↦ none
  | some n ↦ (if n == 0 then none else some (file_size - min n file_size, min n file_size))
]

-- The last position of the form bytes=a-b or bytes=a-.
unfoldable pub last_position : ℕ → Bytes → Option ℕ
unfolding parse_digits
last_position file_size [] = some (file_size - 1)
last_position file_size (c ∷ cs) = elim (parse_digits (c ∷ cs)) [
  | none ↦ none
  | some to_val ↦ some (min to_val (file_size - 1))
]

unfoldable pub from_position : ℕ → Bytes → Bytes → Option (ℕ × ℕ)
unfolding parse_digits last_position
from_position file_size from to = elim (parse_digits from) [
  | none ↦ none
  | some offset ↦
      (if leb file_size offset then none else elim (last_position file_size to) [
        | none ↦ none
        | some last ↦ (if ltb last offset then none else some (offset, last - offset + 1))
      ])
]

unfoldable pub range_parts : ℕ → Bytes → Bytes → Option (ℕ × ℕ)
unfolding last_bytes from_position
range_parts file_size [] to = last_bytes file_size to
range_parts file_size (c ∷ cs) to = from_position file_size (c ∷ cs) to

abbrev pub present : Option ℕ → Bool
present none = false
present (some i) = true

-- parseByteRange: offset and length, or `none` for false.
unfoldable pub parse_byte_range : Bytes → ℕ → Option (ℕ × ℕ)
unfolding starts_with find range_parts
parse_byte_range header file_size =
    if leb (length header) (length range_prefix)
      || not (starts_with header range_prefix)
      || file_size == 0
    then none
    else (let spec = drop (length range_prefix) header in
        elim (find b'-' spec) [
          | none ↦ none
          | some dash ↦
              (if present (find b',' spec)
                then none
                else range_parts file_size (take dash spec) (drop (suc dash) spec))
        ])
