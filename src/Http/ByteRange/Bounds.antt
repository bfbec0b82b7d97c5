-- ===== src/Http/ByteRange/Bounds.antt =====
-- The range lies in the file.
use telegram_rest_gateway.Prelude.{
  ℕ, zero, suc, ◌+◌, ◌≤◌, ◌<◌, ◌≡◌, inl, inr, Option, none, some, [], ◌∷◌, arith, Option-cases,
  nat_eq, Bytes, bytes_eq, length, take, drop,
}
use telegram_rest_gateway.Prelude.Text.{find}
use telegram_rest_gateway.Http.ByteRange.{
  range_prefix, last_bytes, last_position, from_position, range_parts, parse_byte_range,
}

abbrev pub InFile : ℕ → Option (ℕ × ℕ) → Type 0
InFile size none = Unit
InFile size (some (offset, n)) = (0 < n) × (offset + n ≤ size)

last_bytes-InFile : (size : ℕ) (to : Bytes) → 0 < size → InFile size (last_bytes size to)
unfolding last_bytes
last_bytes-InFile size to h = ground arith

last_position-lt :
    (size : ℕ) (to : Bytes) (last : ℕ) → 0 < size → last_position size to ≡ some last → last < size
unfolding last_position
last_position-lt size [] last h e = ground arith
last_position-lt size (c ∷ cs) last h e = ground arith

from_position-InFile :
    (size : ℕ) (from to : Bytes) → 0 < size → InFile size (from_position size from to)
unfolding from_position
from_position-InFile size from to h = elim (Option-cases (last_position size to)) [
  | inl e ↦ ground arith
  | inr (last, e) ↦ ground (arith, last_position-lt size to last h e)
]

range_parts-InFile :
    (size : ℕ) (from to : Bytes) → 0 < size → InFile size (range_parts size from to)
unfolding range_parts
range_parts-InFile size [] to h = last_bytes-InFile size to h
range_parts-InFile size (c ∷ cs) to h = from_position-InFile size (c ∷ cs) to h

-- An accepted range is not empty and lies in the file.
pub parse_byte_range-InFile :
    (header : Bytes) (size : ℕ) → InFile size (parse_byte_range header size)
unfolding parse_byte_range
parse_byte_range-InFile header zero = ground arith
parse_byte_range-InFile header (suc n) =
    let spec = drop (length range_prefix) header in
    elim (Option-cases (find b'-' spec)) [
      | inl e ↦ ground (arith, e)
      | inr (dash, e) ↦ ground (
        arith,
        e,
        range_parts-InFile (suc n) (take dash spec) (drop (suc dash) spec) (omega arith),
      )
    ]
