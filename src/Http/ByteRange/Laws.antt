-- ===== src/Http/ByteRange/Laws.antt =====
-- Which headers are accepted, and with which range.
use telegram_rest_gateway.Prelude.{
  ℕ, zero, suc, ◌+◌, ◌-◌, ◌≤◌, ◌<◌, min, ◌≡◌, refl, sym, ap, ◌∙◌, ◌↔◌, inl, inr, true, ◌&&◌, Option,
  none, some, [], ◌∷◌, ◌++◌, arith, ltb, leb, if◌then◌else◌, Option-cases, nat_eq, Bytes, bytes_eq,
  length, take, drop, all, length-append, take-append,
}
use telegram_rest_gateway.Prelude.Text.{
  find, find-at, starts_with, starts_with-append, is_digit, starts_with_prefix,
}
use telegram_rest_gateway.Http.ByteRange.{
  uintmax, is_all_digits, value_from, parse_digits, range_prefix, last_bytes, last_position,
  from_position, range_parts, parse_byte_range,
}

-- The number that a text of digits stands for, if there is one.
abbrev pub number : Bytes → Option ℕ
number [] = none
number (c ∷ cs) = some (value_from 0 (c ∷ cs))

-- The offset and the length that RFC 9110 gives to first-last, first- and -count.
abbrev pub served : ℕ → Option ℕ → Option ℕ → Option (ℕ × ℕ)
served size none none = none
served size none (some n) =
    if ltb 0 n && ltb 0 size then some (size - min n size, min n size) else none
served size (some a) none = if ltb a size then some (a, size - a) else none
served size (some a) (some b) =
    if ltb a size && leb a b then some (a, min b (size - 1) + 1 - a) else none

find_dash :
    (from to : Bytes)
    → all is_digit from ≡ true
    → find b'-' (from ++ b'-' ∷ to) ≡ some (length from)
unfolding find is_digit
find_dash [] to h = ground arith
find_dash (c ∷ from) to h = ground (arith, find_dash from to)

no_comma : (s : Bytes) → all is_digit s ≡ true → find b',' s ≡ none
unfolding find is_digit
no_comma [] h = refl
no_comma (c ∷ s) h = ground (arith, no_comma s)

no_comma_between :
    (from to : Bytes)
    → all is_digit from ≡ true
    → all is_digit to ≡ true
    → find b',' (from ++ b'-' ∷ to) ≡ none
unfolding find is_digit
no_comma_between [] to h k = ground (arith, no_comma to k)
no_comma_between (c ∷ from) to h k = ground (arith, no_comma_between from to)

parse_digits-all :
    (c : ℕ) (cs : Bytes)
    → all is_digit (c ∷ cs) ≡ true
    → value_from 0 (c ∷ cs) ≤ uintmax
    → parse_digits (c ∷ cs) ≡ some (value_from 0 (c ∷ cs))
unfolding parse_digits is_all_digits
parse_digits-all c cs h le = ground arith

module _ (size : ℕ) (pos : 0 < size) where
  last_bytes-digits :
      (to : Bytes)
      → all is_digit to ≡ true
      → value_from 0 to ≤ uintmax
      → last_bytes size to ≡ served size none (number to)
  unfolding last_bytes
  last_bytes-digits [] h le = unfold parse_digits is_all_digits in refl
  last_bytes-digits (c ∷ cs) h le = ground (arith, parse_digits-all c cs h le)

  last_position-digits :
      (to : Bytes)
      → all is_digit to ≡ true
      → value_from 0 to ≤ uintmax
      → last_position size to
        ≡ some (elim (number to) [ none ↦ size - 1 | some b ↦ min b (size - 1) ])
  unfolding last_position
  last_position-digits [] h le = refl
  last_position-digits (c ∷ cs) h le = ground (arith, parse_digits-all c cs h le)

  range_parts-digits :
      (from to : Bytes)
      → all is_digit from ≡ true
      → all is_digit to ≡ true
      → value_from 0 from ≤ uintmax
      → value_from 0 to ≤ uintmax
      → range_parts size from to ≡ served size (number from) (number to)
  unfolding range_parts from_position
  range_parts-digits [] to h k le le' = last_bytes-digits to k le'
  range_parts-digits (c ∷ cs) [] h k le le' =
      ground (arith, parse_digits-all c cs h le, last_position-digits [] k le')
  range_parts-digits (c ∷ cs) (d ∷ ds) h k le le' =
      ground (arith, parse_digits-all c cs h le, last_position-digits (d ∷ ds) k le')

drop-suc-append : (from to : Bytes) (c : ℕ) → drop (suc (length from)) (from ++ c ∷ to) ≡ to
drop-suc-append [] to c = refl
drop-suc-append (x ∷ from) to c = drop-suc-append from to c

served-zero : (a b : Option ℕ) → served zero a b ≡ none
served-zero none none = refl
served-zero none (some n) = ground arith
served-zero (some a) none = ground arith
served-zero (some a) (some b) = ground arith

-- One range of two texts of digits, each empty or in the range of uintmax_t, with the offset and the length
-- that the standard gives it.
abbrev pub IsRange : Bytes → ℕ → ℕ × ℕ → Type 0
IsRange header size r =
    (from : Bytes) × (to : Bytes) × (header ≡ range_prefix ++ (from ++ b'-' ∷ to))
    × (all is_digit from ≡ true)
    × (all is_digit to ≡ true)
    × (value_from 0 from ≤ uintmax)
    × (value_from 0 to ≤ uintmax)
    × (served size (number from) (number to) ≡ some r)

parse_byte_range_digits :
    (size : ℕ) (from to : Bytes)
    → all is_digit from ≡ true
    → all is_digit to ≡ true
    → value_from 0 from ≤ uintmax
    → value_from 0 to ≤ uintmax
    → parse_byte_range (range_prefix ++ (from ++ b'-' ∷ to)) size
      ≡ served size (number from) (number to)
unfolding parse_byte_range
parse_byte_range_digits zero from to h k le le' =
    ground (arith, served-zero (number from) (number to))
parse_byte_range_digits (suc n) from to h k le le' =
    let spec = from ++ b'-' ∷ to in
    ground (
      arith,
      starts_with_prefix range_prefix spec,
      find_dash from to h,
      no_comma_between from to h k,
      take-append from (b'-' ∷ to),
      drop-suc-append from to b'-',
      range_parts-digits (suc n) (omega arith) from to h k le le',
      length-append from (b'-' ∷ to),
    )

parse_digits-some :
    (s : Bytes) (n : ℕ)
    → parse_digits s ≡ some n
    → (all is_digit s ≡ true) × (value_from 0 s ≤ uintmax) × (number s ≡ some n)
unfolding parse_digits is_all_digits
parse_digits-some [] n h = ground (arith, h)
parse_digits-some (c ∷ cs) n h = (ground (arith, h), ground (arith, h), ground (arith, h))

last_bytes-some :
    (size : ℕ) (to : Bytes) (r : ℕ × ℕ)
    → last_bytes size to ≡ some r
    → (all is_digit to ≡ true) × (value_from 0 to ≤ uintmax)
unfolding last_bytes
last_bytes-some size to r h = elim (Option-cases (parse_digits to)) [
  | inl e ↦ ground (arith, e, h)
  | inr (n, e) ↦ let (d, v, k) = parse_digits-some to n e in (d, v)
]

last_position-some :
    (size : ℕ) (to : Bytes) (last : ℕ)
    → last_position size to ≡ some last
    → (all is_digit to ≡ true) × (value_from 0 to ≤ uintmax)
unfolding last_position
last_position-some size [] last h = (refl, omega arith)
last_position-some size (c ∷ cs) last h = elim (Option-cases (parse_digits (c ∷ cs))) [
  | inl e ↦ ground (arith, e, h)
  | inr (n, e) ↦ let (d, v, k) = parse_digits-some (c ∷ cs) n e in (d, v)
]

range_parts-some :
    (size : ℕ) (from to : Bytes) (r : ℕ × ℕ)
    → range_parts size from to ≡ some r
    → (all is_digit from ≡ true)
      × (all is_digit to ≡ true)
      × (value_from 0 from ≤ uintmax)
      × (value_from 0 to ≤ uintmax)
unfolding range_parts from_position
range_parts-some size [] to r h =
    let (d, v) = last_bytes-some size to r h in (refl, d, omega arith, v)
range_parts-some size (c ∷ cs) to r h = elim (Option-cases (parse_digits (c ∷ cs))) [
  | inl e ↦ ground (arith, e, h)
  | inr (n, e) ↦ elim (Option-cases (last_position size to)) [
    | inl e' ↦ ground (arith, e, e', h)
    | inr (last, e') ↦
        let (d, v, k) = parse_digits-some (c ∷ cs) n e in
        let (d', v') = last_position-some size to last e' in (d, d', v, v')
  ]
]

parse_byte_range-parts :
    (header : Bytes) (size : ℕ) (r : ℕ × ℕ)
    → parse_byte_range header size ≡ some r
    → let spec = drop (length range_prefix) header in
      (starts_with header range_prefix ≡ true)
      × ((dash : ℕ) × (find b'-' spec ≡ some dash)
          × (range_parts size (take dash spec) (drop (suc dash) spec) ≡ some r))
unfolding parse_byte_range
parse_byte_range-parts header size r h =
    let spec = drop (length range_prefix) header in
    elim (Option-cases (find b'-' spec)) [
      | inl e ↦ ground (arith, e, h)
      | inr (dash, e) ↦ (ground (arith, h), (dash, e, ground (arith, e, h)))
    ]

-- A header is accepted with an offset and a length exactly if it is bytes=first-last, bytes=first- or
-- bytes=-count, each position a text of digits of at most 64 bits, and those are the offset and the length that
-- the standard gives to it. So a list of ranges, another unit and other bytes are refused, and so is a
-- larger position.
pub parse_byte_range-served :
    (header : Bytes) (size : ℕ) (r : ℕ × ℕ)
    → (parse_byte_range header size ≡ some r) ↔ IsRange header size r
parse_byte_range-served header size r = (accepted, ranged)
  where
    accepted : parse_byte_range header size ≡ some r → IsRange header size r
    accepted h =
        let spec = drop (length range_prefix) header in
        let (begins, (dash, at, parts)) = parse_byte_range-parts header size r h in
        let (d, d', v, v') =
          range_parts-some size (take dash spec) (drop (suc dash) spec) r parts in
        let whole : header ≡ range_prefix ++ (take dash spec ++ b'-' ∷ drop (suc dash) spec) =
          starts_with-append header range_prefix begins
          ∙ ap (λ t. range_prefix ++ t) (find-at b'-' spec dash at) in
        (
          take dash spec,
          drop (suc dash) spec,
          whole,
          d,
          d',
          v,
          v',
          sym (parse_byte_range_digits size (take dash spec) (drop (suc dash) spec) d d' v v')
              ∙ (ap (λ t. parse_byte_range t size) (sym whole) ∙ h),
        )

    ranged : IsRange header size r → parse_byte_range header size ≡ some r
    ranged (from, to, e, d, d', v, v', k) =
        ap (λ t. parse_byte_range t size) e ∙ (parse_byte_range_digits size from to d d' v v' ∙ k)

-- A header with a comma after its prefix, a list of ranges, is refused.
pub parse_byte_range-comma :
    (spec : Bytes) (size i : ℕ)
    → find b',' spec ≡ some i
    → parse_byte_range (range_prefix ++ spec) size ≡ none
unfolding parse_byte_range
parse_byte_range-comma spec size i h = elim (Option-cases (find b'-' spec)) [
  | inl e ↦ ground (arith, e)
  | inr (dash, e) ↦ ground (arith, e, h)
]
