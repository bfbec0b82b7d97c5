-- ===== src/Http/Helpers.antt =====
-- src/http/http_helpers.hpp: the answer to an error of TDLib. A text is its bytes. The response is its
-- status, its Retry-After and the error in it. The ids in paths are in Helpers/Ids.
pub mod Status
pub mod Ids
use telegram_rest_gateway.Prelude.{
  ℕ, zero, suc, ◌+◌, ◌-◌, ◌*◌, ◌/◌, ◌%◌, ◌^◌, ◌≤◌, ◌<◌, min, max, ◌≡◌, refl, sym, ap, ◌∙◌, subst,
  ◌≢◌, ◌↔◌, ◌⊎◌, inl, inr, Bool, true, false, ◌&&◌, ◌||◌, not, Option, none, some, List, [], ◌∷◌,
  ◌++◌, map, arith, ltb, leb, ltb→lt, lt→ltb, leb→le, if◌then◌else◌, Bool-cases, Option-cases, Eq,
  ◌==◌, eq_refl, nat_eq, Bytes, bytes_beq_iff, nat_beq_iff, bytes_eq, codes, length, get_elem?,
  get_or, take, drop, keep_if, all, any, length-append, length-keep_if-le, take-append-drop,
  length-take, length-drop, drop-append, take-append, All, All-append, All-map, All-keep_if, All-at,
  some-injective,
}
use telegram_rest_gateway.Prelude.Text.{is_digit}
use telegram_rest_gateway.Http.ScopePolicy.{ascii_lower}

-- startsWithNoCase
unfoldable pub begins_no_case : Bytes → Bytes → Bool
begins_no_case s [] = true
begins_no_case [] (p ∷ ps) = false
begins_no_case (c ∷ s) (p ∷ ps) =
    let rest = begins_no_case s ps in if ascii_lower c == ascii_lower p then rest else false

-- The first place of the needle; none is npos.
unfoldable pub find_no_case : Bytes → Bytes → Option ℕ
unfolding begins_no_case
find_no_case [] needle = if begins_no_case [] needle then some 0 else none
find_no_case (c ∷ s) needle =
    let rest = find_no_case s needle in
    if begins_no_case (c ∷ s) needle
    then some 0
    else elim rest [ none ↦ none | some i ↦ some (suc i) ]

unfoldable pub is_some {ℓ} : {A : Type ℓ} → Option A → Bool
is_some none = false
is_some (some a) = true

unfoldable pub contains_no_case : Bytes → Bytes → Bool
unfolding find_no_case is_some
contains_no_case s needle = is_some (find_no_case s needle)

unfoldable pub skip_to_digit : Bytes → Bytes
skip_to_digit [] = []
skip_to_digit (c ∷ s) = if is_digit c then c ∷ s else skip_to_digit s

unfoldable pub leading_digits : Bytes → Bytes
leading_digits [] = []
leading_digits (c ∷ s) = if is_digit c then c ∷ leading_digits s else []

-- std::from_chars to a long of 64 bits: none on overflow.
unfoldable pub long_max : ℕ
long_max = 2 ^ 63 - 1

unfoldable pub value_from : ℕ → Bytes → ℕ
value_from acc [] = acc
value_from acc (c ∷ s) = value_from (acc * 10 + (c - b'0')) s

unfoldable pub number_of : Bytes → Option ℕ
unfolding value_from
number_of [] = none
number_of (c ∷ s) =
    if leb (value_from 0 (c ∷ s)) long_max then some (value_from 0 (c ∷ s)) else none

unfoldable pub parse_trailing_number : Bytes → ℕ → Option ℕ
unfolding skip_to_digit leading_digits number_of
parse_trailing_number s from = number_of (leading_digits (skip_to_digit (drop from s)))

-- td_api::error; the code is an int32, and only its comparisons with 400 and 429 matter.
pub record TdError : Type 0 where
  pub code : ℕ
  pub message : Bytes

unfoldable pub http_status_for_td_error : TdError → ℕ
unfolding contains_no_case begins_no_case
http_status_for_td_error e =
    if e.code == 400
    then (if contains_no_case e.message (codes "not found") then 404 else 400)
    else if e.code == 429
        || begins_no_case e.message (codes "Too Many Requests")
        || contains_no_case e.message (codes "FLOOD_WAIT")
    then 429
    else 502

unfoldable pub retry_after_seconds : Bytes → Option ℕ
unfolding find_no_case parse_trailing_number
retry_after_seconds message = elim (find_no_case message (codes "retry after")) [
  | some pos ↦ parse_trailing_number message pos
  | none ↦ elim (find_no_case message (codes "FLOOD_WAIT_")) [
    | some pos ↦ parse_trailing_number message pos
    | none ↦ none
  ]
]

pub record ErrorResponse : Type 0 where
  pub status : ℕ
  pub retry_after : Option ℕ
  pub tdlib_code : ℕ
  pub message : Bytes

unfoldable pub telegram_error : TdError → ErrorResponse
unfolding http_status_for_td_error retry_after_seconds
telegram_error e =
    let status = http_status_for_td_error e in
    record {
      status = status;
      retry_after = if status == 429 then retry_after_seconds e.message else none;
      tdlib_code = e.code;
      message = e.message;
    }
