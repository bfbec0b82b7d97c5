-- ===== src/Http/Helpers/Status.antt =====
-- The status and the Retry-After of an error of TDLib.
pub mod Tests
use telegram_rest_gateway.Prelude.{
  ℕ, zero, suc, ◌+◌, ◌-◌, ◌*◌, ◌/◌, ◌%◌, ◌^◌, ◌≤◌, ◌<◌, min, max, ◌≡◌, refl, sym, ap, ◌∙◌, subst,
  ◌≢◌, ◌↔◌, ◌⊎◌, inl, inr, Bool, true, false, ◌&&◌, ◌||◌, not, Option, none, some, List, [], ◌∷◌,
  ◌++◌, map, arith, ltb, leb, ltb→lt, lt→ltb, leb→le, if◌then◌else◌, Bool-cases, Option-cases, Eq,
  ◌==◌, eq_refl, nat_eq, Bytes, bytes_beq_iff, nat_beq_iff, bytes_eq, codes, length, get_elem?,
  get_or, take, drop, keep_if, all, any, length-append, length-keep_if-le, take-append-drop,
  length-take, length-drop, drop-append, take-append, All, All-append, All-map, All-keep_if, All-at,
  some-injective,
}
use telegram_rest_gateway.Prelude.Text.{is_digit}
use telegram_rest_gateway.Http.ScopePolicy.{ascii_lower}
use telegram_rest_gateway.Http.Helpers.{
  begins_no_case, find_no_case, is_some, contains_no_case, skip_to_digit, leading_digits, long_max,
  value_from, number_of, parse_trailing_number, TdError, http_status_for_td_error,
  retry_after_seconds, telegram_error,
}

lower_lower : (c : ℕ) → ascii_lower (ascii_lower c) ≡ ascii_lower c
unfolding ascii_lower
lower_lower c = ground arith

begins_lower : (s p : Bytes) → begins_no_case (map ascii_lower s) p ≡ begins_no_case s p
unfolding begins_no_case
begins_lower s [] = refl
begins_lower [] (p ∷ ps) = refl
begins_lower (c ∷ s) (p ∷ ps) = ground (arith, lower_lower c, begins_lower s ps)

find_lower : (s p : Bytes) → find_no_case (map ascii_lower s) p ≡ find_no_case s p
unfolding find_no_case
find_lower [] p = refl
find_lower (c ∷ s) p = rw (begins_lower (c ∷ s) p, find_lower s p)

-- The status of an error does not depend on the case of its message.
pub http_status_lower :
    (code : ℕ) (message : Bytes)
    → http_status_for_td_error (record { code = code; message = map ascii_lower message })
      ≡ http_status_for_td_error (record { code = code; message = message })
unfolding http_status_for_td_error contains_no_case
http_status_lower code message = rw (
  find_lower message (codes "not found"),
  find_lower message (codes "FLOOD_WAIT"),
  begins_lower message (codes "Too Many Requests"),
)

leading-digits : (s : Bytes) → all is_digit s ≡ true → leading_digits s ≡ s
unfolding leading_digits
leading-digits [] h = refl
leading-digits (c ∷ s) h = ground (arith, h, leading-digits s)

skip-digits : (c : ℕ) (s : Bytes) → is_digit c ≡ true → skip_to_digit (c ∷ s) ≡ c ∷ s
unfolding skip_to_digit
skip-digits c s h = ground (arith, h)

number-digits :
    (c : ℕ) (s : Bytes)
    → value_from 0 (c ∷ s) ≤ long_max
    → number_of (c ∷ s) ≡ some (value_from 0 (c ∷ s))
unfolding number_of
number-digits c s h = ground (arith, h)

head_digit : (c : ℕ) (s : Bytes) → all is_digit (c ∷ s) ≡ true → is_digit c ≡ true
head_digit c s h = ground (arith, h)

trailing :
    (c : ℕ) (s : Bytes)
    → all is_digit (c ∷ s) ≡ true
    → value_from 0 (c ∷ s) ≤ long_max
    → number_of (leading_digits (skip_to_digit (c ∷ s))) ≡ some (value_from 0 (c ∷ s))
trailing c s h le =
    ap (λ x. number_of (leading_digits x)) (skip-digits c s (head_digit c s h))
    ∙ (ap number_of (leading-digits (c ∷ s) h) ∙ number-digits c s le)

retries :
    (c : ℕ) (s : Bytes)
    → all is_digit (c ∷ s) ≡ true
    → value_from 0 (c ∷ s) ≤ long_max
    → retry_after_seconds (codes "Too Many Requests: retry after " ++ c ∷ s)
      ≡ some (value_from 0 (c ∷ s))
unfolding retry_after_seconds parse_trailing_number find_no_case begins_no_case ascii_lower
    skip_to_digit is_digit
retries c s h le = trailing c s h le

-- The error 429 with the text "Too Many Requests: retry after N", N a number of any digits in the range
-- of a long, is answered with the status 429 and the header Retry-After: N.
pub telegram_error-flood :
    (c : ℕ) (s : Bytes)
    → all is_digit (c ∷ s) ≡ true
    → value_from 0 (c ∷ s) ≤ long_max
    → let r =
        telegram_error
          (record { code = 429; message = codes "Too Many Requests: retry after " ++ c ∷ s }) in
      (r.status ≡ 429) × (r.retry_after ≡ some (value_from 0 (c ∷ s)))
unfolding telegram_error http_status_for_td_error
telegram_error-flood c s h le = (refl, retries c s h le)
