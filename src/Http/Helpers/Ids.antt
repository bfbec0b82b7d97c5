-- ===== src/Http/Helpers/Ids.antt =====
-- src/http/http_helpers.hpp: the id in the path of a request, and that the ids of answers are read back.
pub mod Tests
use telegram_rest_gateway.Prelude.{
  ℕ, zero, suc, ◌+◌, ◌-◌, ◌*◌, ◌/◌, ◌%◌, ◌^◌, ◌≤◌, ◌<◌, min, max, ◌≡◌, refl, sym, ap, ◌∙◌, subst,
  ◌≢◌, ◌↔◌, ◌⊎◌, inl, inr, Bool, true, false, ◌&&◌, ◌||◌, not, Option, none, some, List, [], ◌∷◌,
  ◌++◌, map, arith, ltb, leb, ltb→lt, lt→ltb, leb→le, if◌then◌else◌, Bool-cases, Option-cases, Eq,
  ◌==◌, eq_refl, nat_eq, Bytes, bytes_beq_iff, nat_beq_iff, bytes_eq, codes, length, get_elem?,
  get_or, take, drop, keep_if, all, any, length-append, length-keep_if-le, take-append-drop,
  length-take, length-drop, drop-append, take-append, All, All-append, All-map, All-keep_if, All-at,
  some-injective,
}
use telegram_rest_gateway.Prelude.Int.{ℤ, pos, negsuc, decimal, to_string, value_from}
use telegram_rest_gateway.Prelude.Json.{Json, string, member}
use telegram_rest_gateway.Config.Environment.{
  NumberType, is_digit, Parsed, parsed, invalid_argument, result_out_of_range, parse_unsigned,
  parse_negative,
}
use telegram_rest_gateway.Config.Numbers.{
  in_range, decimal_lem, decimal-ne-nil, parse_unsigned_lem, parse_negative_lem,
}
use telegram_rest_gateway.Dto.Objects.{Message}
use telegram_rest_gateway.Dto.Projections.{message_to_json}
use telegram_rest_gateway.Dto.Members.{message_to_json-id, message_to_json-chat_id}

abbrev pub int64 : NumberType
int64 = record { is_signed = true; largest = 2 ^ 63 - 1 }

-- isspace of the C locale.
abbrev is_white : ℕ → Bool
is_white c = c == 32 || (leb 9 c && leb c 13)

unfoldable pub skip_white : Bytes → Bytes
skip_white [] = []
skip_white (c ∷ s) = if is_white c then skip_white s else c ∷ s

-- std::stoll in base 10: white space, a sign, and the digits.
unfoldable pub signed_digits : Bytes → Parsed
unfolding parse_unsigned parse_negative
signed_digits [] = invalid_argument
signed_digits (c ∷ s) =
    if c == b'-'
    then parse_negative int64 s
    else if c == b'+'
    then parse_unsigned int64 s
    else parse_unsigned int64 (c ∷ s)

unfoldable pub stoll : Bytes → Parsed
unfolding skip_white signed_digits
stoll s = signed_digits (skip_white s)

-- The id, if stoll throws nothing and reads the whole text.
unfoldable pub whole_text : Parsed → Option ℤ
whole_text (parsed n []) = some n
whole_text _ = none

unfoldable pub parse_id : Bytes → Option ℤ
unfolding stoll whole_text
parse_id [] = none
parse_id (c ∷ s) = whole_text (stoll (c ∷ s))

digits_first :
    (s : Bytes) → all is_digit s ≡ true → s ≢ [] → parse_id s ≡ whole_text (parse_unsigned int64 s)
unfolding parse_id stoll skip_white signed_digits
digits_first [] d ne = absurd (ne refl)
digits_first (c ∷ s) d ne = ground (arith, d)

minus_first : (s : Bytes) → parse_id (b'-' ∷ s) ≡ whole_text (parse_negative int64 s)
unfolding parse_id stoll skip_white signed_digits
minus_first s = refl

-- Each 64-bit integer is read back from its decimal text.
parse_id-to_string : (n : ℤ) → in_range int64 n ≡ true → parse_id (to_string n) ≡ some n
unfolding to_string whole_text
parse_id-to_string (pos n) h =
    let (d, v) = decimal_lem n in
    digits_first (decimal n) d (decimal-ne-nil n)
    ∙ (ap whole_text
          (parse_unsigned_lem int64 (decimal n) d (decimal-ne-nil n) (ground (arith, v, h)))
        ∙ ap some (ap pos v))
parse_id-to_string (negsuc n) h =
    let (d, v) = decimal_lem (suc n) in
    minus_first (decimal (suc n))
    ∙ (ap whole_text (
          parse_negative_lem int64 (decimal (suc n)) d (decimal-ne-nil (suc n))
            (ground (arith, v, h)) (ground (arith, v, h)))
        ∙ ap some (ap negsuc (omega (arith, v))))

-- What a client reads in an answer under a key, as the id of its next request.
abbrev id_of : Option Json → Option ℤ
id_of (some (string t)) = parse_id t
id_of _ = none

abbrev pub id_in : Bytes → Json → Option ℤ
id_in key json = id_of (member key json)

-- A client that puts the id of a message, or of its chat, from an answer into the path of a request names the
-- same message and the same chat, for every 64-bit id.
pub parse_id-message_to_json :
    (m : Message)
    → in_range int64 m.id ≡ true
    → in_range int64 m.chat_id ≡ true
    → (id_in (codes "id") (message_to_json m) ≡ some m.id)
      × (id_in (codes "chat_id") (message_to_json m) ≡ some m.chat_id)
parse_id-message_to_json m h h' = (
  ap id_of (message_to_json-id m) ∙ parse_id-to_string m.id h,
  ap id_of (message_to_json-chat_id m) ∙ parse_id-to_string m.chat_id h',
)
