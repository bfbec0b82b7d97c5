-- ===== src/Util/Base64.antt =====
-- src/util/base64.cpp. Bytes are numbers below 256; where the source joins disjoint bits by `|`, the
-- model adds, and `& 63` is `% 64`.
pub mod Sextets
pub mod RoundTrip
pub mod Accepts
pub mod Tests
use telegram_rest_gateway.Prelude.{
  ℕ, zero, suc, ◌+◌, ◌-◌, ◌*◌, ◌/◌, ◌%◌, ◌^◌, ◌≤◌, ◌<◌, min, max, ◌≡◌, refl, sym, ap, ◌∙◌, subst,
  ◌≢◌, ◌↔◌, ◌⊎◌, inl, inr, Bool, true, false, ◌&&◌, ◌||◌, not, Option, none, some, List, [], ◌∷◌,
  ◌++◌, map, arith, ltb, leb, ltb→lt, lt→ltb, leb→le, if◌then◌else◌, Bool-cases, Option-cases, Eq,
  ◌==◌, eq_refl, nat_eq, Bytes, bytes_beq_iff, nat_beq_iff, bytes_eq, codes, length, get_elem?,
  get_or, take, drop, keep_if, all, any, length-append, length-keep_if-le, take-append-drop,
  length-take, length-drop, drop-append, take-append, All, All-append,
}
use telegram_rest_gateway.Prelude.Text.{find}

abbrev pub alphabet : Bytes
alphabet = codes "ABCDEFGHIJKLMNOPQRSTUVWXYZabcdefghijklmnopqrstuvwxyz0123456789+/"

abbrev pub pad : ℕ
pad = b'='

-- kAlphabet[i]
unfoldable pub symbol : ℕ → ℕ
symbol i = get_or alphabet i 0

-- kReverse[c] of buildReverse: the place of the symbol, and `none` for -1.
unfoldable pub reverse : ℕ → Option ℕ
unfolding find
reverse c = find c alphabet

-- base64Encode: the loop over groups of three, and the one or two bytes left.
unfoldable pub encode : Bytes → Bytes
unfolding symbol
encode [] = []
encode (a ∷ []) = symbol (a / 4 % 64) ∷ symbol (a * 16 % 64) ∷ pad ∷ pad ∷ []
encode (a ∷ b ∷ []) =
    symbol (a / 4 % 64) ∷ symbol ((a * 16 + b / 16) % 64) ∷ symbol (b * 4 % 64) ∷ pad ∷ []
encode (a ∷ b ∷ c ∷ rest) =
    let n = a * 65536 + b * 256 + c in
    symbol (n / 262144 % 64)
    ∷ symbol (n / 4096 % 64)
    ∷ symbol (n / 64 % 64)
    ∷ symbol (n % 64)
    ∷ encode rest

abbrev pub u32 : ℕ
u32 = 2 ^ 32

-- The variables of the loop of base64Decode: `acc` is a uint32_t, `out` is in order.
pub record Decoder : Type 0 where
  pub out : Bytes
  pub acc : ℕ
  pub bits : ℕ
  pub seen_padding : Bool

abbrev pub is_blank : ℕ → Bool
is_blank c = c == 10 || c == 13 || c == 32 || c == 9

-- A data symbol of value `v`.
unfoldable pub feed : Decoder → ℕ → Decoder
feed d v =
    let acc = d.acc * 64 % u32 + v in
    let bits = d.bits + 6 in
    if leb 8 bits
    then record d { out = d.out ++ (acc / 2 ^ (bits - 8) % 256) ∷ []; acc = acc; bits = bits - 8 }
    else record d { acc = acc; bits = bits }

-- One round of the loop; `none` is std::nullopt.
unfoldable pub decode_char : Decoder → ℕ → Option Decoder
unfolding feed reverse
decode_char d c =
    if is_blank c
    then some d
    else if c == pad
    then some (record d { seen_padding = true })
    else if d.seen_padding
    then none
    else elim (reverse c) [ none ↦ none | some v ↦ some (feed d v) ]

unfoldable pub decode_loop : Decoder → Bytes → Option Bytes
unfolding decode_char
decode_loop d [] = some d.out
decode_loop d (c ∷ cs) = elim (decode_char d c) [ none ↦ none | some d' ↦ decode_loop d' cs ]

abbrev pub start : Decoder
start = record { out = []; acc = 0; bits = 0; seen_padding = false }

unfoldable pub decode : Bytes → Option Bytes
unfolding decode_loop
decode s = decode_loop start s
