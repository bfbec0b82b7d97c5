-- ===== src/Util/Base64/Accepts.antt =====
-- Which texts the decoder accepts.
use telegram_rest_gateway.Prelude.{
  ℕ, zero, suc, ◌<◌, ◌≡◌, refl, ◌⊎◌, inl, inr, Bool, true, false, ◌&&◌, ◌||◌, not, Option, none,
  some, [], ◌∷◌, arith, ltb, leb, if◌then◌else◌, Bool-cases, ◌==◌, nat_eq, Bytes, bytes_eq, length,
  keep_if, all,
}
use telegram_rest_gateway.Prelude.Text.{find}
use telegram_rest_gateway.Util.Base64.{
  pad, reverse, Decoder, is_blank, feed, decode_char, decode_loop, start, decode, alphabet,
}
use telegram_rest_gateway.Util.Base64.Sextets.{value_or}
use telegram_rest_gateway.Prelude.Tables.{table, table-at}
use telegram_rest_gateway.Util.Base64.RoundTrip.{AreBytes}

abbrev pub is_some : Option Bytes → Bool
is_some none = false
is_some (some x) = true

-- A letter, a digit, + or /.
abbrev pub is_symbol : ℕ → Bool
is_symbol c =
    (leb b'A' c && leb c b'Z')
    || (leb b'a' c && leb c b'z')
    || (leb b'0' c && leb c b'9')
    || c == b'+'
    || c == b'/'

-- Symbols, and then padding only.
abbrev pub symbols_then_padding : Bytes → Bool
symbols_then_padding [] = true
symbols_then_padding (c ∷ cs) =
    if c == pad then all (λ x. x == pad) cs else is_symbol c && symbols_then_padding cs

abbrev pub without_blanks : Bytes → Bytes
without_blanks = keep_if (λ c. not (is_blank c))

reverse_good : ℕ → Bool
reverse_good c = if is_symbol c then ltb (value_or (reverse c)) 64 else value_or (reverse c) == 64

reverse_table : table reverse_good 256 ≡ true
unfolding table reverse_good reverse
reverse_table = refl

find-lt : (c : ℕ) (s : Bytes) (i : ℕ) → find c s ≡ some i → i < length s
unfolding find
find-lt c [] i h = ground arith
find-lt c (x ∷ xs) zero h = ground arith
find-lt c (x ∷ xs) (suc i) h = ground (arith, find-lt c xs i)

-- A byte has a value exactly if it is a symbol.
reverse_symbol :
    (c : ℕ)
    → c < 256
    → ((v : ℕ) × (reverse c ≡ some v) × (is_symbol c ≡ true))
      ⊎ ((reverse c ≡ none) × (is_symbol c ≡ false))
unfolding reverse_good
reverse_symbol c h =
    split (reverse c) refl (Bool-cases (is_symbol c)) (table-at reverse_good 256 c h reverse_table)
  where
    split :
        (o : Option ℕ)
        → reverse c ≡ o
        → (is_symbol c ≡ true) ⊎ (is_symbol c ≡ false)
        → reverse_good c ≡ true
        → ((v : ℕ) × (reverse c ≡ some v) × (is_symbol c ≡ true))
          ⊎ ((reverse c ≡ none) × (is_symbol c ≡ false))
    split none e (inl s) t = absurd (false_true (rw (s, e) at t))
      where
        false_true : false ≡ true → ⊥
        false_true x = cc
    split none e (inr s) t = inr (e, s)
    split (some v) e (inl s) t = inl (v, e, s)
    split (some v) e (inr s) t =
        absurd (small (unfold reverse in find-lt c alphabet v e) (rw (s, e) at t))
      where
        small : v < 64 → (v == 64) ≡ true → ⊥
        small lt x = ground arith

seen-feed : (d : Decoder) (v : ℕ) → (feed d v).seen_padding ≡ d.seen_padding
unfolding feed
seen-feed d v = ground arith

abbrev expected : Bool → Bytes → Bool
expected true s = all (λ x. x == pad) s
expected false s = symbols_then_padding s

decode_loop_accepts :
    (s : Bytes) (d : Decoder)
    → AreBytes s
    → is_some (decode_loop d s) ≡ expected d.seen_padding (without_blanks s)
unfolding decode_loop decode_char
decode_loop_accepts [] d h = ground arith
decode_loop_accepts (c ∷ cs) d h = elim (reverse_symbol c h.0) [
  | inl (v, e, s) ↦ ground (
    arith,
    e,
    s,
    seen-feed d v,
    decode_loop_accepts cs (feed d v) h.1,
    decode_loop_accepts cs d h.1,
    decode_loop_accepts cs (record d { seen_padding = true }) h.1,
  )
  | inr (e, s) ↦ ground (
    arith,
    e,
    s,
    decode_loop_accepts cs d h.1,
    decode_loop_accepts cs (record d { seen_padding = true }) h.1,
  )
]

-- Decoding succeeds exactly on the texts that, with spaces, tabs and line ends dropped, are symbols
-- followed by nothing but padding.
pub decode_accepts :
    (s : Bytes) → AreBytes s → is_some (decode s) ≡ symbols_then_padding (without_blanks s)
unfolding decode
decode_accepts s h = decode_loop_accepts s start h
