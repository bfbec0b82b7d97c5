-- ===== src/Util/Base64/Sextets.antt =====
-- The symbols, and what four of them make of the decoder's variables.
use telegram_rest_gateway.Prelude.{
  ℕ, ◌+◌, ◌*◌, ◌/◌, ◌%◌, ◌<◌, ◌≡◌, refl, Bool, true, false, ◌&&◌, not, Option, none, some, [], ◌∷◌,
  ◌++◌, arith, ◌==◌, nat_eq, Bytes, bytes_eq,
}
use telegram_rest_gateway.Prelude.Tables.{table, table-at}
use telegram_rest_gateway.Util.Base64.{
  pad, symbol, reverse, u32, Decoder, is_blank, feed, decode_char, decode_loop,
}

-- The value that a character stands for, or 64.
abbrev pub value_or : Option ℕ → ℕ
value_or none = 64
value_or (some v) = v

good_symbol : ℕ → Bool
good_symbol i =
    not (is_blank (symbol i)) && not (symbol i == pad) && value_or (reverse (symbol i)) == i

symbol_table : table good_symbol 64 ≡ true
unfolding table good_symbol symbol reverse
symbol_table = refl

pub symbol_facts :
    (i : ℕ)
    → i < 64
    → (is_blank (symbol i) ≡ false) × ((symbol i == pad) ≡ false) × (reverse (symbol i) ≡ some i)
unfolding good_symbol
symbol_facts i h =
    let t = table-at good_symbol 64 i h symbol_table in
    (ground (arith, t), ground (arith, t), known (reverse (symbol i)) refl t)
  where
    known :
        (o : Option ℕ) → reverse (symbol i) ≡ o → good_symbol i ≡ true → reverse (symbol i) ≡ some i
    known none e t = absurd (ground (arith, e, t))
    known (some v) e t = ground (arith, e, t)

pub decode_char-symbol :
    (d : Decoder) (i : ℕ)
    → i < 64
    → d.seen_padding ≡ false
    → decode_char d (symbol i) ≡ some (feed d i)
unfolding decode_char
decode_char-symbol d i h p = ground (arith, symbol_facts i h)

-- A decoder between two groups.
abbrev pub at_group : Bytes → ℕ → Decoder
at_group out acc = record { out = out; acc = acc; bits = 0; seen_padding = false }

pub decode_loop-symbol :
    (d : Decoder) (i : ℕ) (cs : Bytes)
    → i < 64
    → d.seen_padding ≡ false
    → decode_loop d (symbol i ∷ cs) ≡ decode_loop (feed d i) cs
unfolding decode_loop
decode_loop-symbol d i cs h p = ground (arith, decode_char-symbol d i h p)

module _ (acc s t u v : ℕ) (hs : s < 64) (ht : t < 64) (hu : u < 64) (hv : v < 64) where
  abbrev acc_one : ℕ
  acc_one = acc * 64 % u32 + s

  abbrev acc_two : ℕ
  acc_two = acc_one * 64 % u32 + t

  abbrev acc_three : ℕ
  acc_three = acc_two * 64 % u32 + u

  abbrev acc_four : ℕ
  acc_four = acc_three * 64 % u32 + v

  byte_one : acc_two / 16 % 256 ≡ s * 4 + t / 16
  byte_one = omega arith

  byte_two : acc_three / 4 % 256 ≡ t % 16 * 16 + u / 4
  byte_two = omega arith

  byte_three : acc_four % 256 ≡ u % 4 * 64 + v
  byte_three = omega arith

  pub feed_four :
      (out : Bytes)
      → (acc' : ℕ) × (feed (feed (feed (feed (at_group out acc) s) t) u) v
          ≡ at_group
              (((out ++ (s * 4 + t / 16) ∷ []) ++ (t % 16 * 16 + u / 4) ∷ [])
                ++ (u % 4 * 64 + v) ∷ [])
              acc')
  unfolding feed
  feed_four out = (acc_four, ground (arith, byte_one, byte_two, byte_three))

  pub feed_three :
      (out : Bytes)
      → (feed (feed (feed (at_group out acc) s) t) u).out
        ≡ (out ++ (s * 4 + t / 16) ∷ []) ++ (t % 16 * 16 + u / 4) ∷ []
  unfolding feed
  feed_three out = ground (arith, byte_one, byte_two)

  pub feed_two :
      (out : Bytes) → (feed (feed (at_group out acc) s) t).out ≡ out ++ (s * 4 + t / 16) ∷ []
  unfolding feed
  feed_two out = ground (arith, byte_one)
