-- ===== src/Util/Base64/RoundTrip.antt =====
-- Decoding undoes encoding.
use mathlib.Core.List.{append_assoc, append-nil}
use telegram_rest_gateway.Prelude.{
  ℕ, ◌+◌, ◌*◌, ◌/◌, ◌%◌, ◌<◌, ◌≡◌, refl, sym, ap, ◌∙◌, true, false, some, [], ◌∷◌, ◌++◌, arith,
  nat_eq, Bytes, bytes_eq, length, All,
}
use telegram_rest_gateway.Util.Base64.{
  pad, symbol, encode, Decoder, feed, decode_char, decode_loop, decode,
}
use telegram_rest_gateway.Util.Base64.Sextets.{
  at_group, decode_loop-symbol, feed_four, feed_three, feed_two,
}

abbrev pub AreBytes : Bytes → Type 0
AreBytes = All (λ x. x < 256)

decode_loop-pad :
    (d : Decoder) (cs : Bytes)
    → decode_loop d (pad ∷ cs) ≡ decode_loop (record d { seen_padding = true }) cs
unfolding decode_loop decode_char
decode_loop-pad d cs = refl

decode_loop-end : (d : Decoder) → decode_loop d [] ≡ some d.out
unfolding decode_loop
decode_loop-end d = refl

-- The sextets of a group give back its bytes.
group_one :
    (a b c : ℕ)
    → a < 256
    → b < 256
    → c < 256
    → let n = a * 65536 + b * 256 + c in
      (n / 262144 % 64 * 4 + n / 4096 % 64 / 16 ≡ a)
      × (n / 4096 % 64 % 16 * 16 + n / 64 % 64 / 4 ≡ b)
      × (n / 64 % 64 % 4 * 64 + n % 64 ≡ c)
group_one a b c ha hb hc = omega arith

group_two :
    (a b : ℕ)
    → a < 256
    → b < 256
    → (a / 4 % 64 * 4 + (a * 16 + b / 16) % 64 / 16 ≡ a)
      × ((a * 16 + b / 16) % 64 % 16 * 16 + b * 4 % 64 / 4 ≡ b)
group_two a b ha hb = omega arith

group_three : (a : ℕ) → a < 256 → a / 4 % 64 * 4 + a * 16 % 64 / 16 ≡ a
group_three a ha = omega arith

seen-feed : (d : Decoder) (v : ℕ) → (feed d v).seen_padding ≡ d.seen_padding
unfolding feed
seen-feed d v = ground arith

four_symbols :
    (out : Bytes) (acc s t u v : ℕ) (cs : Bytes)
    → s < 64
    → t < 64
    → u < 64
    → v < 64
    → decode_loop (at_group out acc) (symbol s ∷ symbol t ∷ symbol u ∷ symbol v ∷ cs)
      ≡ decode_loop (feed (feed (feed (feed (at_group out acc) s) t) u) v) cs
four_symbols out acc s t u v cs hs ht hu hv =
    let d = at_group out acc in
    let d1 = feed d s in
    let d2 = feed d1 t in
    let d3 = feed d2 u in
    let p1 : d1.seen_padding ≡ false = seen-feed d s in
    let p2 : d2.seen_padding ≡ false = seen-feed d1 t ∙ p1 in
    let p3 : d3.seen_padding ≡ false = seen-feed d2 u ∙ p2 in
    decode_loop-symbol d s _ hs refl
    ∙ decode_loop-symbol d1 t _ ht p1
    ∙ decode_loop-symbol d2 u _ hu p2
    ∙ decode_loop-symbol d3 v cs hv p3

three_symbols :
    (out : Bytes) (acc s t u : ℕ)
    → s < 64
    → t < 64
    → u < 64
    → decode_loop (at_group out acc) (symbol s ∷ symbol t ∷ symbol u ∷ pad ∷ [])
      ≡ some (feed (feed (feed (at_group out acc) s) t) u).out
three_symbols out acc s t u hs ht hu =
    let d = at_group out acc in
    let d1 = feed d s in
    let d2 = feed d1 t in
    let p1 : d1.seen_padding ≡ false = seen-feed d s in
    let p2 : d2.seen_padding ≡ false = seen-feed d1 t ∙ p1 in
    decode_loop-symbol d s _ hs refl
    ∙ decode_loop-symbol d1 t _ ht p1
    ∙ decode_loop-symbol d2 u _ hu p2
    ∙ decode_loop-pad (feed d2 u) []
    ∙ decode_loop-end (record (feed d2 u) { seen_padding = true })

two_symbols :
    (out : Bytes) (acc s t : ℕ)
    → s < 64
    → t < 64
    → decode_loop (at_group out acc) (symbol s ∷ symbol t ∷ pad ∷ pad ∷ [])
      ≡ some (feed (feed (at_group out acc) s) t).out
two_symbols out acc s t hs ht =
    let d = at_group out acc in
    let d1 = feed d s in
    let p1 : d1.seen_padding ≡ false = seen-feed d s in
    let d2 = feed d1 t in
    decode_loop-symbol d s _ hs refl
    ∙ decode_loop-symbol d1 t _ ht p1
    ∙ decode_loop-pad d2 (pad ∷ [])
    ∙ decode_loop-pad (record d2 { seen_padding = true }) []
    ∙ decode_loop-end (record d2 { seen_padding = true })

three_appends :
    (out : Bytes) (a b c : ℕ) (rest : Bytes)
    → (((out ++ a ∷ []) ++ b ∷ []) ++ c ∷ []) ++ rest ≡ out ++ a ∷ b ∷ c ∷ rest
three_appends out a b c rest = simp append_assoc

length-encode : (xs : Bytes) → length (encode xs) ≡ 4 * ((length xs + 2) / 3)
unfolding encode
length-encode [] = refl
length-encode (a ∷ []) = refl
length-encode (a ∷ b ∷ []) = refl
length-encode (a ∷ b ∷ c ∷ rest) = omega (arith, length-encode rest)

decode_loop-encode :
    (xs out : Bytes) (acc : ℕ)
    → AreBytes xs
    → decode_loop (at_group out acc) (encode xs) ≡ some (out ++ xs)
unfolding encode
decode_loop-encode [] out acc h =
    decode_loop-end (at_group out acc) ∙ ap some (sym (append-nil out))
decode_loop-encode (a ∷ []) out acc h =
    two_symbols out acc (a / 4 % 64) (a * 16 % 64) (omega arith) (omega arith)
    ∙ ap some (
        feed_two acc (a / 4 % 64) (a * 16 % 64) 0 0 (omega arith) (omega arith) (omega arith)
          (omega arith) out
        ∙ ap (λ x. out ++ x ∷ []) (group_three a h.0))
decode_loop-encode (a ∷ b ∷ []) out acc h =
    let g = group_two a b h.0 h.1.0 in
    three_symbols out acc (a / 4 % 64) ((a * 16 + b / 16) % 64) (b * 4 % 64) (omega arith)
      (omega arith) (omega arith)
    ∙ ap some (
        feed_three acc (a / 4 % 64) ((a * 16 + b / 16) % 64) (b * 4 % 64) 0 (omega arith)
          (omega arith) (omega arith) (omega arith) out
        ∙ rw (g.0, g.1) (append_assoc out (a ∷ []) (b ∷ [])))
decode_loop-encode (a ∷ b ∷ c ∷ rest) out acc h =
    let n = a * 65536 + b * 256 + c in
    let g = group_one a b c h.0 h.1.0 h.1.1.0 in
    let (acc', e) =
      feed_four acc (n / 262144 % 64) (n / 4096 % 64) (n / 64 % 64) (n % 64) (omega arith)
        (omega arith) (omega arith) (omega arith) out in
    let out' = ((out ++ a ∷ []) ++ b ∷ []) ++ c ∷ [] in
    four_symbols out acc (n / 262144 % 64) (n / 4096 % 64) (n / 64 % 64) (n % 64) (encode rest)
      (omega arith) (omega arith) (omega arith) (omega arith)
    ∙ ap (λ d. decode_loop d (encode rest)) e
    ∙ rw (g.0, g.1, g.2) (decode_loop-encode rest out' acc' h.1.1.1)
    ∙ ap some (three_appends out a b c rest)

-- Decoding the encoding of any bytes gives them back, and the encoding has four characters for each
-- three bytes begun.
pub decode-encode :
    (xs : Bytes)
    → AreBytes xs
    → (decode (encode xs) ≡ some xs) × (length (encode xs) ≡ 4 * ((length xs + 2) / 3))
unfolding decode
decode-encode xs h = (decode_loop-encode xs [] 0 h, length-encode xs)
