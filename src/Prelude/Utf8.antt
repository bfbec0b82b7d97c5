-- ===== src/Prelude/Utf8.antt =====
-- UTF-8, as what jsoncpp's writer and reader keep of a text.
use Prim.Native.Nat.{ℕ, zero, suc}
use mathlib.Core.Path.{◌≡◌, refl}
use mathlib.Core.Bool.{Bool, true, false, ◌&&◌}
use mathlib.Core.Option.{Option, none, some}
use mathlib.Core.List.{[], ◌∷◌}
use native.Mathlib.Omega.{arith}
use telegram_rest_gateway.Prelude.Tests.{ltb, leb, if◌then◌else◌}
use telegram_rest_gateway.Prelude.Lists.{take, all}
use telegram_rest_gateway.Prelude.Equality.{Bytes, ◌==◌, nat_eq}

-- What the first byte of a character of UTF-8 asks for: so many bytes more, and the bounds of the next one.
abbrev pub lead : ℕ → Option (ℕ × ℕ × ℕ)
lead c =
    if ltb c 128
    then some (0, 0, 0)
    else if leb 194 c && leb c 223
    then some (1, 128, 191)
    else if c == 224
    then some (2, 160, 191)
    else if c == 237
    then some (2, 128, 159)
    else if leb 225 c && leb c 239
    then some (2, 128, 191)
    else if c == 240
    then some (3, 144, 191)
    else if leb 241 c && leb c 243
    then some (3, 128, 191)
    else if c == 244
    then some (3, 128, 143)
    else none

-- UTF-8 as RFC 3629 has it, within a character that has so many bytes left.
abbrev pub is_utf8_after : ℕ × ℕ × ℕ → Bytes → Bool
is_utf8_after (zero, lo, hi) [] = true
is_utf8_after (suc n, lo, hi) [] = false
is_utf8_after (zero, lo, hi) (c ∷ s) = elim (lead c) [
  | none ↦ false
  | some next ↦ is_utf8_after next s
]
is_utf8_after (suc n, lo, hi) (c ∷ s) = leb lo c && leb c hi && is_utf8_after (n, 128, 191) s

abbrev pub is_utf8 : Bytes → Bool
is_utf8 s = is_utf8_after (0, 0, 0) s

-- A text of ASCII is UTF-8, and so is its start.
pub ascii-take : (n : ℕ) (s : Bytes) → all (λ c. ltb c 128) s ≡ true → is_utf8 (take n s) ≡ true
ascii-take zero [] h = refl
ascii-take (suc n) [] h = refl
ascii-take zero (c ∷ s) h = refl
ascii-take (suc n) (c ∷ s) h = ground (arith, h, ascii-take n s)
