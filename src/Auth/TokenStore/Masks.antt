-- ===== src/Auth/TokenStore/Masks.antt =====
-- The scopes of a mask under `|`, and of a parsed scope list.
use Prim.Native.Nat.{bit_or}
use telegram_rest_gateway.Prelude.Text
use telegram_rest_gateway.Prelude.{
  ℕ, suc, ◌<◌, ◌≡◌, refl, Bool, true, false, ◌&&◌, ◌||◌, not, Option, none, some, List, [], ◌∷◌,
  arith, ltb, ◌==◌, nat_eq, Bytes, bytes_beq_iff, bytes_eq, codes, drop, any,
}
use telegram_rest_gateway.Prelude.Tables.{table, table-at}
use telegram_rest_gateway.Auth.TokenStore.{
  Scope, read, write, admin, scope_allows, split, item_bit, collect, parse_scopes, scopes_of,
  skip_blanks, parse_line,
}

same : Bool → Bool → Bool
same true b = b
same false b = not b

same_sound : (a b : Bool) → same a b ≡ true → a ≡ b
unfolding same
same_sound a b h = ground arith

or_row : ℕ → ℕ → Bool
or_row m n =
    ltb (bit_or m n) 8
    && same (scope_allows (bit_or m n) read) (scope_allows m read || scope_allows n read)
    && same (scope_allows (bit_or m n) write) (scope_allows m write || scope_allows n write)
    && same (scope_allows (bit_or m n) admin) (scope_allows m admin || scope_allows n admin)

or_table : table (λ m. table (or_row m) 8) 8 ≡ true
unfolding table or_row same scope_allows
or_table = refl

or_row_holds : (m n : ℕ) → m < 8 → n < 8 → or_row m n ≡ true
or_row_holds m n hm hn =
    table-at (or_row m) 8 n hn (table-at (λ k. table (or_row k) 8) 8 m hm or_table)

pub bit_or-lt : (m n : ℕ) → m < 8 → n < 8 → bit_or m n < 8
unfolding or_row
bit_or-lt m n hm hn = ground (arith, or_row_holds m n hm hn)

pub scope_allows-or :
    (s : Scope) (m n : ℕ)
    → m < 8
    → n < 8
    → scope_allows (bit_or m n) s ≡ (scope_allows m s || scope_allows n s)
unfolding or_row
scope_allows-or read m n hm hn = ground (
  arith,
  or_row_holds m n hm hn,
  same_sound (scope_allows (bit_or m n) read) (scope_allows m read || scope_allows n read),
)
scope_allows-or write m n hm hn = ground (
  arith,
  or_row_holds m n hm hn,
  same_sound (scope_allows (bit_or m n) write) (scope_allows m write || scope_allows n write),
)
scope_allows-or admin m n hm hn = ground (
  arith,
  or_row_holds m n hm hn,
  same_sound (scope_allows (bit_or m n) admin) (scope_allows m admin || scope_allows n admin),
)

pub scope_allows-zero : (s : Scope) → scope_allows 0 s ≡ false
unfolding scope_allows
scope_allows-zero read = refl
scope_allows-zero write = refl
scope_allows-zero admin = refl

-- The name of a scope in a scope list.
abbrev pub name_of : Scope → Bytes
name_of read = codes "read"
name_of write = codes "write"
name_of admin = codes "admin"

item_bit-lt : (item : Bytes) → item_bit item < 8
item_bit-lt item = ground arith

item_bit-allows : (s : Scope) (item : Bytes) → scope_allows (item_bit item) s ≡ (item == name_of s)
unfolding scope_allows
item_bit-allows read item = ground (
  arith,
  bytes_beq_iff item (codes "read"),
  bytes_beq_iff item (codes "write"),
  bytes_beq_iff item (codes "admin"),
)
item_bit-allows write item = ground (
  arith,
  bytes_beq_iff item (codes "read"),
  bytes_beq_iff item (codes "write"),
  bytes_beq_iff item (codes "admin"),
)
item_bit-allows admin item = ground (
  arith,
  bytes_beq_iff item (codes "read"),
  bytes_beq_iff item (codes "write"),
  bytes_beq_iff item (codes "admin"),
)

collect-lt : (mask : ℕ) (items : List Bytes) → mask < 8 → collect mask items < 8
unfolding collect
collect-lt mask [] h = h
collect-lt mask (item ∷ items) h =
    collect-lt (bit_or mask (item_bit item)) items
      (bit_or-lt mask (item_bit item) h (item_bit-lt item))

collect-allows :
    (s : Scope) (mask : ℕ) (items : List Bytes)
    → mask < 8
    → scope_allows (collect mask items) s
      ≡ (scope_allows mask s || any (λ item. item == name_of s) items)
unfolding collect
collect-allows s mask [] h = ground arith
collect-allows s mask (item ∷ items) h = ground (
  arith,
  collect-allows s (bit_or mask (item_bit item)) items
      (bit_or-lt mask (item_bit item) h (item_bit-lt item)),
  scope_allows-or s mask (item_bit item) h (item_bit-lt item),
  item_bit-allows s item,
)

-- A scope list grants a scope exactly if one of its items is that scope's name.
pub parse_scopes-allows :
    (s : Scope) (spec : Bytes)
    → scope_allows (parse_scopes spec) s ≡ any (λ item. item == name_of s) (split b',' spec)
unfolding parse_scopes
parse_scopes-allows s spec =
    ground (arith, collect-allows s 0 (split b',' spec) (omega arith), scope_allows-zero s)

scopes_of-lt : (spec : Bytes) → scopes_of spec < 8
unfolding parse_scopes
scopes_of-lt [] = omega arith
scopes_of-lt (c ∷ cs) = collect-lt 0 (split b',' (c ∷ cs)) (omega arith)

pub parse_line-lt :
    (line token : Bytes) (mask : ℕ) → parse_line line ≡ some (token, mask) → mask < 8
unfolding parse_line
parse_line-lt line token mask h =
    ground (arith, h, scopes_of-lt (skip_blanks (drop (suc (space_or (Text.find 32 line))) line)))
  where
    space_or : Option ℕ → ℕ
    space_or none = 0
    space_or (some i) = i
