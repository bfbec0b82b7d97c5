-- ===== src/Auth/TokenStore.antt =====
-- src/auth/token_store.{hpp,cpp}: API tokens with their scopes. Of OpenSSL's SHA-256 the store uses
-- only that it is a function, so it is a parameter; CRYPTO_memcmp tells whether two digests are equal.
use Prim.Native.Nat.{bit_and, bit_or}
pub mod Masks
pub mod Verify
use telegram_rest_gateway.Prelude.{
  ℕ, zero, suc, ◌+◌, ◌-◌, ◌*◌, ◌/◌, ◌%◌, ◌^◌, ◌≤◌, ◌<◌, min, max, ◌≡◌, refl, sym, ap, ◌∙◌, subst,
  ◌≢◌, ◌↔◌, ◌⊎◌, inl, inr, Bool, true, false, ◌&&◌, ◌||◌, not, Option, none, some, List, [], ◌∷◌,
  ◌++◌, map, arith, ltb, leb, ltb→lt, lt→ltb, leb→le, if◌then◌else◌, Bool-cases, Option-cases, Eq,
  ◌==◌, eq_refl, nat_eq, Bytes, bytes_beq_iff, nat_beq_iff, bytes_eq, codes, length, get_elem?,
  get_or, take, drop, keep_if, all, any, length-append, length-keep_if-le, take-append-drop,
  length-take, length-drop, drop-append, take-append, All, All-append,
}
use telegram_rest_gateway.Prelude.Text.{find}

pub data Scope : Type 0 where
  read write admin : Scope

-- The bit of a scope in a mask, a uint8_t.
abbrev pub scope_bit : Scope → ℕ
scope_bit read = 1
scope_bit write = 2
scope_bit admin = 4

abbrev pub all_scopes : ℕ
all_scopes = 7

unfoldable pub scope_allows : ℕ → Scope → Bool
scope_allows mask s = not (bit_and mask (scope_bit s) == 0)

-- std::getline(ss, item, ','): the items between commas.
add_to_first : ℕ → List Bytes → List Bytes
add_to_first c [] = (c ∷ []) ∷ []
add_to_first c (item ∷ items) = (c ∷ item) ∷ items

unfoldable pub split : ℕ → Bytes → List Bytes
unfolding add_to_first
split sep [] = [] ∷ []
split sep (c ∷ cs) = if c == sep then [] ∷ split sep cs else add_to_first c (split sep cs)

-- The bit that one item of a scope list adds; an unknown item adds none.
abbrev pub item_bit : Bytes → ℕ
item_bit item =
    if item == codes "read"
    then scope_bit read
    else if item == codes "write"
    then scope_bit write
    else if item == codes "admin"
    then scope_bit admin
    else 0

unfoldable pub collect : ℕ → List Bytes → ℕ
collect mask [] = mask
collect mask (item ∷ items) = collect (bit_or mask (item_bit item)) items

unfoldable pub parse_scopes : Bytes → ℕ
unfolding collect split
parse_scopes spec = collect 0 (split b',' spec)

abbrev pub is_blank : ℕ → Bool
is_blank c = c == 32 || c == 9

-- spec.erase(0, spec.find_first_not_of(" \t"))
unfoldable pub skip_blanks : Bytes → Bytes
skip_blanks [] = []
skip_blanks (c ∷ cs) = if is_blank c then skip_blanks cs else c ∷ cs

abbrev pub scopes_of : Bytes → ℕ
scopes_of [] = all_scopes
scopes_of (c ∷ cs) = parse_scopes (c ∷ cs)

-- One line of BEARER_TOKENS: its token, up to the first space, and the scopes after it.
unfoldable pub parse_line : Bytes → Option (Bytes × ℕ)
unfolding find skip_blanks parse_scopes
parse_line line = elim (find 32 line) [
  | none ↦ (if line == [] then none else some (line, all_scopes))
  | some space ↦
      (let token = take space line in
        if token == [] then none else some (token, scopes_of (skip_blanks (drop (suc space) line))))
]

module _ (sha256 : Bytes → Bytes) where
  pub record Entry : Type 0 where
    pub hash : Bytes
    pub scopes : ℕ

  unfoldable pub load : List Bytes → List Entry
  unfolding parse_line
  load [] = []
  load (line ∷ lines) = elim (parse_line line) [
    | none ↦ load lines
    | some (token, scopes) ↦ record { hash = sha256 token; scopes = scopes } ∷ load lines
  ]

  -- The loop of `verify` over all entries, with its variables `matched` and `scopes`.
  unfoldable pub match_all : Bytes → Bool → ℕ → List Entry → Bool × ℕ
  match_all hash matched scopes [] = (matched, scopes)
  match_all hash matched scopes (e ∷ es) =
      let hit = hash == e.hash in
      match_all hash (matched || hit) (bit_or scopes (if hit then e.scopes else 0)) es

  unfoldable pub verify : List Entry → Bytes → Option ℕ
  unfolding match_all
  verify entries presented =
      let (matched, scopes) = match_all (sha256 presented) false 0 entries in
      if matched then some scopes else none
