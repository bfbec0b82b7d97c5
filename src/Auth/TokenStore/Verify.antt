-- ===== src/Auth/TokenStore/Verify.antt =====
-- What `verify` answers, against the configured lines.
use Prim.Native.Nat.{bit_or}
use telegram_rest_gateway.Prelude.{
  ℕ, ◌<◌, ◌≡◌, refl, sym, inl, inr, Bool, true, false, ◌&&◌, ◌||◌, Option, none, some, List, [],
  ◌∷◌, arith, if◌then◌else◌, Bool-cases, Option-cases, ◌==◌, eq_refl, nat_eq, Bytes, bytes_beq_iff,
  bytes_eq, any, All,
}
use telegram_rest_gateway.Auth.TokenStore.{Scope, scope_allows, parse_line, load, match_all, verify}
use telegram_rest_gateway.Auth.TokenStore.Masks.{
  bit_or-lt, scope_allows-or, scope_allows-zero, parse_line-lt,
}

-- A line configures the token, and the scope for the token.
abbrev names_token : Bytes → Option (Bytes × ℕ) → Bool
names_token t none = false
names_token t (some (token, mask)) = token == t

abbrev gives_scope : Bytes → Scope → Option (Bytes × ℕ) → Bool
gives_scope t s none = false
gives_scope t s (some (token, mask)) = token == t && scope_allows mask s

abbrev pub line_names : Bytes → Bytes → Bool
line_names t line = names_token t (parse_line line)

abbrev pub line_gives : Bytes → Scope → Bytes → Bool
line_gives t s line = gives_scope t s (parse_line line)

abbrev pub is_known : Option ℕ → Bool
is_known none = false
is_known (some mask) = true

abbrev pub allowed : Option ℕ → Scope → Bool
allowed none s = false
allowed (some mask) s = scope_allows mask s

module _ (sha256 : Bytes → Bytes) where
  -- The digest tells the presented token from the token of a line.
  abbrev pub Separates : Bytes → Bytes → Type 0
  Separates t line =
      (token : Bytes) (mask : ℕ)
      → parse_line line ≡ some (token, mask)
      → sha256 token ≡ sha256 t
      → token ≡ t

  -- The loop with the tokens themselves in place of their digests.
  match_lines : Bytes → Bool → ℕ → List Bytes → Bool × ℕ
  match_lines t matched mask [] = (matched, mask)
  match_lines t matched mask (line ∷ lines) = elim (parse_line line) [
    | none ↦ match_lines t matched mask lines
    | some (token, m) ↦
        match_lines t (matched || (token == t)) (bit_or mask (if token == t then m else 0)) lines
  ]

  same_hit :
      (t token : Bytes)
      → (sha256 token ≡ sha256 t → token ≡ t)
      → (sha256 t == sha256 token) ≡ (token == t)
  same_hit t token sep = elim (Bool-cases (token == t)) [
    | inl q ↦ rw (q, (bytes_beq_iff token t).0 q) (eq_refl (sha256 t))
    | inr q ↦ elim (Bool-cases (sha256 t == sha256 token)) [
      | inl hq ↦ absurd (
          ground (
            arith,
            q,
            (bytes_beq_iff token t).1 (sep (sym ((bytes_beq_iff (sha256 t) (sha256 token)).0 hq))),
          ))
      | inr hq ↦ rw (q, hq)
    ]
  ]

  match_all-load :
      (t : Bytes) (lines : List Bytes) (matched : Bool) (mask : ℕ)
      → All (Separates t) lines
      → match_all sha256 (sha256 t) matched mask (load sha256 lines)
        ≡ match_lines t matched mask lines
  unfolding match_all load match_lines
  match_all-load t [] matched mask sep = refl
  match_all-load t (line ∷ lines) matched mask sep = elim (Option-cases (parse_line line)) [
    | inl e ↦ rw (e, load, match_lines) (match_all-load t lines matched mask sep.1)
    | inr ((token, m), e) ↦
        rw (e, load, match_lines)
          (rw (same_hit t token (sep.0 token m e), match_all)
            (match_all-load t lines (matched || (token == t))
              (bit_or mask (if token == t then m else 0)) sep.1))
  ]

  match_lines-names :
      (t : Bytes) (s : Scope) (lines : List Bytes) (matched : Bool) (mask : ℕ)
      → mask < 8
      → let r = match_lines t matched mask lines in
        (r.0 ≡ (matched || any (line_names t) lines))
        × (scope_allows r.1 s ≡ (scope_allows mask s || any (line_gives t s) lines))
  unfolding match_lines
  match_lines-names t s [] matched mask h = (ground arith, ground arith)
  match_lines-names t s (line ∷ lines) matched mask h = elim (Option-cases (parse_line line)) [
    | inl e ↦ rw (e, match_lines) (match_lines-names t s lines matched mask h)
    | inr ((token, m), e) ↦
        let add = if token == t then m else 0 in
        let add_lt : add < 8 = ground (arith, parse_line-lt line token m e) in
        let ih =
          match_lines-names t s lines (matched || (token == t)) (bit_or mask add)
            (bit_or-lt mask add h add_lt) in
        let joined = scope_allows-or s mask add h add_lt in
        (ground (arith, e, ih.0), ground (arith, e, ih.1, joined, scope_allows-zero s))
  ]

  -- As far as the digest tells the presented token from the tokens of the lines: `verify` knows the
  -- token exactly if a line configures it, and the mask that it returns has a scope exactly if a line
  -- of that token gives the scope.
  pub verify-load :
      (lines : List Bytes) (t : Bytes) (s : Scope)
      → All (Separates t) lines
      → let v = verify sha256 (load sha256 lines) t in
        (is_known v ≡ any (line_names t) lines) × (allowed v s ≡ any (line_gives t s) lines)
  unfolding verify
  verify-load lines t s sep =
      let e = match_all-load t lines false 0 sep in
      let facts = match_lines-names t s lines false 0 (omega arith) in
      rw (e, verify)
        (
          ground (arith, facts, scope_allows-zero s),
          ground (arith, facts, scope_allows-zero s, gives_names lines),
        )
    where
      gives_names :
          (ls : List Bytes) → any (line_names t) ls ≡ false → any (line_gives t s) ls ≡ false
      gives_names [] h = refl
      gives_names (l ∷ ls) h = ground (arith, h, gives_names ls, gives_one (parse_line l))
        where
          gives_one : (o : Option (Bytes × ℕ)) → names_token t o ≡ false → gives_scope t s o ≡ false
          gives_one none n = refl
          gives_one (some (token, m)) n = ground (arith, n)
