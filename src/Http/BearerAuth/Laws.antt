-- ===== src/Http/BearerAuth/Laws.antt =====
-- Who passes the filter, by the configured lines.
use telegram_rest_gateway.Prelude.{
  ℕ, ◌<◌, ◌≡◌, refl, ap, ◌∙◌, ◌≢◌, ◌↔◌, inl, inr, true, false, Option, none, some, List, [], ◌∷◌,
  ◌++◌, arith, if◌then◌else◌, Option-cases, nat_eq, Bytes, bytes_eq, codes, length, drop, any,
  length-append, length-drop, drop-append, All,
}
use telegram_rest_gateway.Prelude.Text.{starts_with, starts_with-append, starts_with_prefix}
use telegram_rest_gateway.Auth.TokenStore.{Scope, load, verify}
use telegram_rest_gateway.Auth.TokenStore.Verify.{
  is_known, allowed, line_names, line_gives, Separates, verify-load,
}
use telegram_rest_gateway.Http.BearerAuth.{
  bearer_prefix, parse_bearer_token, judge, evaluate_bearer_auth, Request, Verdict, next, fail,
  answer, required_scope, do_filter,
}

-- The header is the prefix and a token that is not empty.
abbrev pub Carries : Bytes → Bytes → Type 0
Carries header token = (header ≡ bearer_prefix ++ token) × (token ≢ [])

length-pos : (t : Bytes) → t ≢ [] → 0 < length t
length-pos [] h = absurd (h refl)
length-pos (c ∷ t) h = omega arith

pos-length : (t : Bytes) → 0 < length t → t ≢ []
pos-length t h e = absurd (ground (arith, ap length e))

bearer_parts :
    (header token : Bytes)
    → parse_bearer_token header ≡ some token
    → (7 < length header) × (starts_with header bearer_prefix ≡ true) × (token ≡ drop 7 header)
unfolding parse_bearer_token
bearer_parts header token h = (ground arith, ground arith, ground arith)

bearer_joined :
    (token : Bytes) → 0 < length token → parse_bearer_token (bearer_prefix ++ token) ≡ some token
unfolding parse_bearer_token
bearer_joined token h = ground (
  arith,
  starts_with_prefix bearer_prefix token,
  length-append bearer_prefix token,
  drop-append bearer_prefix token,
)

-- A header gives a token exactly if it is "Bearer " and that token, which is not empty.
pub parse_bearer_token_iff :
    (header token : Bytes) → (parse_bearer_token header ≡ some token) ↔ Carries header token
parse_bearer_token_iff header token = (forth, back)
  where
    forth : parse_bearer_token header ≡ some token → Carries header token
    forth h =
        let (long, starts, rest) = bearer_parts header token h in
        (
          rw rest (starts_with-append header bearer_prefix starts),
          pos-length token (omega (arith, ap length rest, length-drop 7 header)),
        )

    back : Carries header token → parse_bearer_token header ≡ some token
    back (e, ne) = rw e (bearer_joined token (length-pos token ne))

-- The answer by the configured lines.
abbrev pub verdict_for : List Bytes → Scope → Option Bytes → Verdict
verdict_for lines s none = fail (codes "UNAUTHENTICATED") 401
verdict_for lines s (some token) =
    if any (line_gives token s) lines
    then next
    else if any (line_names token) lines
    then fail (codes "INSUFFICIENT_SCOPE") 403
    else fail (codes "UNAUTHENTICATED") 401

gives-names : (token : Bytes) (s : Scope) (v : Option ℕ) → is_known v ≡ false → allowed v s ≡ false
gives-names token s none h = refl
gives-names token s (some mask) h = cc

judge_lem :
    (v : Option ℕ) (s : Scope)
    → answer (judge v s) ≡ (
        if allowed v s
        then next
        else if is_known v
        then fail (codes "INSUFFICIENT_SCOPE") 403
        else fail (codes "UNAUTHENTICATED") 401)
judge_lem none s = refl
judge_lem (some mask) s = ground arith

-- As far as the digest tells the presented token from those of the lines: a request goes on exactly
-- if its header carries a token for which some configured line gives the scope that the route asks
-- for. Otherwise it is answered with 403 if a line configures the token, and with 401 if none does or
-- there is no token.
pub do_filter_lem :
    (sha256 : Bytes → Bytes) (lines : List Bytes) (req : Request)
    → ((token : Bytes)
        → parse_bearer_token req.authorization ≡ some token
        → All (Separates sha256 token) lines)
    → do_filter sha256 (load sha256 lines) req
      ≡ verdict_for lines (required_scope req) (parse_bearer_token req.authorization)
unfolding do_filter evaluate_bearer_auth
do_filter_lem sha256 lines req sep = elim (Option-cases (parse_bearer_token req.authorization)) [
  | inl e ↦ rw (e, evaluate_bearer_auth)
  | inr (token, e) ↦
      let facts = verify-load sha256 lines token (required_scope req) (sep token e) in
      let s = required_scope req in
      rw (e, evaluate_bearer_auth)
        (judge_lem (verify sha256 (load sha256 lines) token) s ∙ rw (facts.0, facts.1))
]
