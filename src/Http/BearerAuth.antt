-- ===== src/Http/BearerAuth.antt =====
-- src/http/bearer_auth.hpp, and bearer_filter.cpp where it composes the policy, the store and the
-- answer. The logger and the metric of the filter are left out.
pub mod Laws
pub mod Tests
use telegram_rest_gateway.Prelude.{
  ℕ, zero, suc, ◌+◌, ◌-◌, ◌*◌, ◌/◌, ◌%◌, ◌^◌, ◌≤◌, ◌<◌, min, max, ◌≡◌, refl, sym, ap, ◌∙◌, subst,
  ◌≢◌, ◌↔◌, ◌⊎◌, inl, inr, Bool, true, false, ◌&&◌, ◌||◌, not, Option, none, some, List, [], ◌∷◌,
  ◌++◌, map, arith, ltb, leb, ltb→lt, lt→ltb, leb→le, if◌then◌else◌, Bool-cases, Option-cases, Eq,
  ◌==◌, eq_refl, nat_eq, Bytes, bytes_beq_iff, nat_beq_iff, bytes_eq, codes, length, get_elem?,
  get_or, take, drop, keep_if, all, any, length-append, length-keep_if-le, take-append-drop,
  length-take, length-drop, drop-append, take-append, All, All-append,
}
use telegram_rest_gateway.Prelude.Text.{starts_with}
use telegram_rest_gateway.Auth.TokenStore.{Scope, scope_allows, Entry, verify}
use telegram_rest_gateway.Http.ScopePolicy.{required_scope_for}

pub data BearerAuthResult : Type 0 where
  allowed unauthenticated forbidden : BearerAuthResult

abbrev pub bearer_prefix : Bytes
bearer_prefix = codes "Bearer "

-- parseBearerToken: the prefix, and what follows it if that is not empty.
unfoldable pub parse_bearer_token : Bytes → Option Bytes
unfolding starts_with
parse_bearer_token header =
    if leb (length header) (length bearer_prefix)
    then none
    else if not (starts_with header bearer_prefix)
    then none
    else some (drop (length bearer_prefix) header)

abbrev pub judge : Option ℕ → Scope → BearerAuthResult
judge none required = unauthenticated
judge (some scopes) required = if not (scope_allows scopes required) then forbidden else allowed

unfoldable pub evaluate_bearer_auth : Bytes → Scope → (Bytes → Option ℕ) → BearerAuthResult
unfolding parse_bearer_token
evaluate_bearer_auth header required verify_fn = elim (parse_bearer_token header) [
  | none ↦ unauthenticated
  | some token ↦ judge (verify_fn token) required
]

-- The part of an HTTP request that the filter reads.
pub data Method : Type 0 where
  get head other : Method

pub record Request : Type 0 where
  pub path : Bytes
  pub method : Method
  pub authorization : Bytes

abbrev pub is_read_method : Method → Bool
is_read_method get = true
is_read_method head = true
is_read_method other = false

-- The filter passes the request on, or answers with an error code and a status.
pub data Verdict : Type 0 where
  next : Verdict
  fail : Bytes → ℕ → Verdict

abbrev pub answer : BearerAuthResult → Verdict
answer allowed = next
answer forbidden = fail (codes "INSUFFICIENT_SCOPE") 403
answer unauthenticated = fail (codes "UNAUTHENTICATED") 401

unfoldable pub required_scope : Request → Scope
unfolding required_scope_for
required_scope req = required_scope_for req.path (is_read_method req.method)

unfoldable pub do_filter : (sha256 : Bytes → Bytes) → List (Entry sha256) → Request → Verdict
unfolding evaluate_bearer_auth required_scope verify
do_filter sha256 store req =
    answer (evaluate_bearer_auth req.authorization (required_scope req) (verify sha256 store))
