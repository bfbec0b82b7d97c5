-- ===== src/Http/ScopePolicy.antt =====
-- src/http/scope_policy.hpp: the scope that a route asks for.
pub mod Laws
use telegram_rest_gateway.Prelude.{
  ℕ, zero, suc, ◌+◌, ◌-◌, ◌*◌, ◌/◌, ◌%◌, ◌^◌, ◌≤◌, ◌<◌, min, max, ◌≡◌, refl, sym, ap, ◌∙◌, subst,
  ◌≢◌, ◌↔◌, ◌⊎◌, inl, inr, Bool, true, false, ◌&&◌, ◌||◌, not, Option, none, some, List, [], ◌∷◌,
  ◌++◌, map, arith, ltb, leb, ltb→lt, lt→ltb, leb→le, if◌then◌else◌, Bool-cases, Option-cases, Eq,
  ◌==◌, eq_refl, nat_eq, Bytes, bytes_beq_iff, nat_beq_iff, bytes_eq, codes, length, get_elem?,
  get_or, take, drop, keep_if, all, any, length-append, length-keep_if-le, take-append-drop,
  length-take, length-drop, drop-append, take-append, All, All-append,
}
use telegram_rest_gateway.Prelude.Text.{starts_with}
use telegram_rest_gateway.Auth.TokenStore.{Scope, read, write, admin}

abbrev pub auth_path_prefix : Bytes
auth_path_prefix = codes "/v1/auth/"

abbrev pub webhooks_path_prefix : Bytes
webhooks_path_prefix = codes "/v1/webhooks"

-- asciiLower; bytes above 127 are negative chars in the source, and are left alone there too.
unfoldable pub ascii_lower : ℕ → ℕ
ascii_lower c = if leb b'A' c && leb c b'Z' then c - b'A' + b'a' else c

-- startsWithNoCase: the loop over the prefix, which ends at the first byte that differs.
unfoldable pub starts_with_no_case : Bytes → Bytes → Bool
starts_with_no_case path [] = true
starts_with_no_case [] (p ∷ prefix) = false
starts_with_no_case (c ∷ path) (p ∷ prefix) =
    if ascii_lower c == p then starts_with_no_case path prefix else false

unfoldable pub is_auth_path : Bytes → Bool
unfolding starts_with_no_case
is_auth_path path = starts_with_no_case path auth_path_prefix

-- path.size() == n || path[n] == '/', where the prefix has matched.
abbrev pub at_boundary : Bytes → Bool
at_boundary [] = true
at_boundary (c ∷ rest) = c == b'/'

unfoldable pub is_webhooks_path : Bytes → Bool
unfolding starts_with_no_case
is_webhooks_path path =
    if not (starts_with_no_case path webhooks_path_prefix)
    then false
    else at_boundary (drop (length webhooks_path_prefix) path)

unfoldable pub required_scope_for : Bytes → Bool → Scope
unfolding is_auth_path is_webhooks_path
required_scope_for path is_read_method =
    if is_auth_path path || is_webhooks_path path
    then admin
    else if is_read_method
    then read
    else write
