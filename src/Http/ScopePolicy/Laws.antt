-- ===== src/Http/ScopePolicy/Laws.antt =====
-- The policy sees a path as the router does, without regard to case, and asks for admin on exactly
-- the two families of routes.
use telegram_rest_gateway.Prelude.{
  ℕ, zero, suc, ◌≡◌, refl, Bool, ◌&&◌, ◌||◌, [], ◌∷◌, ◌++◌, map, arith, if◌then◌else◌, ◌==◌, nat_eq,
  Bytes, bytes_eq, codes, length, drop,
}
use telegram_rest_gateway.Prelude.Text.{starts_with}
use telegram_rest_gateway.Auth.TokenStore.{read, write, admin}
use telegram_rest_gateway.Http.ScopePolicy.{
  auth_path_prefix, webhooks_path_prefix, ascii_lower, starts_with_no_case, is_auth_path,
  at_boundary, is_webhooks_path, required_scope_for,
}

no_case_lower :
    (path prefix : Bytes)
    → starts_with_no_case path prefix ≡ starts_with (map ascii_lower path) prefix
unfolding starts_with_no_case starts_with
no_case_lower path [] = ground arith
no_case_lower [] (p ∷ prefix) = refl
no_case_lower (c ∷ path) (p ∷ prefix) = ground (arith, no_case_lower path prefix)

drop-map : (n : ℕ) (path : Bytes) → drop n (map ascii_lower path) ≡ map ascii_lower (drop n path)
drop-map zero path = refl
drop-map (suc n) [] = refl
drop-map (suc n) (c ∷ path) = drop-map n path

boundary_lower : (path : Bytes) → at_boundary (map ascii_lower path) ≡ at_boundary path
unfolding ascii_lower
boundary_lower [] = refl
boundary_lower (c ∷ path) = ground arith

-- A lower-case path is /v1/auth/..., /v1/webhooks, or /v1/webhooks/...
abbrev pub admin_route : Bytes → Bool
admin_route path =
    starts_with path (codes "/v1/auth/")
    || path == codes "/v1/webhooks"
    || starts_with path (codes "/v1/webhooks/")

webhooks_parts :
    (prefix path : Bytes)
    → (starts_with path prefix && at_boundary (drop (length prefix) path))
      ≡ (path == prefix || starts_with path (prefix ++ b'/' ∷ []))
unfolding starts_with
webhooks_parts [] [] = refl
webhooks_parts [] (c ∷ path) = ground arith
webhooks_parts (p ∷ prefix) [] = refl
webhooks_parts (p ∷ prefix) (c ∷ path) = ground (arith, webhooks_parts prefix path)

is_webhooks_path_lower :
    (path : Bytes)
    → is_webhooks_path path ≡ (
        map ascii_lower path == codes "/v1/webhooks"
        || starts_with (map ascii_lower path) (codes "/v1/webhooks/"))
unfolding is_webhooks_path
is_webhooks_path_lower path =
    let lower = map ascii_lower path in
    let n = length webhooks_path_prefix in
    ground (
      arith,
      no_case_lower path webhooks_path_prefix,
      boundary_lower (drop n path),
      drop-map n path,
      webhooks_parts webhooks_path_prefix lower,
    )

-- The scope of a request depends on the lower-case form of its path alone: admin on the routes
-- /v1/auth/..., /v1/webhooks and /v1/webhooks/..., and on any other route read for GET and HEAD and
-- write for all other methods.
pub required_scope_for_lower :
    (path : Bytes) (is_read_method : Bool)
    → required_scope_for path is_read_method ≡ (
        if admin_route (map ascii_lower path)
        then admin
        else if is_read_method
        then read
        else write)
unfolding required_scope_for is_auth_path
required_scope_for_lower path m =
    ground (arith, no_case_lower path auth_path_prefix, is_webhooks_path_lower path)
