-- ===== src/Http/BearerAuth/Tests.antt =====
-- Requests against a small configuration, and the theorems of the token store, the policy and the
-- filter at concrete inputs. The digest is the identity here.
use telegram_rest_gateway.Prelude.{
  ◌≡◌, refl, List, [], ◌∷◌, nat_eq, Bytes, bytes_eq, codes, any, All,
}
use telegram_rest_gateway.Auth.TokenStore.{write, scope_allows, load, verify}
use telegram_rest_gateway.Auth.TokenStore.Verify.{
  is_known, allowed, line_names, line_gives, Separates, verify-load,
}
use telegram_rest_gateway.Http.ScopePolicy.{ascii_lower}
use telegram_rest_gateway.Http.BearerAuth.{
  parse_bearer_token, Request, get, fail, required_scope, do_filter,
}
use telegram_rest_gateway.Http.BearerAuth.Laws.{verdict_for, do_filter_lem}

abbrev plain : Bytes → Bytes
plain t = t

abbrev lines : List Bytes
lines = codes "root" ∷ codes "bot read,write" ∷ codes "eye  read" ∷ []

separates : (t : Bytes) → All (Separates plain t) lines
separates t = ((λ u m e h. h), ((λ u m e h. h), ((λ u m e h. h), tt)))

abbrev export_request : Request
export_request = record {
  path = codes "/V1/Auth/session/export";
  method = get;
  authorization = codes "Bearer bot";
}

-- A token without the admin scope does not export the session, whatever the case of the path.
export_forbidden :
    do_filter plain (load plain lines) export_request ≡ fail (codes "INSUFFICIENT_SCOPE") 403
unfolding do_filter load scope_allows ascii_lower
export_forbidden = refl

verify-load_example :
    let v = verify plain (load plain lines) (codes "bot") in
    (is_known v ≡ any (line_names (codes "bot")) lines)
    × (allowed v write ≡ any (line_gives (codes "bot") write) lines)
verify-load_example = verify-load plain lines (codes "bot") write (separates (codes "bot"))

do_filter_lem_example :
    do_filter plain (load plain lines) export_request
    ≡ verdict_for lines
        (required_scope export_request)
        (parse_bearer_token export_request.authorization)
do_filter_lem_example = do_filter_lem plain lines export_request (λ t e. separates t)
