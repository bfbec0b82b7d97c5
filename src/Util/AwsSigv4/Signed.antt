-- ===== src/Util/AwsSigv4/Signed.antt =====
-- src/util/aws_sigv4.cpp: what a signature covers.
use telegram_rest_gateway.Prelude.{
  ℕ, ◌≡◌, refl, sym, ap, ◌∙◌, ◌≢◌, false, List, [], ◌∷◌, ◌++◌, arith, ◌==◌, nat_eq, Bytes, bytes_eq,
  any, All,
}
use mathlib.Core.List.{append_assoc, append-nil, append_cancel_left}
use telegram_rest_gateway.Util.AwsSigv4.{Request, add_headers, signed_headers, canonical_request}

-- A text without a byte.
abbrev pub Without : ℕ → Bytes → Type 0
Without c s = any (λ b. b == c) s ≡ false

-- What stands before the first such byte, and what follows it, are known of the whole text.
first_parts :
    (c : ℕ) (s t u v : Bytes)
    → Without c s
    → Without c t
    → s ++ c ∷ u ≡ t ++ c ∷ v
    → (s ≡ t) × (u ≡ v)
first_parts c [] [] u v hs ht e = (refl, ground (arith, e))
first_parts c [] (y ∷ t) u v hs ht e = absurd (ground (arith, e, ht))
first_parts c (x ∷ s) [] u v hs ht e = absurd (ground (arith, e, hs))
first_parts c (x ∷ s) (y ∷ t) u v hs ht e = ground (arith, first_parts c s t u v, e)

-- The lines of the headers.
unfoldable pub header_lines : List (Bytes × Bytes) → Bytes
header_lines [] = []
header_lines ((name, value) ∷ headers) = name ++ b':' ∷ (value ++ b'\n' ∷ header_lines headers)

add_headers-lines :
    (hs : List (Bytes × Bytes)) (c s : Bytes) → (add_headers hs c s).0 ≡ c ++ header_lines hs
unfolding add_headers header_lines
add_headers-lines [] c s = simp append-nil
add_headers-lines ((n, v) ∷ hs) c s = add_headers-lines hs _ _ ∙ simp append_assoc

-- A header whose text is one line, and whose name ends at its first ':'.
abbrev pub IsHeader : Bytes × Bytes → Type 0
IsHeader (name, value) = Without b':' name × Without b'\n' name × Without b'\n' value

header_line_not_empty :
    (n v u t : Bytes) → Without b'\n' n → b'\n' ∷ t ≢ n ++ b':' ∷ (v ++ b'\n' ∷ u)
header_line_not_empty [] v u t h e = ground (arith, e)
header_line_not_empty (x ∷ n) v u t h e = ground (arith, e, h)

header_lines-cons :
    (n v : Bytes) (hs : List (Bytes × Bytes)) (t : Bytes)
    → header_lines ((n, v) ∷ hs) ++ b'\n' ∷ t
      ≡ n ++ b':' ∷ (v ++ b'\n' ∷ (header_lines hs ++ b'\n' ∷ t))
unfolding header_lines
header_lines-cons n v hs t = simp append_assoc

header_lines_injective :
    (hs hs' : List (Bytes × Bytes)) (t t' : Bytes)
    → All IsHeader hs
    → All IsHeader hs'
    → header_lines hs ++ b'\n' ∷ t ≡ header_lines hs' ++ b'\n' ∷ t'
    → (hs ≡ hs') × (t ≡ t')
unfolding header_lines
header_lines_injective [] [] t t' h h' e = (refl, ground (arith, e))
header_lines_injective [] ((n, v) ∷ hs) t t' h h' e = absurd (
    header_line_not_empty n v (header_lines hs ++ b'\n' ∷ t') t h'.0.1
      (e ∙ header_lines-cons n v hs t'))
header_lines_injective ((n, v) ∷ hs) [] t t' h h' e = absurd (
    header_line_not_empty n v (header_lines hs ++ b'\n' ∷ t) t' h.0.1
      (sym e ∙ header_lines-cons n v hs t))
header_lines_injective ((n, v) ∷ hs) ((n', v') ∷ hs') t t' h h' e =
    let (en, e₁) =
      first_parts b':' n n' _ _ h.0.0 h'.0.0
        (sym (header_lines-cons n v hs t) ∙ (e ∙ header_lines-cons n' v' hs' t')) in
    let (ev, e₂) = first_parts b'\n' v v' _ _ h.0.2 h'.0.2 e₁ in
    let (ehs, et) = header_lines_injective hs hs' t t' h.1 h'.1 e₂ in (cc (en, ev, ehs), et)

-- A request whose method, path and query are one line each, with headers that are one line each.
abbrev pub IsPlain : Request → Type 0
IsPlain r =
    Without b'\n' r.method
    × Without b'\n' r.canonical_uri
    × Without b'\n' r.canonical_query
    × All IsHeader r.headers

canonical_request-lines :
    (r : Request)
    → canonical_request r
      ≡ r.method
        ++ b'\n'
          ∷ (r.canonical_uri
              ++ b'\n'
                ∷ (r.canonical_query
                    ++ b'\n'
                      ∷ (header_lines r.headers
                          ++ b'\n' ∷ (signed_headers r ++ b'\n' ∷ r.payload_sha256_hex))))
unfolding canonical_request
canonical_request-lines r = rw (add_headers-lines r.headers [] []) (simp append_assoc)

-- The text that is hashed determines the request: two plain requests with the same canonical request have the
-- same method, path, query, headers and hash of the payload.
pub canonical_request-injective :
    (r r' : Request) → IsPlain r → IsPlain r' → canonical_request r ≡ canonical_request r' → r ≡ r'
canonical_request-injective r r' p p' e =
    let (em, e₁) =
      first_parts b'\n' r.method r'.method _ _ p.0 p'.0
        (sym (canonical_request-lines r) ∙ (e ∙ canonical_request-lines r')) in
    let (eu, e₂) = first_parts b'\n' r.canonical_uri r'.canonical_uri _ _ p.1 p'.1 e₁ in
    let (eq, e₃) = first_parts b'\n' r.canonical_query r'.canonical_query _ _ p.2 p'.2 e₂ in
    let (eh, e₄) = header_lines_injective r.headers r'.headers _ _ p.3 p'.3 e₃ in
    let es = ap (λ hs. (add_headers hs [] []).1) eh in
    let e₅ =
      append_cancel_left (signed_headers r) _ _
        (e₄ ∙ ap (λ s. s ++ b'\n' ∷ r'.payload_sha256_hex) (sym es)) in
    cc (em, eu, eq, eh, e₅)
