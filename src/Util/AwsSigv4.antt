-- ===== src/Util/AwsSigv4.antt =====
-- src/util/aws_sigv4.cpp. A text is its bytes, a std::map its pairs in the order of the map. `sha256` and
-- `hmac` stand for EVP_Digest and HMAC of OpenSSL, and none for their failure, which is thrown.
pub mod Tests
pub mod Signed
use telegram_rest_gateway.Prelude.{
  ℕ, zero, suc, ◌+◌, ◌-◌, ◌*◌, ◌/◌, ◌%◌, ◌^◌, ◌≤◌, ◌<◌, min, max, ◌≡◌, refl, sym, ap, ◌∙◌, subst,
  ◌≢◌, ◌↔◌, ◌⊎◌, inl, inr, Bool, true, false, ◌&&◌, ◌||◌, not, Option, none, some, List, [], ◌∷◌,
  ◌++◌, map, arith, ltb, leb, ltb→lt, lt→ltb, leb→le, if◌then◌else◌, Bool-cases, Option-cases, Eq,
  ◌==◌, eq_refl, nat_eq, Bytes, bytes_beq_iff, nat_beq_iff, bytes_eq, codes, length, get_elem?,
  get_or, take, drop, keep_if, all, any, length-append, length-keep_if-le, take-append-drop,
  length-take, length-drop, drop-append, take-append, All, All-append, All-map, All-keep_if, All-at,
  some-injective,
}
use telegram_rest_gateway.Webhook.Dispatcher.{to_hex_lower}

infixl 5 ◌>>=◌
abbrev ◌>>=◌ {ℓ κ} : {A : Type ℓ} {B : Type κ} → Option A → (A → Option B) → Option B
some a >>= f = f a
none >>= f = none

-- The loop over the headers, with canonical_headers and signed_headers.
unfoldable pub add_headers : List (Bytes × Bytes) → Bytes → Bytes → Bytes × Bytes
add_headers [] canonical signed = (canonical, signed)
add_headers ((name, value) ∷ headers) canonical signed =
    add_headers headers (canonical ++ (name ++ codes ":" ++ value ++ codes "\n"))
      ((if signed == [] then signed else signed ++ codes ";") ++ name)

pub record Request : Type 0 where
  pub method : Bytes
  pub canonical_uri : Bytes
  pub canonical_query : Bytes
  pub headers : List (Bytes × Bytes)
  pub payload_sha256_hex : Bytes

abbrev pub signed_headers : Request → Bytes
signed_headers r = (add_headers r.headers [] []).1

unfoldable pub canonical_request : Request → Bytes
unfolding add_headers
canonical_request r =
    let (canonical, signed) = add_headers r.headers [] [] in
    r.method
    ++ codes "\n"
    ++ r.canonical_uri
    ++ codes "\n"
    ++ r.canonical_query
    ++ codes "\n"
    ++ canonical
    ++ codes "\n"
    ++ signed
    ++ codes "\n"
    ++ r.payload_sha256_hex

unfoldable pub scope_of : Bytes → Bytes → Bytes → Bytes
scope_of amz_date region service =
    take 8 amz_date ++ codes "/" ++ region ++ codes "/" ++ service ++ codes "/aws4_request"

module _ (sha256 : Bytes → Option Bytes) (hmac : Bytes → Bytes → Option Bytes) where
  unfoldable pub sha256_hex : Bytes → Option Bytes
  unfolding to_hex_lower
  sha256_hex text = sha256 text >>= λ digest. some (to_hex_lower digest)

  unfoldable pub string_to_sign : Request → Bytes → Bytes → Option Bytes
  unfolding sha256_hex canonical_request
  string_to_sign r amz_date scope = do
    digest ← sha256_hex (canonical_request r)
    some (codes "AWS4-HMAC-SHA256\n" ++ amz_date ++ codes "\n" ++ scope ++ codes "\n" ++ digest)

  -- The chain of the keys of a signature.
  unfoldable pub signing_key : Bytes → Bytes → Bytes → Bytes → Option Bytes
  signing_key secret_key date_stamp region service = do
    k_date ← hmac (codes "AWS4" ++ secret_key) date_stamp
    k_region ← hmac k_date region
    k_service ← hmac k_region service
    hmac k_service (codes "aws4_request")

  unfoldable pub sigv4_authorization :
      Request → Bytes → Bytes → Bytes → Bytes → Bytes → Option Bytes
  unfolding string_to_sign signing_key scope_of add_headers to_hex_lower
  sigv4_authorization r amz_date region service access_key secret_key = do
    let scope = scope_of amz_date region service
    text ← string_to_sign r amz_date scope
    k_signing ← signing_key secret_key (take 8 amz_date) region service
    signature_raw ← hmac k_signing text
    some (
        codes "AWS4-HMAC-SHA256 Credential="
        ++ access_key
        ++ codes "/"
        ++ scope
        ++ codes ", SignedHeaders="
        ++ signed_headers r
        ++ codes ", Signature="
        ++ to_hex_lower signature_raw)
