-- ===== src/Util/AwsSigv4/Tests.antt =====
-- A signature of a concrete request.
use telegram_rest_gateway.Prelude.{
  ◌≡◌, refl, Option, none, some, [], ◌∷◌, nat_eq, Bytes, bytes_eq, codes,
}
use telegram_rest_gateway.Webhook.Dispatcher.{to_hex_lower, hex_digit}
use telegram_rest_gateway.Util.AwsSigv4.{
  add_headers, Request, canonical_request, scope_of, sha256_hex, string_to_sign, signing_key,
  sigv4_authorization,
}
use telegram_rest_gateway.Util.AwsSigv4.Signed.{canonical_request-injective}

abbrev request : Request
request = record {
  method = codes "GET";
  canonical_uri = codes "/b/k";
  canonical_query = [];
  headers = (codes "host", codes "s3") ∷ (codes "x-amz-date", codes "20240102T000000Z") ∷ [];
  payload_sha256_hex = codes "e3b0";
}

canonical_request-injective_example : request ≡ request
canonical_request-injective_example =
    canonical_request-injective request request
      (refl, refl, refl, ((refl, refl, refl), ((refl, refl, refl), tt)))
      (refl, refl, refl, ((refl, refl, refl), ((refl, refl, refl), tt))) refl

canonical_text :
    canonical_request request
    ≡ codes "GET\n/b/k\n\nhost:s3\nx-amz-date:20240102T000000Z\n\nhost;x-amz-date\ne3b0"
unfolding canonical_request add_headers
canonical_text = refl

abbrev sha256 : Bytes → Option Bytes
sha256 s = some (31 ∷ [])

abbrev hmac : Bytes → Bytes → Option Bytes
hmac key s = some (224 ∷ 13 ∷ [])

authorization :
    sigv4_authorization sha256 hmac request
      (codes "20240102T000000Z")
      (codes "eu")
      (codes "s3")
      (codes "AK")
      (codes "SK")
    ≡ some (
        codes
          "AWS4-HMAC-SHA256 Credential=AK/20240102/eu/s3/aws4_request, SignedHeaders=host;x-amz-date, Signature=e00d")
unfolding sigv4_authorization string_to_sign signing_key sha256_hex scope_of add_headers
    to_hex_lower hex_digit
authorization = refl

-- A failure of OpenSSL gives no header.
no_authorization :
    sigv4_authorization
      (λ s. none)
      hmac
      request
      (codes "20240102T000000Z")
      (codes "eu")
      (codes "s3")
      (codes "AK")
      (codes "SK")
    ≡ none
unfolding sigv4_authorization string_to_sign sha256_hex
no_authorization = refl
