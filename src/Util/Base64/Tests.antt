-- ===== src/Util/Base64/Tests.antt =====
-- Runs of the codec, and the theorems at concrete inputs.
use telegram_rest_gateway.Prelude.{◌≡◌, refl, none, some, arith, nat_eq, bytes_eq, codes, length}
use telegram_rest_gateway.Util.Base64.{encode, decode}
use telegram_rest_gateway.Util.Base64.RoundTrip.{decode-encode}

encode_hello : encode (codes "hello") ≡ codes "aGVsbG8="
unfolding encode
encode_hello = refl

-- Line ends are skipped, and data after padding is refused.
decode_lines :
    (decode (codes "aGVs bG8=") ≡ some (codes "hello")) × (decode (codes "aGV=sbG8") ≡ none)
unfolding decode
decode_lines = (refl, refl)

decode-encode_example :
    (decode (encode (codes "hello")) ≡ some (codes "hello")) × (length (encode (codes "hello")) ≡ 8)
decode-encode_example = decode-encode (codes "hello") (omega arith)
