-- ===== src/Http/ByteRange/Tests.antt =====
-- Headers and the ranges that they give.
use telegram_rest_gateway.Prelude.{◌≡◌, refl, ◌↔◌, none, some, nat_eq, bytes_eq, codes}
use telegram_rest_gateway.Http.ByteRange.{parse_byte_range}
use telegram_rest_gateway.Http.ByteRange.Laws.{IsRange, parse_byte_range-served}

ranges :
    (parse_byte_range (codes "bytes=0-99") 1000 ≡ some (0, 100))
    × (parse_byte_range (codes "bytes=-10") 1000 ≡ some (990, 10))
    × (parse_byte_range (codes "bytes=5abc-") 1000 ≡ none)
    × (parse_byte_range (codes "bytes=0-1,5-6") 1000 ≡ none)
unfolding parse_byte_range
ranges = (refl, refl, refl, refl)

parse_byte_range-served_example :
    (parse_byte_range (codes "bytes=900-2000") 1000 ≡ some (900, 100))
    ↔ IsRange (codes "bytes=900-2000") 1000 (900, 100)
parse_byte_range-served_example = parse_byte_range-served (codes "bytes=900-2000") 1000 (900, 100)
