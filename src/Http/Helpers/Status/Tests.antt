-- ===== src/Http/Helpers/Status/Tests.antt =====
-- Errors of TDLib and their answers.
use telegram_rest_gateway.Prelude.{◌≤◌, ◌≡◌, refl, true, some, arith, nat_eq, bytes_eq, codes, all}
use telegram_rest_gateway.Prelude.Text.{is_digit}
use telegram_rest_gateway.Http.ScopePolicy.{ascii_lower}
use telegram_rest_gateway.Http.Helpers.{
  http_status_for_td_error, retry_after_seconds, value_from, long_max,
}

statuses :
    (http_status_for_td_error (record { code = 400; message = codes "Chat not found" }) ≡ 404)
    × (http_status_for_td_error (record { code = 400; message = codes "MESSAGE_EMPTY" }) ≡ 400)
    × (http_status_for_td_error (record { code = 420; message = codes "FLOOD_WAIT_7" }) ≡ 429)
    × (http_status_for_td_error (record { code = 401; message = codes "Unauthorized" }) ≡ 502)
unfolding http_status_for_td_error ascii_lower
statuses = (refl, refl, refl, refl)

waits_seven : retry_after_seconds (codes "FLOOD_WAIT_7") ≡ some 7
unfolding retry_after_seconds ascii_lower is_digit long_max
waits_seven = refl

thirty_digits : all is_digit (codes "30") ≡ true
unfolding is_digit
thirty_digits = refl

thirty_small : value_from 0 (codes "30") ≤ long_max
unfolding value_from long_max
thirty_small = omega arith
