-- ===== src/Http/WebhookRoutes/Answers/Tests.antt =====
-- Requests to src/http/webhook_routes.cpp.
use telegram_rest_gateway.Prelude.{
  ◌≡◌, refl, true, false, Option, none, some, [], ◌++◌, nat_eq, Bytes, bytes_eq, codes,
}
use telegram_rest_gateway.Prelude.Json.{
  Json, null, string, boolean, put, put_field, member, find_field, ◌▷◌,
}
use telegram_rest_gateway.Webhook.Registry
use telegram_rest_gateway.Webhook.Registry.{Webhook, Root, id_of, find_hook}
use telegram_rest_gateway.Http.WebhookRoutes.{
  service_error, json_response, requested, string_or_empty, true_unless_false,
  handle_webhook_create,
}
use telegram_rest_gateway.Http.WebhookRoutes.Answers.{Created, handle_webhook_create-Created}

-- Functions for the parameters.
abbrev writer : Root → Bytes
writer root = codes "text"

abbrev reader : Bytes → Option Root
reader text = none

abbrev digest : Bytes → Bytes
digest url = url ++ codes "0123456789abcdef"

abbrev empty : Registry.Registry
empty = record { hooks = []; stored = none; is_async = false; detached = [] }

unfoldable body : Json
unfolding put put_field
body =
    null ▷ put (codes "url") (string (codes "https://a.b/c")) ▷ put (codes "active") (boolean false)

body-requests : requested (some body) ≡ some (codes "https://a.b/c", [], false)
unfolding requested body put put_field member find_field string_or_empty true_unless_false
body-requests = refl

refuses_array : (handle_webhook_create writer reader digest true empty (some null)).0.status ≡ 400
unfolding handle_webhook_create requested service_error json_response
refuses_array = refl

handle_webhook_create-Created_example :
    Created writer reader digest empty
      (some (codes "https://a.b/c", [], false))
      (handle_webhook_create writer reader digest true empty (some body))
unfolding requested body put put_field member find_field string_or_empty true_unless_false
handle_webhook_create-Created_example =
    handle_webhook_create-Created writer reader digest true empty (some body) tt
