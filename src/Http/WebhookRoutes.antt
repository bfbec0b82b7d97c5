-- ===== src/Http/WebhookRoutes.antt =====
-- src/http/webhook_routes.cpp: the three routes of the webhooks, over the registry. A request is its body
-- as drogon has parsed it, if it could, or the id in its path.
pub mod Answers
use telegram_rest_gateway.Prelude.{
  ℕ, zero, suc, ◌+◌, ◌-◌, ◌*◌, ◌/◌, ◌%◌, ◌^◌, ◌≤◌, ◌<◌, min, max, ◌≡◌, refl, sym, ap, ◌∙◌, subst,
  ◌≢◌, ◌↔◌, ◌⊎◌, inl, inr, Bool, true, false, ◌&&◌, ◌||◌, not, Option, none, some, List, [], ◌∷◌,
  ◌++◌, map, arith, ltb, leb, ltb→lt, lt→ltb, leb→le, if◌then◌else◌, Bool-cases, Option-cases, Eq,
  ◌==◌, eq_refl, nat_eq, Bytes, bytes_beq_iff, nat_beq_iff, bytes_eq, codes, length, get_elem?,
  get_or, take, drop, keep_if, all, any, length-append, length-keep_if-le, take-append-drop,
  length-take, length-drop, drop-append, take-append, All, All-append, All-map, All-keep_if, All-at,
  some-injective,
}
use telegram_rest_gateway.Prelude.Json.{
  Json, Items, nil, item, null, boolean, string, array, object, put, member, ◌▷◌,
}
use telegram_rest_gateway.Webhook.Registry
use telegram_rest_gateway.Webhook.Registry.{Webhook, Root, add, remove, list}

pub record Response : Type 0 where
  pub status : ℕ
  pub body : Json

-- jsonResponse and serviceError of http_helpers.hpp.
unfoldable pub json_response : Json → ℕ → Response
json_response body code = record { status = code; body = body }

unfoldable pub service_error : Bytes → Bytes → ℕ → Response
unfolding put json_response
service_error code message http =
    json_response
      (null
        ▷ put (codes "ok") (boolean false)
        ▷ put (codes "error")
            (null ▷ put (codes "code") (string code) ▷ put (codes "message") (string message)))
      http

unfoldable pub webhook_to_json : Webhook → Json
unfolding put
webhook_to_json hook =
    null
    ▷ put (codes "id") (string hook.id)
    ▷ put (codes "url") (string hook.url)
    ▷ put (codes "active") (boolean hook.active)

-- What a body asks to create: its url, its secret and whether it is active.
unfoldable pub string_or_empty : Option Json → Bytes
string_or_empty (some (string s)) = s
string_or_empty _ = []

unfoldable pub true_unless_false : Option Json → Bool
true_unless_false (some (boolean b)) = b
true_unless_false _ = true

unfoldable pub requested : Option Json → Option (Bytes × Bytes × Bool)
unfolding member string_or_empty true_unless_false
requested (some (object fs)) =
    let url = string_or_empty (member (codes "url") (object fs)) in
    if url == []
    then none
    else some (
      url,
      string_or_empty (member (codes "secret") (object fs)),
      true_unless_false (member (codes "active") (object fs)),
    )
requested _ = none

unfoldable pub list_items : List Webhook → Items
unfolding webhook_to_json
list_items [] = nil
list_items (hook ∷ hooks) = item (webhook_to_json hook) (list_items hooks)

unfoldable pub handle_webhook_list : Registry.Registry → Response
unfolding list list_items put json_response
handle_webhook_list g =
    json_response
      (null ▷ put (codes "ok") (boolean true) ▷ put (codes "data") (array (list_items (list g))))
      200

module _ (write : Root → Bytes) (parse : Bytes → Option Root) (sha256_hex : Bytes → Bytes) where
  unfoldable pub created : Bytes → Bytes → Bool → Response
  unfolding put json_response
  created id url active =
      json_response
        (null
          ▷ put (codes "ok") (boolean true)
          ▷ put (codes "data") (
              null
              ▷ put (codes "id") (string id)
              ▷ put (codes "url") (string url)
              ▷ put (codes "active") (boolean active)))
        200

  -- `save_ok` is the answer of the registry's store.
  unfoldable pub handle_webhook_create :
      Bool → Registry.Registry → Option Json → Response × Registry.Registry
  unfolding requested add created service_error
  handle_webhook_create save_ok g body = elim (requested body) [
    | none ↦ (service_error (codes "VALIDATION_ERROR") (codes "field 'url' is required") 400, g)
    | some (url, secret, active) ↦
        let (id, g') = add write parse sha256_hex save_ok g url secret active in
        (created id url active, g')
  ]

  unfoldable pub handle_webhook_delete :
      Bool → Registry.Registry → Bytes → Response × Registry.Registry
  unfolding remove service_error json_response put
  handle_webhook_delete save_ok g id =
      let (removed, g') = remove write parse save_ok g id in
      (
        (if removed
            then json_response (null ▷ put (codes "ok") (boolean true)) 200
            else service_error (codes "NOT_FOUND") (codes "webhook not found") 404),
        g',
      )
