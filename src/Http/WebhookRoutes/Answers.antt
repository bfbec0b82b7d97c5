-- ===== src/Http/WebhookRoutes/Answers.antt =====
-- What the webhook routes say and do.
pub mod Tests
use telegram_rest_gateway.Prelude.{
  ℕ, zero, suc, ◌+◌, ◌-◌, ◌*◌, ◌/◌, ◌%◌, ◌^◌, ◌≤◌, ◌<◌, min, max, ◌≡◌, refl, sym, ap, ◌∙◌, subst,
  ◌≢◌, ◌↔◌, ◌⊎◌, inl, inr, Bool, true, false, ◌&&◌, ◌||◌, not, Option, none, some, List, [], ◌∷◌,
  ◌++◌, map, arith, ltb, leb, ltb→lt, lt→ltb, leb→le, if◌then◌else◌, Bool-cases, Option-cases, Eq,
  ◌==◌, eq_refl, nat_eq, Bytes, bytes_beq_iff, nat_beq_iff, bytes_eq, codes, length, get_elem?,
  get_or, take, drop, keep_if, all, any, length-append, length-keep_if-le, take-append-drop,
  length-take, length-drop, drop-append, take-append, All, All-append, All-map, All-keep_if, All-at,
  some-injective,
}
use telegram_rest_gateway.Prelude.Json.{Json, item}
use telegram_rest_gateway.Webhook.Registry
use telegram_rest_gateway.Webhook.Registry.{Webhook, Root, find_hook, add, remove, list, id_of}
use telegram_rest_gateway.Webhook.Registry.Lookup.{UniqueIds, add-find}
use telegram_rest_gateway.Http.WebhookRoutes.{
  Response, json_response, service_error, webhook_to_json, requested, list_items,
  handle_webhook_list, created, handle_webhook_create,
}

-- The webhooks with other secrets.
abbrev pub with_secrets : (Bytes → Bytes) → List Webhook → List Webhook
with_secrets f [] = []
with_secrets f (h ∷ hs) = record h { secret = f h.id } ∷ with_secrets f hs

list_items-with_secrets :
    (f : Bytes → Bytes) (hs : List Webhook) → list_items (with_secrets f hs) ≡ list_items hs
unfolding list_items webhook_to_json
list_items-with_secrets f [] = refl
list_items-with_secrets f (h ∷ hs) = ap (item (webhook_to_json h)) (list_items-with_secrets f hs)

-- The list of the webhooks does not depend on their secrets: whatever these are, the response is the same.
pub list-with_secrets :
    (f : Bytes → Bytes) (g : Registry.Registry)
    → handle_webhook_list (record g { hooks = with_secrets f g.hooks }) ≡ handle_webhook_list g
unfolding handle_webhook_list list
list-with_secrets f g = rw (list_items-with_secrets f g.hooks, handle_webhook_list)

module _ (write : Root → Bytes) (parse : Bytes → Option Root) (sha256_hex : Bytes → Bytes) where
  -- What a request to create does: without a url it is refused and changes nothing; else the webhook has
  -- what was asked for, under the id of the url, the others are as before, and the ids stay unique.
  abbrev pub Created :
      Registry.Registry → Option (Bytes × Bytes × Bool) → Response × Registry.Registry → Type 0
  Created g none (r, g') = (r.status ≡ 400) × (g' ≡ g)
  Created g (some (url, secret, active)) (r, g') =
      let id = id_of write parse sha256_hex url in
      (r ≡ created write parse sha256_hex id url active)
      × ((j : Bytes)
          → find_hook j g'.hooks ≡ (
              if id == j
              then some (record { id = id; url = url; secret = secret; active = active })
              else find_hook j g.hooks))
      × UniqueIds g'.hooks

  -- Where the ids are unique, a request to create is refused with 400 and changes nothing if its body is no
  -- object with a url that is a text and not empty. Otherwise its answer has the id of the url, the
  -- registry has the webhook under that id and the others as before, and the ids stay unique.
  pub handle_webhook_create-Created :
      (save_ok : Bool) (g : Registry.Registry) (body : Option Json)
      → UniqueIds g.hooks
      → Created g (requested body) (handle_webhook_create write parse sha256_hex save_ok g body)
  unfolding handle_webhook_create service_error json_response add
  handle_webhook_create-Created save_ok g body u = go (requested body)
    where
      go :
          (o : Option (Bytes × Bytes × Bool))
          → Created g o (elim o [
            | none ↦
                (service_error (codes "VALIDATION_ERROR") (codes "field 'url' is required") 400, g)
            | some (url, secret, active) ↦
                let (id, g') = add write parse sha256_hex save_ok g url secret active in
                (created write parse sha256_hex id url active, g')
          ])
      go none = (refl, refl)
      go (some (url, secret, active)) =
          let (finds, unique) = add-find write parse sha256_hex save_ok g url secret active u in
          (refl, finds, unique)
