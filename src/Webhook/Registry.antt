-- ===== src/Webhook/Registry.antt =====
-- src/webhook/webhook_registry.{hpp,cpp}: the webhooks, and what of them is in the store. Parameters:
-- `sha256_hex` is util's hash of a text (OpenSSL's digest); `write` and `parse` are jsoncpp's writer
-- and reader. Each mutation runs under the mutex, and its save after it.
pub mod Lookup
pub mod Restart
use telegram_rest_gateway.Prelude.{
  ℕ, zero, suc, ◌+◌, ◌-◌, ◌*◌, ◌/◌, ◌%◌, ◌^◌, ◌≤◌, ◌<◌, min, max, ◌≡◌, refl, sym, ap, ◌∙◌, subst,
  ◌≢◌, ◌↔◌, ◌⊎◌, inl, inr, Bool, true, false, ◌&&◌, ◌||◌, not, Option, none, some, List, [], ◌∷◌,
  ◌++◌, map, arith, ltb, leb, ltb→lt, lt→ltb, leb→le, if◌then◌else◌, Bool-cases, Option-cases, Eq,
  ◌==◌, eq_refl, nat_eq, Bytes, bytes_beq_iff, nat_beq_iff, bytes_eq, codes, length, get_elem?,
  get_or, take, drop, keep_if, all, any, length-append, length-keep_if-le, take-append-drop,
  length-take, length-drop, drop-append, take-append, All, All-append, All-map, All-keep_if, All-at,
  some-injective,
}

pub record Webhook : Type 0 where
  pub id : Bytes
  pub url : Bytes
  pub secret : Bytes
  pub active : Bool

-- A Json::Value as the registry reads it: an array of items, an item an object of fields, and each a
-- value of another kind otherwise. The keys of an object are unique, as in jsoncpp's.
pub data Field : Type 0 where
  text : Bytes → Field
  boolean : Bool → Field
  other : Field

pub data Item : Type 0 where
  object : List (Bytes × Field) → Item
  other_item : Item

pub data Root : Type 0 where
  array : List Item → Root
  other_root : Root

-- item[key]: null for a key that is not there.
unfoldable pub member : Bytes → List (Bytes × Field) → Field
member key [] = other
member key ((k, v) ∷ fields) = let found = member key fields in if k == key then v else found

unfoldable pub text_or : Bytes → Field → Bytes
text_or d (text s) = s
text_or d (boolean b) = d
text_or d other = d

unfoldable pub boolean_or : Bool → Field → Bool
boolean_or d (text s) = d
boolean_or d (boolean b) = b
boolean_or d other = d

-- In the order of the keys, as jsoncpp keeps them.
unfoldable pub webhook_to_json : Webhook → Item
webhook_to_json hook = object (
    (codes "active", boolean hook.active)
    ∷ (codes "id", text hook.id)
    ∷ (codes "secret", text hook.secret)
    ∷ (codes "url", text hook.url)
    ∷ [])

-- No webhook: not an object, or no id in it. A field of another type counts as an empty id.
unfoldable pub json_to_webhook : Item → Option Webhook
unfolding member text_or boolean_or
json_to_webhook other_item = none
json_to_webhook (object fields) = elim (text_or [] (member (codes "id") fields)) [
  | [] ↦ none
  | c ∷ cs ↦ some (record {
    id = c ∷ cs;
    url = text_or [] (member (codes "url") fields);
    secret = text_or [] (member (codes "secret") fields);
    active = boolean_or true (member (codes "active") fields);
  })
]

unfoldable pub parsed_hooks : List Item → List Webhook
unfolding json_to_webhook
parsed_hooks [] = []
parsed_hooks (item ∷ items) = elim (json_to_webhook item) [
  | none ↦ parsed_hooks items
  | some hook ↦ hook ∷ parsed_hooks items
]

unfoldable pub hooks_of : Option Root → List Webhook
unfolding parsed_hooks
hooks_of none = []
hooks_of (some other_root) = []
hooks_of (some (array items)) = parsed_hooks items

-- The registry and its store: what the store holds, and the saves that detached threads have to do.
pub record Registry : Type 0 where
  pub hooks : List Webhook
  pub stored : Option Bytes
  pub is_async : Bool
  pub detached : List Bytes

unfoldable pub find_hook : Bytes → List Webhook → Option Webhook
find_hook id [] = none
find_hook id (h ∷ hs) = let rest = find_hook id hs in if h.id == id then some h else rest

-- `it->url = url; ...` at the first webhook with the id
unfoldable pub update_hook : Webhook → List Webhook → List Webhook
update_hook new [] = []
update_hook new (h ∷ hs) =
    let rest = update_hook new hs in if h.id == new.id then new ∷ hs else h ∷ rest

-- hooks_.erase(it)
unfoldable pub erase_hook : Bytes → List Webhook → List Webhook
erase_hook id [] = []
erase_hook id (h ∷ hs) = let rest = erase_hook id hs in if h.id == id then hs else h ∷ rest

unfoldable pub put_hook : Webhook → List Webhook → List Webhook
unfolding find_hook update_hook
put_hook new hooks = elim (find_hook new.id hooks) [
  | none ↦ hooks ++ new ∷ []
  | some old ↦ update_hook new hooks
]

unfoldable pub active_snapshot : Registry → List Webhook
active_snapshot g = keep_if (λ (h : Webhook). h.active) g.hooks

unfoldable pub list : Registry → List Webhook
list g = g.hooks

module _ (write : Root → Bytes) (parse : Bytes → Option Root) where
  unfoldable pub serialize : List Webhook → Bytes
  unfolding webhook_to_json
  serialize hooks = write (array (map webhook_to_json hooks))

  -- `save_ok` is the answer of the store where it is asked at once.
  unfoldable pub persist : Bool → Bytes → Registry → Registry
  persist save_ok json g =
      if g.is_async
      then record g { detached = g.detached ++ json ∷ [] }
      else if save_ok
      then record g { stored = some json }
      else g

  -- A detached thread, one of those that have not ended, does its save and ends.
  unfoldable pub finish_save : ℕ → Bool → Registry → Registry
  finish_save i save_ok g = elim (get_elem? g.detached i) [
    | none ↦ g
    | some json ↦ record g {
      stored = if save_ok then some json else g.stored;
      detached = take i g.detached ++ drop (suc i) g.detached;
    }
  ]

  unfoldable pub load_from_store : Registry → Registry
  unfolding hooks_of
  load_from_store g = record g {
    hooks = elim g.stored [ none ↦ [] | some raw ↦ hooks_of (parse raw) ];
  }

  module _ (sha256_hex : Bytes → Bytes) where
    unfoldable pub id_of : Bytes → Bytes
    id_of url = take 16 (sha256_hex url)

    unfoldable pub add : Bool → Registry → Bytes → Bytes → Bool → Bytes × Registry
    unfolding id_of put_hook serialize persist
    add save_ok g url secret active =
        let hooks =
          put_hook (record { id = id_of url; url = url; secret = secret; active = active })
            g.hooks in
        (id_of url, persist save_ok (serialize hooks) (record g { hooks = hooks }))

  unfoldable pub remove : Bool → Registry → Bytes → Bool × Registry
  unfolding find_hook erase_hook serialize persist
  remove save_ok g id = elim (find_hook id g.hooks) [
    | none ↦ (false, g)
    | some hook ↦
        let hooks = erase_hook id g.hooks in
        (true, persist save_ok (serialize hooks) (record g { hooks = hooks }))
  ]
