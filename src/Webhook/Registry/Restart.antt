-- ===== src/Webhook/Registry/Restart.antt =====
-- A registry that starts from what the store holds.
pub mod Tests
use telegram_rest_gateway.Prelude.{
  ℕ, zero, suc, ◌+◌, ◌-◌, ◌*◌, ◌/◌, ◌%◌, ◌^◌, ◌≤◌, ◌<◌, min, max, ◌≡◌, refl, sym, ap, ◌∙◌, subst,
  ◌≢◌, ◌↔◌, ◌⊎◌, inl, inr, Bool, true, false, ◌&&◌, ◌||◌, not, Option, none, some, List, [], ◌∷◌,
  ◌++◌, map, arith, ltb, leb, ltb→lt, lt→ltb, leb→le, if◌then◌else◌, Bool-cases, Option-cases, Eq,
  ◌==◌, eq_refl, nat_eq, Bytes, bytes_beq_iff, nat_beq_iff, bytes_eq, codes, length, get_elem?,
  get_or, take, drop, keep_if, all, any, length-append, length-keep_if-le, take-append-drop,
  length-take, length-drop, drop-append, take-append, All, All-append, All-map, All-keep_if, All-at,
  some-injective,
}
use telegram_rest_gateway.Prelude.Utf8.{is_utf8, ascii-take}
use telegram_rest_gateway.Webhook.Registry.{
  Webhook, Registry, Root, array, Item, webhook_to_json, json_to_webhook, parsed_hooks, hooks_of,
  finish_save, find_hook, update_hook, erase_hook, put_hook, serialize, persist, load_from_store,
  id_of, add, remove,
}

abbrev pub HasUtf8 : Webhook → Type 0
HasUtf8 h = (is_utf8 h.id ≡ true) × (is_utf8 h.url ≡ true) × (is_utf8 h.secret ≡ true)

-- The reader reads what the writer wrote of webhooks whose texts are UTF-8.
abbrev pub Reads : (Root → Bytes) → (Bytes → Option Root) → Type 0
Reads write parse =
    (hooks : List Webhook)
    → All HasUtf8 hooks
    → let json = array (map webhook_to_json hooks) in parse (write json) ≡ some json

abbrev pub HasId : Webhook → Type 0
HasId h = 0 < length h.id

json_to_webhook-webhook_to_json :
    (h : Webhook) → HasId h → json_to_webhook (webhook_to_json h) ≡ some h
unfolding json_to_webhook webhook_to_json
json_to_webhook-webhook_to_json h has = go h.id refl
  where
    go : (i : Bytes) → h.id ≡ i → json_to_webhook (webhook_to_json h) ≡ some h
    go [] e = ground (arith, e, has)
    go (c ∷ cs) e = ground (arith, e)

parsed_hooks-map : (hs : List Webhook) → All HasId hs → parsed_hooks (map webhook_to_json hs) ≡ hs
unfolding parsed_hooks
parsed_hooks-map [] all_have = refl
parsed_hooks-map (h ∷ hs) all_have =
    ground (arith, json_to_webhook-webhook_to_json h all_have.0, parsed_hooks-map hs all_have.1)

update-HasId :
    (new : Webhook) (hs : List Webhook) → HasId new → All HasId hs → All HasId (update_hook new hs)
unfolding update_hook
update-HasId new [] n a = tt
update-HasId new (h ∷ hs) n a = ground (arith, update-HasId new hs n a.1, n, a.0, a.1)

update-HasUtf8 :
    (new : Webhook) (hs : List Webhook)
    → HasUtf8 new
    → All HasUtf8 hs
    → All HasUtf8 (update_hook new hs)
unfolding update_hook
update-HasUtf8 new [] n a = tt
update-HasUtf8 new (h ∷ hs) n a = ground (arith, update-HasUtf8 new hs n a.1, n, a.0, a.1)

put-HasId :
    (new : Webhook) (hs : List Webhook) → HasId new → All HasId hs → All HasId (put_hook new hs)
unfolding put_hook
put-HasId new hs n a = elim (Option-cases (find_hook new.id hs)) [
  | inl e ↦ ground (arith, e, All-append HasId hs (new ∷ []) a (n, tt))
  | inr (old, e) ↦ ground (arith, e, update-HasId new hs n a)
]

put-HasUtf8 :
    (new : Webhook) (hs : List Webhook)
    → HasUtf8 new
    → All HasUtf8 hs
    → All HasUtf8 (put_hook new hs)
unfolding put_hook
put-HasUtf8 new hs n a = elim (Option-cases (find_hook new.id hs)) [
  | inl e ↦ ground (arith, e, All-append HasUtf8 hs (new ∷ []) a (n, tt))
  | inr (old, e) ↦ ground (arith, e, update-HasUtf8 new hs n a)
]

get-last : (xs : List Bytes) (x : Bytes) → get_elem? (xs ++ x ∷ []) (length xs) ≡ some x
get-last [] x = refl
get-last (y ∷ xs) x = get-last xs x

erase-HasId : (id : Bytes) (hs : List Webhook) → All HasId hs → All HasId (erase_hook id hs)
unfolding erase_hook
erase-HasId id [] a = tt
erase-HasId id (h ∷ hs) a = ground (arith, erase-HasId id hs a.1, a.0, a.1)

hooks_of-array :
    (hs : List Webhook) → All HasId hs → hooks_of (some (array (map webhook_to_json hs))) ≡ hs
unfolding hooks_of
hooks_of-array hs a = parsed_hooks-map hs a

take_nonempty : (xs : Bytes) → 0 < length xs → 0 < length (take 16 xs)
take_nonempty [] h = h
take_nonempty (x ∷ xs) h = omega arith

module _ (write : Root → Bytes) (parse : Bytes → Option Root) (reads : Reads write parse) where
  -- What a registry loads from what a saved one has stored.
  abbrev pub restarted : Option Bytes → Registry
  restarted stored =
      load_from_store write parse
        (record { hooks = []; stored = stored; is_async = false; detached = [] })

  restarted-serialize :
      (hs : List Webhook)
      → All HasId hs
      → All HasUtf8 hs
      → (restarted (some (serialize write parse hs))).hooks ≡ hs
  unfolding load_from_store serialize
  restarted-serialize hs a u = ap hooks_of (reads hs u) ∙ hooks_of-array hs a

  -- The registry when its last save has been done: at once, or by the thread at that place among those that
  -- have not ended.
  abbrev pub saved : ℕ → Registry → Registry
  saved before g = if g.is_async then finish_save write parse before true g else g

  persist-hooks : (json : Bytes) (g : Registry) → (persist write parse true json g).hooks ≡ g.hooks
  unfolding persist
  persist-hooks json g = ground arith

  persist-saved :
      (json : Bytes) (g : Registry)
      → (saved (length g.detached) (persist write parse true json g)).stored ≡ some json
  unfolding persist finish_save
  persist-saved json g = ground (arith, get-last g.detached json)

  restarted-persist :
      (g : Registry)
      → All HasId g.hooks
      → All HasUtf8 g.hooks
      → let g' = persist write parse true (serialize write parse g.hooks) g in
        (restarted (saved (length g.detached) g').stored).hooks ≡ g'.hooks
  restarted-persist g a u =
      let json = serialize write parse g.hooks in
      ap (λ o. (restarted o).hooks) (persist-saved json g)
      ∙ restarted-serialize g.hooks a u
      ∙ sym (persist-hooks json g)

  -- With webhooks whose texts are UTF-8 and a digest in ASCII, a registry that starts from the store once the
  -- save of an add has been done has the same webhooks, in the same order. That save is the one that the add
  -- does itself, or with a store like that of S3 the one of the thread that it starts, before
  -- any other thread that still runs ends.
  pub add-restart :
      (sha256_hex : Bytes → Bytes) (g : Registry) (url secret : Bytes) (active : Bool)
      → ((s : Bytes) → (0 < length (sha256_hex s)) × (all (λ c. ltb c 128) (sha256_hex s) ≡ true))
      → All HasId g.hooks
      → All HasUtf8 g.hooks
      → is_utf8 url ≡ true
      → is_utf8 secret ≡ true
      → let g' = (add write parse sha256_hex true g url secret active).1 in
        (restarted (saved (length g.detached) g').stored).hooks ≡ g'.hooks
  unfolding add id_of
  add-restart sha256_hex g url secret active digest a u url_utf8 secret_utf8 =
      let new : Webhook = record {
        id = id_of write parse sha256_hex url;
        url = url;
        secret = secret;
        active = active;
      } in
      let (nonempty, ascii) = digest url in
      restarted-persist (record g { hooks = put_hook new g.hooks })
        (put-HasId new g.hooks (take_nonempty (sha256_hex url) nonempty) a)
        (put-HasUtf8 new g.hooks (ascii-take 16 (sha256_hex url) ascii, url_utf8, secret_utf8) u)
