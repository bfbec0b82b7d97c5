-- ===== src/Webhook/Registry/Restart/Tests.antt =====
-- A writer and a reader that fit, and a registry with two webhooks.
use telegram_rest_gateway.Prelude.{
  ℕ, zero, suc, ◌+◌, ◌%◌, ◌<◌, ◌≡◌, refl, ap, true, false, Option, none, some, List, [], ◌∷◌, ◌++◌,
  map, arith, ltb, nat_eq, Bytes, bytes_eq, codes, length, take, drop, all, drop-append,
  take-append, All,
}
use telegram_rest_gateway.Webhook.Registry.{
  Webhook, Registry, Root, array, other_root, Item, object, other_item, Field, text, boolean, other,
  find_hook, add, finish_save, persist, webhook_to_json,
}
use telegram_rest_gateway.Webhook.Registry.Lookup.{UniqueIds}
use telegram_rest_gateway.Webhook.Registry.Restart.{
  Reads, HasId, HasUtf8, restarted, saved, add-restart,
}

abbrev write_text : Bytes → Bytes → Bytes
write_text s k = length s ∷ s ++ k

abbrev write_field : Field → Bytes → Bytes
write_field (text s) k = 0 ∷ write_text s k
write_field (boolean false) k = 1 ∷ k
write_field (boolean true) k = 2 ∷ k
write_field other k = 3 ∷ k

abbrev write_fields : List (Bytes × Field) → Bytes → Bytes
write_fields [] k = k
write_fields ((key, v) ∷ fields) k = write_text key (write_field v (write_fields fields k))

abbrev write_items : List Item → Bytes → Bytes
write_items [] k = k
write_items (object fields ∷ items) k =
    0 ∷ length fields ∷ write_fields fields (write_items items k)
write_items (other_item ∷ items) k = 1 ∷ write_items items k

abbrev write : Root → Bytes
write (array items) = 0 ∷ length items ∷ write_items items []
write other_root = 1 ∷ []

abbrev read_text : Bytes → Bytes × Bytes
read_text [] = ([], [])
read_text (n ∷ s) = (take n s, drop n s)

abbrev read_field : Bytes → Field × Bytes
read_field (zero ∷ s) = let (t, k) = read_text s in (text t, k)
read_field (suc zero ∷ s) = (boolean false, s)
read_field (suc (suc zero) ∷ s) = (boolean true, s)
read_field (suc (suc (suc n)) ∷ s) = (other, s)
read_field [] = (other, [])

abbrev read_fields : ℕ → Bytes → List (Bytes × Field) × Bytes
read_fields zero s = ([], s)
read_fields (suc n) s =
    let (key, s1) = read_text s in
    let (v, s2) = read_field s1 in let (fields, s3) = read_fields n s2 in ((key, v) ∷ fields, s3)

abbrev read_items : ℕ → Bytes → List Item
read_items zero s = []
read_items (suc m) (zero ∷ n ∷ s) =
    let (fields, k) = read_fields n s in object fields ∷ read_items m k
read_items (suc m) (suc t ∷ s) = other_item ∷ read_items m s
read_items (suc m) _ = []

abbrev read : Bytes → Option Root
read (zero ∷ n ∷ s) = some (array (read_items n s))
read _ = some other_root

read-text : (s k : Bytes) → read_text (write_text s k) ≡ (s, k)
read-text s k = ground (arith, take-append s k, drop-append s k)

read-field : (v : Field) (k : Bytes) → read_field (write_field v k) ≡ (v, k)
read-field (text s) k = ground (arith, take-append s k, drop-append s k)
read-field (boolean false) k = refl
read-field (boolean true) k = refl
read-field other k = refl

read-fields :
    (fields : List (Bytes × Field)) (k : Bytes)
    → read_fields (length fields) (write_fields fields k) ≡ (fields, k)
read-fields [] k = refl
read-fields ((key, v) ∷ fields) k = rw (
  take-append key (write_field v (write_fields fields k)),
  drop-append key (write_field v (write_fields fields k)),
  read-field v (write_fields fields k),
  read-fields fields k,
)

read-items : (items : List Item) → read_items (length items) (write_items items []) ≡ items
read-items [] = refl
read-items (object fields ∷ items) =
    rw (read-fields fields (write_items items []), read-items items)
read-items (other_item ∷ items) = ap (◌∷◌ other_item) (read-items items)

read-root : (json : Root) → read (write json) ≡ some json
read-root (array items) = ap (λ js. some (array js)) (read-items items)
read-root other_root = refl

read-write : Reads write read
read-write hooks u = read-root (array (map webhook_to_json hooks))

-- A digest of 17 bytes that tells texts apart by their length, if it is short.
abbrev digest : Bytes → Bytes
digest s = (length s % 10 + b'0') ∷ codes "0123456789abcdef"

digest_ascii : (s : Bytes) → (0 < length (digest s)) × (all (λ c. ltb c 128) (digest s) ≡ true)
digest_ascii s = (omega arith, ground arith)

abbrev hook_of : Bytes → Webhook
hook_of url = record { id = take 16 (digest url); url = url; secret = codes "key"; active = true }

abbrev two : Registry
two = record {
  hooks = hook_of (codes "http://a/") ∷ hook_of (codes "http://bb/") ∷ [];
  stored = none;
  is_async = false;
  detached = [];
}

two-UniqueIds : UniqueIds two.hooks
unfolding find_hook
two-UniqueIds = (refl, (refl, tt))

two-HasId : All HasId two.hooks
two-HasId = (omega arith, (omega arith, tt))

two-HasUtf8 : All HasUtf8 two.hooks
two-HasUtf8 = ((refl, refl, refl), ((refl, refl, refl), tt))

-- The same registry over a store that saves in threads, one of which still runs.
abbrev two_async : Registry
two_async = record two { is_async = true; detached = codes "older" ∷ [] }

add-restart_example :
    let g' = (add write read digest true two_async (codes "http://a/") (codes "new") false).1 in
    (restarted write read read-write (saved write read read-write 1 g').stored).hooks ≡ g'.hooks
add-restart_example =
    add-restart write read read-write digest two_async (codes "http://a/") (codes "new") false
      digest_ascii two-HasId two-HasUtf8 refl refl

-- The thread of an older save ends last: the store keeps the older webhooks.
older_wins :
    (finish_save write read 0 true (
      finish_save write read 1 true
        (add write read digest true two_async (codes "http://a/") (codes "new") false).1)).stored
    ≡ some (codes "older")
unfolding finish_save add persist
older_wins = refl
