-- ===== src/Webhook/Registry/Lookup.antt =====
-- What add and remove leave under each id, and that no id comes to stand twice.
use telegram_rest_gateway.Prelude.{
  ◌≡◌, refl, sym, subst, ◌≢◌, ◌⊎◌, inl, inr, Bool, true, false, Option, none, some, List, [], ◌∷◌,
  ◌++◌, arith, if◌then◌else◌, Option-cases, ◌==◌, nat_eq, Bytes, bytes_beq_iff, bytes_eq,
}
use telegram_rest_gateway.Webhook.Registry.{
  Webhook, Registry, Root, find_hook, update_hook, erase_hook, put_hook, serialize, persist, id_of,
  add, remove,
}

-- No id stands twice.
abbrev pub UniqueIds : List Webhook → Type 0
UniqueIds [] = Unit
UniqueIds (h ∷ hs) = (find_hook h.id hs ≡ none) × UniqueIds hs

find-update :
    (id : Bytes) (new : Webhook) (hs : List Webhook) (old : Webhook)
    → find_hook new.id hs ≡ some old
    → find_hook id (update_hook new hs) ≡ (if new.id == id then some new else find_hook id hs)
unfolding find_hook update_hook
find-update id new [] old h = ground arith
find-update id new (h ∷ hs) old e = ground (
  arith,
  bytes_beq_iff h.id new.id,
  bytes_beq_iff h.id id,
  bytes_beq_iff new.id id,
  find-update id new hs old,
)

find-append :
    (id : Bytes) (new : Webhook) (hs : List Webhook)
    → find_hook new.id hs ≡ none
    → find_hook id (hs ++ new ∷ []) ≡ (if new.id == id then some new else find_hook id hs)
unfolding find_hook
find-append id new [] e = refl
find-append id new (h ∷ hs) e = ground (
  arith,
  bytes_beq_iff h.id new.id,
  bytes_beq_iff h.id id,
  bytes_beq_iff new.id id,
  find-append id new hs,
)

find-put :
    (id : Bytes) (new : Webhook) (hs : List Webhook)
    → find_hook id (put_hook new hs) ≡ (if new.id == id then some new else find_hook id hs)
unfolding put_hook
find-put id new hs = elim (Option-cases (find_hook new.id hs)) [
  | inl e ↦ ground (arith, e, find-append id new hs e)
  | inr (old, e) ↦ ground (arith, e, find-update id new hs old e)
]

find-erase :
    (id j : Bytes) (hs : List Webhook)
    → UniqueIds hs
    → find_hook j (erase_hook id hs) ≡ (if id == j then none else find_hook j hs)
unfolding find_hook erase_hook
find-erase id j [] u = ground arith
find-erase id j (h ∷ hs) u = ground (
  arith,
  bytes_beq_iff h.id id,
  bytes_beq_iff h.id j,
  bytes_beq_iff id j,
  find-erase id j hs u.1,
  u.0,
)

update-UniqueIds :
    (new : Webhook) (hs : List Webhook) (old : Webhook)
    → find_hook new.id hs ≡ some old
    → UniqueIds hs
    → UniqueIds (update_hook new hs)
unfolding update_hook find_hook
update-UniqueIds new [] old e u = tt
update-UniqueIds new (h ∷ hs) old e u = ground (
  arith,
  bytes_beq_iff h.id new.id,
  update-UniqueIds new hs old,
  find-update h.id new hs old,
  bytes_beq_iff new.id h.id,
  u.0,
  u.1,
)

append-UniqueIds :
    (new : Webhook) (hs : List Webhook)
    → find_hook new.id hs ≡ none
    → UniqueIds hs
    → UniqueIds (hs ++ new ∷ [])
unfolding find_hook
append-UniqueIds new [] e u = (refl, tt)
append-UniqueIds new (h ∷ hs) e u = ground (
  arith,
  bytes_beq_iff h.id new.id,
  append-UniqueIds new hs,
  find-append h.id new hs,
  bytes_beq_iff new.id h.id,
  u.0,
  u.1,
)

put-UniqueIds : (new : Webhook) (hs : List Webhook) → UniqueIds hs → UniqueIds (put_hook new hs)
unfolding put_hook
put-UniqueIds new hs u = elim (Option-cases (find_hook new.id hs)) [
  | inl e ↦ ground (arith, e, append-UniqueIds new hs e u)
  | inr (old, e) ↦ ground (arith, e, update-UniqueIds new hs old e u)
]

erase-UniqueIds : (id : Bytes) (hs : List Webhook) → UniqueIds hs → UniqueIds (erase_hook id hs)
unfolding erase_hook find_hook
erase-UniqueIds id [] u = tt
erase-UniqueIds id (h ∷ hs) u =
    ground (arith, erase-UniqueIds id hs u.1, find-erase id h.id hs u.1, u.0, u.1)

persist-hooks :
    (write : Root → Bytes) (parse : Bytes → Option Root) (ok : Bool) (json : Bytes) (g : Registry)
    → (persist write parse ok json g).hooks ≡ g.hooks
unfolding persist
persist-hooks write parse ok json g = ground arith

module _ (write : Root → Bytes) (parse : Bytes → Option Root) where
  -- The webhook that add makes stands under its id, in place of one that was there; under every other
  -- id the registry holds what it held, and no id comes to stand twice.
  pub add-find :
      (sha256_hex : Bytes → Bytes) (save_ok : Bool) (g : Registry) (url secret : Bytes)
      (active : Bool)
      → UniqueIds g.hooks
      → let hooks = (add write parse sha256_hex save_ok g url secret active).1.hooks in
        let id = (add write parse sha256_hex save_ok g url secret active).0 in
        ((j : Bytes)
          → find_hook j hooks ≡ (
              if id == j
              then some (record { id = id; url = url; secret = secret; active = active })
              else find_hook j g.hooks))
        × UniqueIds hooks
  unfolding add
  add-find sha256_hex save_ok g url secret active u =
      let new : Webhook = record {
        id = id_of write parse sha256_hex url;
        url = url;
        secret = secret;
        active = active;
      } in
      let same = sym (
        persist-hooks write parse save_ok (serialize write parse (put_hook new g.hooks))
          (record g { hooks = put_hook new g.hooks })) in
      (
        (λ j.
            subst (λ hs. find_hook j hs ≡ (if new.id == j then some new else find_hook j g.hooks))
              same (find-put j new g.hooks)),
        subst UniqueIds same (put-UniqueIds new g.hooks u),
      )

  remove_missing :
      (save_ok : Bool) (g : Registry) (id : Bytes)
      → find_hook id g.hooks ≡ none
      → remove write parse save_ok g id ≡ (false, g)
  unfolding remove
  remove_missing save_ok g id e = ground (arith, e)

  remove_found :
      (save_ok : Bool) (g : Registry) (id : Bytes) (old : Webhook)
      → find_hook id g.hooks ≡ some old
      → remove write parse save_ok g id ≡ (
        true,
        persist write parse save_ok
            (serialize write parse (erase_hook id g.hooks))
            (record g { hooks = erase_hook id g.hooks }),
      )
  unfolding remove
  remove_found save_ok g id old e = ground (arith, e)

  -- The answer and the state of a remove.
  abbrev pub Removed : Registry → Bytes → Bool × Registry → Type 0
  Removed g id r =
      ((j : Bytes) → find_hook j r.1.hooks ≡ (if id == j then none else find_hook j g.hooks))
      × UniqueIds r.1.hooks
      × ((r.0 ≡ true) × (find_hook id g.hooks ≢ none)
          ⊎ (r.0 ≡ false) × (find_hook id g.hooks ≡ none) × (r.1 ≡ g))

  find_missing :
      (g : Registry) (id j : Bytes)
      → find_hook id g.hooks ≡ none
      → find_hook j g.hooks ≡ (if id == j then none else find_hook j g.hooks)
  find_missing g id j e = ground (arith, bytes_beq_iff id j, e)

  -- A remove leaves the registry without the id and answers whether the id was there; if it was not,
  -- the whole state is as it was.
  pub remove-find :
      (save_ok : Bool) (g : Registry) (id : Bytes)
      → UniqueIds g.hooks
      → Removed g id (remove write parse save_ok g id)
  remove-find save_ok g id u =
      let hooks = erase_hook id g.hooks in
      let same = sym (
        persist-hooks write parse save_ok (serialize write parse hooks)
          (record g { hooks = hooks })) in
      elim (Option-cases (find_hook id g.hooks)) [
        | inl e ↦
            subst (Removed g id) (sym (remove_missing save_ok g id e))
              ((λ j. find_missing g id j e), u, inr (refl, e, refl))
        | inr (old, e) ↦ subst (Removed g id) (sym (remove_found save_ok g id old e)) (
          (λ j.
              subst (λ hs. find_hook j hs ≡ (if id == j then none else find_hook j g.hooks)) same
                (find-erase id j g.hooks u)),
          subst UniqueIds same (erase-UniqueIds id g.hooks u),
          inl (refl, ground (arith, e)),
        )
      ]
