-- ===== src/Webhook/Dispatcher/Urls.antt =====
-- The parts of a url that the dispatcher accepts: together they are the url.
use telegram_rest_gateway.Prelude.{
  ℕ, ◌≡◌, sym, ap, ◌∙◌, ◌⊎◌, inl, inr, none, some, [], ◌∷◌, ◌++◌, arith, Bool-cases, Option-cases,
  nat_eq, Bytes, bytes_eq, codes, take, drop, take-append-drop, some-injective,
}
use mathlib.Core.List.{append_assoc}
use telegram_rest_gateway.Prelude.Text.{find, starts_with, starts_with-append}
use telegram_rest_gateway.Webhook.Dispatcher.{split_scheme, ParsedUrl, url_of, parse_url}

pub split_scheme-append :
    (s a b : Bytes) → split_scheme s ≡ some (a, b) → s ≡ a ++ (codes "://" ++ b)
unfolding split_scheme
split_scheme-append [] a b h = ground (arith, h)
split_scheme-append (c ∷ cs) a b h = elim (Bool-cases (starts_with (c ∷ cs) (codes "://"))) [
  | inl e ↦ ground (arith, e, h, starts_with-append (c ∷ cs) (codes "://") e)
  | inr e ↦ elim (Option-cases (split_scheme cs)) [
    | inl k ↦ ground (arith, e, h, k)
    | inr (parts, k) ↦ ground (arith, e, h, k, split_scheme-append cs parts.0 parts.1 k)
  ]
]

-- The base and the path of an accepted url are the url, but for a path / that it leaves out.
abbrev pub IsUrl : Bytes → ParsedUrl → Type 0
IsUrl url p = (p.base ++ p.path ≡ url) ⊎ ((p.base ≡ url) × (p.path ≡ codes "/"))

url_of-parts :
    (scheme authority path : Bytes) (p : ParsedUrl)
    → url_of scheme authority path ≡ some p
    → (p.base ≡ scheme ++ (codes "://" ++ authority)) × (p.path ≡ path)
unfolding url_of
url_of-parts scheme [] path p h = ground (arith, h)
url_of-parts scheme (c ∷ cs) path p h =
    let e = some-injective h in
    (
      sym (ap (λ (u : ParsedUrl). u.base) e) ∙ append_assoc scheme (codes "://") (c ∷ cs),
      sym (ap (λ (u : ParsedUrl). u.path) e),
    )

pub no_scheme :
    {A : Type 0} (url : Bytes) (p : ParsedUrl)
    → split_scheme url ≡ none
    → parse_url url ≡ some p
    → A
unfolding parse_url
no_scheme url p e h = ground (arith, e, h)

pub no_slash :
    (url scheme rest : Bytes) (p : ParsedUrl)
    → split_scheme url ≡ some (scheme, rest)
    → find b'/' rest ≡ none
    → parse_url url ≡ some p
    → url_of scheme rest (codes "/") ≡ some p
unfolding parse_url
no_slash url scheme rest p e k h = ground (arith, e, k, h)

pub with_slash :
    (url scheme rest : Bytes) (slash : ℕ) (p : ParsedUrl)
    → split_scheme url ≡ some (scheme, rest)
    → find b'/' rest ≡ some slash
    → parse_url url ≡ some p
    → url_of scheme (take slash rest) (drop slash rest) ≡ some p
unfolding parse_url
with_slash url scheme rest slash p e k h = ground (arith, e, k, h)

-- The base and the path of an accepted url joined are the url; or the url has no path, and is the base,
-- and the path is /. So no part of it is dropped or changed on the way to the client.
pub parse_url-whole : (url : Bytes) (p : ParsedUrl) → parse_url url ≡ some p → IsUrl url p
parse_url-whole url p h = elim (Option-cases (split_scheme url)) [
  | inl e ↦ no_scheme url p e h
  | inr ((scheme, rest), e) ↦ elim (Option-cases (find b'/' rest)) [
    | inl k ↦
        let (base, path) =
          url_of-parts scheme rest (codes "/") p (no_slash url scheme rest p e k h) in
        inr (base ∙ sym (split_scheme-append url scheme rest e), path)
    | inr (slash, k) ↦
        let (base, path) =
          url_of-parts scheme (take slash rest) (drop slash rest) p
            (with_slash url scheme rest slash p e k h) in
        inl (
          ap (λ b. b ++ p.path) base
          ∙ (ap (λ r. (scheme ++ (codes "://" ++ take slash rest)) ++ r) path
              ∙ (append_assoc scheme (codes "://" ++ take slash rest) (drop slash rest)
                  ∙ (ap (λ r. scheme ++ r)
                        (append_assoc (codes "://") (take slash rest) (drop slash rest)
                          ∙ ap (λ r. codes "://" ++ r) (take-append-drop slash rest))
                      ∙ sym (split_scheme-append url scheme rest e)))))
  ]
]
