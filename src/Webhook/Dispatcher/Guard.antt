-- ===== src/Webhook/Dispatcher/Guard.antt =====
-- Which hosts a delivery with the guard can be sent to.
pub mod Tests
use telegram_rest_gateway.Prelude.{
  ℕ, zero, suc, ◌+◌, ◌-◌, ◌*◌, ◌/◌, ◌%◌, ◌^◌, ◌≤◌, ◌<◌, min, max, ◌≡◌, refl, sym, ap, ◌∙◌, subst,
  ◌≢◌, ◌↔◌, ◌⊎◌, inl, inr, Bool, true, false, ◌&&◌, ◌||◌, not, Option, none, some, List, [], ◌∷◌,
  ◌++◌, map, arith, ltb, leb, ltb→lt, lt→ltb, leb→le, if◌then◌else◌, Bool-cases, Option-cases, Eq,
  ◌==◌, eq_refl, nat_eq, Bytes, bytes_beq_iff, nat_beq_iff, bytes_eq, codes, length, get_elem?,
  get_or, take, drop, keep_if, all, any, length-append, length-keep_if-le, take-append-drop,
  length-take, length-drop, drop-append, take-append, All, All-append, All-map, All-keep_if, All-at,
  some-injective,
}
use telegram_rest_gateway.Prelude.Text.{find, starts_with, starts_with-append}
use telegram_rest_gateway.Webhook.Registry.{Webhook}
use telegram_rest_gateway.Webhook.Dispatcher.{
  is_private_ipv4_octets, octet, all_zero, is_mapped, is_private_ipv6, is_private_literal6,
  is_private_host, split_scheme, ParsedUrl, host_of, url_of, parse_url, Delivery, Payload,
  deliver_on_loop, sign_body,
}
use telegram_rest_gateway.Webhook.Dispatcher.Blocks.{
  in_cidr, private_ipv4, private_ipv6, ipv4_private, ipv6_private,
}
use telegram_rest_gateway.Webhook.Dispatcher.Urls.{IsUrl, parse_url-whole}
use telegram_rest_gateway.Webhook.Dispatcher.Hosts.{HostOf, parse_url-HostOf}

module _ (inet_pton6 : Bytes → Option Bytes) (scan_ipv4 : Bytes → Option (ℕ × ℕ × ℕ × ℕ))
    (hmac : Bytes → Bytes → Bytes) where
  -- A name, four numbers in no private block, or an IPv6 literal that the system reads and that is in no
  -- private block.
  pub data Public : Bytes → Type 0 where
    name : (host : Bytes) → find b':' host ≡ none → scan_ipv4 host ≡ none → Public host
    dotted :
        (host : Bytes) (o0 o1 o2 o3 : ℕ)
        → find b':' host ≡ none
        → scan_ipv4 host ≡ some (o0, o1, o2, o3)
        → any (in_cidr (o0 ∷ o1 ∷ o2 ∷ o3 ∷ [])) private_ipv4 ≡ false
        → Public host
    literal6 :
        (host buf : Bytes)
        → inet_pton6 host ≡ some buf
        → any (in_cidr buf) private_ipv6 ≡ false
        → Public host

  colon :
      (host : Bytes) (i : ℕ)
      → find b':' host ≡ some i
      → is_private_host inet_pton6 scan_ipv4 host ≡ false
      → is_private_literal6 (inet_pton6 host) ≡ false
  unfolding is_private_host
  colon host i e h = ground (arith, e, h)

  no_literal : (host : Bytes) → is_private_literal6 none ≡ false → Public host
  unfolding is_private_literal6
  no_literal host h = ground (arith, h)

  not_private_literal :
      (host buf : Bytes) (i : ℕ)
      → length buf ≡ 16
      → find b':' host ≡ some i
      → inet_pton6 host ≡ some buf
      → is_private_host inet_pton6 scan_ipv4 host ≡ false
      → Public host
  unfolding is_private_literal6
  not_private_literal host buf i long e k h = literal6 host buf k (
      sym (ipv6_private buf long) ∙ subst (λ o. is_private_literal6 o ≡ false) k (colon host i e h))

  not_private_octets :
      (host : Bytes) (o0 o1 o2 o3 : ℕ)
      → find b':' host ≡ none
      → scan_ipv4 host ≡ some (o0, o1, o2, o3)
      → is_private_host inet_pton6 scan_ipv4 host ≡ false
      → Public host
  unfolding is_private_host
  not_private_octets host o0 o1 o2 o3 e k h =
      dotted host o0 o1 o2 o3 e k (sym (ipv4_private o0 o1 o2 o3) ∙ ground (arith, h, e, k))

  not_private :
      (host : Bytes)
      → ((buf : Bytes) → inet_pton6 host ≡ some buf → length buf ≡ 16)
      → is_private_host inet_pton6 scan_ipv4 host ≡ false
      → (host ≢ []) × (host ≢ codes "localhost") × Public host
  unfolding is_private_host is_private_literal6
  not_private host fills h = (
    ground (arith, h, bytes_beq_iff host []),
    ground (arith, h, bytes_beq_iff host (codes "localhost")),
    public,
  )
    where
      public : Public host
      public = elim (Option-cases (find b':' host)) [
        | inr (i, e) ↦ elim (Option-cases (inet_pton6 host)) [
          | inl k ↦
              no_literal host (subst (λ o. is_private_literal6 o ≡ false) k (colon host i e h))
          | inr (buf, k) ↦ not_private_literal host buf i (fills buf k) e k h
        ]
        | inl e ↦ elim (Option-cases (scan_ipv4 host)) [
          | inl k ↦ name host e k
          | inr ((o0, o1, o2, o3), k) ↦ not_private_octets host o0 o1 o2 o3 e k h
        ]
      ]

  sent :
      (hook : Webhook) (payload : Payload) (url : ParsedUrl)
      → parse_url hook.url ≡ some url
      → is_private_host inet_pton6 scan_ipv4 url.host ≡ false
      → deliver_on_loop inet_pton6 scan_ipv4 hmac true hook payload
        ≡ some (record {
          base = url.base;
          path = url.path;
          signature = sign_body hmac hook.secret payload.body;
          event_id = payload.event_id;
          body = payload.body;
        })
  unfolding deliver_on_loop
  sent hook payload url e k = ground (arith, e, k)

  delivered :
      (hook : Webhook) (payload : Payload) (d : Delivery)
      → deliver_on_loop inet_pton6 scan_ipv4 hmac true hook payload ≡ some d
      → (url : ParsedUrl) × (parse_url hook.url ≡ some url)
        × (is_private_host inet_pton6 scan_ipv4 url.host ≡ false)
        × (d.base ≡ url.base)
        × (d.path ≡ url.path)
  unfolding deliver_on_loop
  delivered hook payload d h = elim (Option-cases (parse_url hook.url)) [
    | inl e ↦ ground (arith, h, e)
    | inr (url, e) ↦ elim (Bool-cases (is_private_host inet_pton6 scan_ipv4 url.host)) [
      | inl k ↦ ground (arith, h, e, k)
      | inr k ↦
          let same = some-injective (sym (sent hook payload url e k) ∙ h) in
          (
            url,
            e,
            k,
            sym (ap (λ (x : Delivery). x.base) same),
            sym (ap (λ (x : Delivery). x.path) same),
          )
    ]
  ]

  -- With the guard on, and where inet_pton writes 16 bytes, a request is only sent if the host in the text of
  -- the webhook's url is not empty, not localhost, and is a name, four numbers in no private block, or an IPv6
  -- literal in no private block; and it goes to that url.
  pub deliver_to_public :
      (hook : Webhook) (payload : Payload) (d : Delivery)
      → ((host buf : Bytes) → inet_pton6 host ≡ some buf → length buf ≡ 16)
      → deliver_on_loop inet_pton6 scan_ipv4 hmac true hook payload ≡ some d
      → (host : Bytes) × HostOf hook.url host
        × (host ≢ [])
        × (host ≢ codes "localhost")
        × Public host
        × IsUrl hook.url (record { base = d.base; path = d.path; host = host })
  deliver_to_public hook payload d fills h =
      let (url, e, k, base, path) = delivered hook payload d h in
      let (nonempty, not_local, public) = not_private url.host (fills url.host) k in
      (
        url.host,
        parse_url-HostOf hook.url url e,
        nonempty,
        not_local,
        public,
        subst (λ b. IsUrl hook.url (record { base = b; path = d.path; host = url.host })) (sym base)
            (subst (λ q. IsUrl hook.url (record { base = url.base; path = q; host = url.host }))
              (sym path) (parse_url-whole hook.url url e)),
      )
