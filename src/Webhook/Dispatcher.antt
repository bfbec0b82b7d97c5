-- ===== src/Webhook/Dispatcher.antt =====
-- src/webhook/webhook_dispatcher.{hpp,cpp}: the queue of events that are to be delivered, and which of
-- the deliveries are sent. Parameters: `inet_pton6` is the system's inet_pton for AF_INET6 (none: it
-- did not return 1), `scan_ipv4` the four numbers of the sscanf (none: not four), `hmac` the
-- HMAC-SHA256 of OpenSSL, which util's hmacSha256 calls. The HTTP client and its loop thread are left
-- out: a delivery that is sent is the result of a step.
pub mod Guard
pub mod Blocks
pub mod Urls
pub mod Hosts
pub mod Queue
use telegram_rest_gateway.Prelude.{
  ℕ, zero, suc, ◌+◌, ◌-◌, ◌*◌, ◌/◌, ◌%◌, ◌^◌, ◌≤◌, ◌<◌, min, max, ◌≡◌, refl, sym, ap, ◌∙◌, subst,
  ◌≢◌, ◌↔◌, ◌⊎◌, inl, inr, Bool, true, false, ◌&&◌, ◌||◌, not, Option, none, some, List, [], ◌∷◌,
  ◌++◌, map, arith, ltb, leb, ltb→lt, lt→ltb, leb→le, if◌then◌else◌, Bool-cases, Option-cases, Eq,
  ◌==◌, eq_refl, nat_eq, Bytes, bytes_beq_iff, nat_beq_iff, bytes_eq, codes, length, get_elem?,
  get_or, take, drop, keep_if, all, any, length-append, length-keep_if-le, take-append-drop,
  length-take, length-drop, drop-append, take-append, All, All-append, All-map, All-keep_if, All-at,
  some-injective,
}
use telegram_rest_gateway.Webhook.Registry.{Webhook}
use telegram_rest_gateway.Prelude.Text.{find, starts_with}

-- "0123456789abcdef"[n]
unfoldable pub hex_digit : ℕ → ℕ
hex_digit n = get_or (codes "0123456789abcdef") n 0

-- Both digits of each byte, the high one first.
unfoldable pub to_hex_lower : Bytes → Bytes
unfolding hex_digit
to_hex_lower [] = []
to_hex_lower (c ∷ cs) = hex_digit (c / 16) ∷ hex_digit (c % 16) ∷ to_hex_lower cs

unfoldable pub sign_body : (Bytes → Bytes → Bytes) → Bytes → Bytes → Bytes
unfolding to_hex_lower
sign_body hmac secret body = codes "sha256=" ++ to_hex_lower (hmac secret body)

unfoldable pub is_private_ipv4_octets : ℕ → ℕ → Bool
is_private_ipv4_octets o0 o1 =
    if o0 == 127 || o0 == 10 || o0 == 0
    then true
    else if o0 == 192 && o1 == 168
    then true
    else if o0 == 172 && leb 16 o1 && leb o1 31
    then true
    else if o0 == 169 && o1 == 254
    then true
    else false

-- The 16 bytes of an IPv6 address. `octet i` is buf[i].
unfoldable pub octet : Bytes → ℕ → ℕ
octet buf i = get_or buf i 0

unfoldable pub all_zero : Bytes → Bool
all_zero bs = all (λ b. b == 0) bs

-- memcmp with kMappedPrefix
unfoldable pub is_mapped : Bytes → Bool
unfolding all_zero octet
is_mapped buf = all_zero (take 10 buf) && octet buf 10 == 255 && octet buf 11 == 255

-- `(b & 0xFE) == 0xFC` and `(b & 0xC0) == 0x80` on bytes
unfoldable pub is_private_ipv6 : Bytes → Bool
unfolding all_zero octet is_mapped is_private_ipv4_octets
is_private_ipv6 buf =
    if all_zero buf
    then true
    else if all_zero (take 15 buf) && octet buf 15 == 1
    then true
    else if octet buf 0 / 2 == 126
    then true
    else if octet buf 0 == 254 && octet buf 1 / 64 == 2
    then true
    else if is_mapped buf || all_zero (take 12 buf)
    then is_private_ipv4_octets (octet buf 12) (octet buf 13)
    else false

-- An IPv6 literal that inet_pton does not read counts as private.
unfoldable pub is_private_literal6 : Option Bytes → Bool
is_private_literal6 none = true
is_private_literal6 (some buf) = is_private_ipv6 buf

module _ (inet_pton6 : Bytes → Option Bytes) (scan_ipv4 : Bytes → Option (ℕ × ℕ × ℕ × ℕ)) where
  unfoldable pub is_private_host : Bytes → Bool
  unfolding find is_private_literal6 is_private_ipv4_octets
  is_private_host host =
      if host == [] || host == codes "localhost" then true else elim (find b':' host) [
        | some i ↦ is_private_literal6 (inet_pton6 host)
        | none ↦ elim (scan_ipv4 host) [
          | none ↦ false
          | some octets ↦ is_private_ipv4_octets octets.0 octets.1
        ]
      ]

-- url.find("://"), as what stands before it and after it.
unfoldable pub split_scheme : Bytes → Option (Bytes × Bytes)
unfolding starts_with
split_scheme [] = none
split_scheme (c ∷ cs) =
    let rest = split_scheme cs in
    if starts_with (c ∷ cs) (codes "://")
    then some ([], drop 3 (c ∷ cs))
    else elim rest [ none ↦ none | some parts ↦ some (c ∷ parts.0, parts.1) ]

pub record ParsedUrl : Type 0 where
  pub base : Bytes
  pub path : Bytes
  pub host : Bytes

unfoldable pub host_of : Bytes → Bytes
unfolding find
host_of [] = []
host_of (c ∷ cs) =
    if c == b'['
    then elim (find b']' (c ∷ cs)) [ none ↦ cs | some close ↦ take (close - 1) cs ]
    else elim (find b':' (c ∷ cs)) [ none ↦ c ∷ cs | some colon ↦ take colon (c ∷ cs) ]

unfoldable pub url_of : Bytes → Bytes → Bytes → Option ParsedUrl
unfolding host_of
url_of scheme [] path = none
url_of scheme (c ∷ cs) path =
    some (record { base = scheme ++ codes "://" ++ c ∷ cs; path = path; host = host_of (c ∷ cs) })

-- `valid == false` is none.
unfoldable pub parse_url : Bytes → Option ParsedUrl
unfolding split_scheme url_of find
parse_url url = elim (split_scheme url) [
  | none ↦ none
  | some (scheme, rest) ↦
      if not (scheme == codes "http") && not (scheme == codes "https")
      then none
      else elim (find b'/' rest) [
        | none ↦ url_of scheme rest (codes "/")
        | some slash ↦ url_of scheme (take slash rest) (drop slash rest)
      ]
]

-- The request of one delivery.
pub record Delivery : Type 0 where
  pub base : Bytes
  pub path : Bytes
  pub signature : Bytes
  pub event_id : Bytes
  pub body : Bytes

pub record Payload : Type 0 where
  pub event_id : Bytes
  pub body : Bytes

module _ (inet_pton6 : Bytes → Option Bytes) (scan_ipv4 : Bytes → Option (ℕ × ℕ × ℕ × ℕ))
    (hmac : Bytes → Bytes → Bytes) where
  -- deliverOnLoop, up to the request that it sends; none: the delivery is skipped.
  unfoldable pub deliver_on_loop : Bool → Webhook → Payload → Option Delivery
  unfolding parse_url is_private_host sign_body
  deliver_on_loop ssrf_guard hook payload = elim (parse_url hook.url) [
    | none ↦ none
    | some url ↦
        if ssrf_guard && is_private_host inet_pton6 scan_ipv4 url.host
        then none
        else some (record {
          base = url.base;
          path = url.path;
          signature = sign_body hmac hook.secret payload.body;
          event_id = payload.event_id;
          body = payload.body;
        })
  ]

-- The dispatcher with its worker. `posted` is what the worker has queued on the loop; `accepted` and
-- `taken` are the payloads that were ever put into the queue, and those that the worker took.
pub record Dispatcher : Type 0 where
  pub queue_max : ℕ
  pub queue : List Payload
  pub started : Bool
  pub stop_flag : Bool
  pub worker_done : Bool
  pub dropped : ℕ
  pub posted : List (Webhook × Payload)
  pub accepted : List Payload
  pub taken : List Payload

unfoldable pub init : ℕ → Dispatcher
init n = record {
  queue_max = n;
  queue = [];
  started = false;
  stop_flag = false;
  worker_done = false;
  dropped = 0;
  posted = [];
  accepted = [];
  taken = [];
}

unfoldable pub start : Dispatcher → Dispatcher
start d = if d.started then d else record d { started = true; stop_flag = false }

-- The counter of drops is a uint64.
unfoldable pub dispatch : Dispatcher → Payload → Dispatcher
dispatch d p =
    if not d.started || d.stop_flag
    then d
    else if leb d.queue_max (length d.queue)
    then record d { dropped = (d.dropped + 1) % 2 ^ 64 }
    else record d { queue = d.queue ++ p ∷ []; accepted = d.accepted ++ p ∷ [] }

unfoldable pub fan : List Webhook → Payload → List (Webhook × Payload)
fan [] p = []
fan (h ∷ hs) p = (h, p) ∷ fan hs p

unfoldable pub post_all : List Webhook → List Payload → List (Webhook × Payload)
unfolding fan
post_all hooks [] = []
post_all hooks (p ∷ ps) = fan hooks p ++ post_all hooks ps

unfoldable pub is_done : List Payload → Bool → Bool
is_done [] stop_flag = stop_flag
is_done (p ∷ ps) stop_flag = false

-- One round of workerLoop once its wait is over, with the webhooks that are active then; before the
-- start and after its return there is no worker.
unfoldable pub worker_round : Dispatcher → List Webhook → Dispatcher
unfolding is_done post_all
worker_round d hooks =
    if not d.started || d.worker_done
    then d
    else if is_done d.queue d.stop_flag
    then record d { worker_done = true }
    else record d {
      queue = [];
      taken = d.taken ++ d.queue;
      posted = d.posted ++ post_all hooks d.queue;
    }

-- stop() up to its join of the worker.
unfoldable pub stop : Dispatcher → Dispatcher
stop d = record d { stop_flag = true }
