-- ===== src/Webhook/Dispatcher/Guard/Tests.antt =====
-- Urls with the guard, and a dispatcher with room for one event.
use telegram_rest_gateway.Prelude.{
  ℕ, ◌≡◌, refl, sym, ap, ◌∙◌, ◌≢◌, inl, inr, true, false, Option, none, some, List, [], ◌∷◌, arith,
  if◌then◌else◌, Bool-cases, ◌==◌, nat_eq, Bytes, bytes_eq, codes, length, some-injective,
}
use telegram_rest_gateway.Webhook.Registry.{Webhook}
use telegram_rest_gateway.Webhook.Dispatcher.{
  Payload, Delivery, ParsedUrl, init, start, dispatch, stop, worker_round, parse_url,
  deliver_on_loop, sign_body, is_private_host, is_private_ipv6,
}
use telegram_rest_gateway.Webhook.Dispatcher.Queue.{Event, run, step, Sound, run-Sound, stop_drains}
use telegram_rest_gateway.Webhook.Dispatcher.Guard.{deliver_to_public, Public}
use telegram_rest_gateway.Webhook.Dispatcher.Urls.{IsUrl}
use telegram_rest_gateway.Webhook.Dispatcher.Hosts.{HostOf}

abbrev mapped_loopback : Bytes
mapped_loopback = 0 ∷ 0 ∷ 0 ∷ 0 ∷ 0 ∷ 0 ∷ 0 ∷ 0 ∷ 0 ∷ 0 ∷ 255 ∷ 255 ∷ 127 ∷ 0 ∷ 0 ∷ 1 ∷ []

-- What inet_pton and sscanf answer for the hosts of the tests.
abbrev pton : Bytes → Option Bytes
pton host = if host == codes "::ffff:127.0.0.1" then some mapped_loopback else none

abbrev scan : Bytes → Option (ℕ × ℕ × ℕ × ℕ)
scan host =
    if host == codes "10.0.0.1"
    then some (10, 0, 0, 1)
    else if host == codes "8.8.8.8"
    then some (8, 8, 8, 8)
    else none

abbrev mac : Bytes → Bytes → Bytes
mac secret body = 31 ∷ 224 ∷ []

abbrev hook_to : Bytes → Webhook
hook_to url = record { id = codes "a"; url = url; secret = codes "key"; active = true }

abbrev hi : Payload
hi = record { event_id = codes "s:1:2"; body = codes "hi" }

signs_in_hex : sign_body mac (codes "key") (codes "hi") ≡ codes "sha256=1fe0"
unfolding sign_body
signs_in_hex = refl

guards :
    (is_private_host pton scan (codes "::ffff:127.0.0.1") ≡ true)
    × (is_private_host pton scan (codes "10.0.0.1") ≡ true)
    × (is_private_host pton scan (codes "::zz") ≡ true)
    × (is_private_host pton scan (codes "example.com") ≡ false)
unfolding is_private_host is_private_ipv6
guards = (refl, refl, refl, refl)

abbrev google : ParsedUrl
google = record { base = codes "http://8.8.8.8:80"; path = codes "/x"; host = codes "8.8.8.8" }

parses_google : parse_url (codes "http://8.8.8.8:80/x") ≡ some google
unfolding parse_url
parses_google = refl

abbrev to_google : Delivery
to_google = record {
  base = codes "http://8.8.8.8:80";
  path = codes "/x";
  signature = codes "sha256=1fe0";
  event_id = codes "s:1:2";
  body = codes "hi";
}

delivers :
    deliver_on_loop pton scan mac true (hook_to (codes "http://8.8.8.8:80/x")) hi ≡ some to_google
unfolding deliver_on_loop
delivers = refl

blocks_private : deliver_on_loop pton scan mac true (hook_to (codes "http://10.0.0.1/")) hi ≡ none
unfolding deliver_on_loop
blocks_private = refl

pton_fills : (host buf : Bytes) → pton host ≡ some buf → length buf ≡ 16
pton_fills host buf h = elim (Bool-cases (host == codes "::ffff:127.0.0.1")) [
  | inl e ↦
      ap length (some-injective (sym h ∙ ap (λ b. if b then some mapped_loopback else none) e))
  | inr e ↦ ground (arith, h, e)
]

deliver_to_public_example :
    (host : Bytes) × HostOf (codes "http://8.8.8.8:80/x") host
    × (host ≢ [])
    × (host ≢ codes "localhost")
    × Public pton scan mac host
    × IsUrl
        (codes "http://8.8.8.8:80/x")
        (record { base = codes "http://8.8.8.8:80"; path = codes "/x"; host = host })
deliver_to_public_example =
    deliver_to_public pton scan mac (hook_to (codes "http://8.8.8.8:80/x")) hi to_google pton_fills
      delivers

abbrev busy : List Event
busy = Event.starts ∷ Event.dispatches hi ∷ Event.dispatches hi ∷ []

run-Sound_example : Sound (run (init 1) busy)
run-Sound_example = run-Sound 1 busy

drops_one : (run (init 1) busy).dropped ≡ 1
unfolding run init step dispatch start
drops_one = refl

is_started : (run (init 1) busy).started ≡ true
unfolding run init step dispatch start
is_started = refl

stop_drains_example :
    let d =
      worker_round
        (worker_round (stop (run (init 1) busy)) (hook_to (codes "http://a/") ∷ []))
        [] in
    (d.worker_done ≡ true) × (d.taken ≡ (run (init 1) busy).accepted)
stop_drains_example = stop_drains 1 busy (hook_to (codes "http://a/") ∷ []) [] is_started
