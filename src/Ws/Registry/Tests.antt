-- ===== src/Ws/Registry/Tests.antt =====
-- A registry with a slow client, and the fan-outs to it.
use telegram_rest_gateway.Prelude.{
  ℕ, ◌≡◌, refl, Bool, true, some, [], ◌∷◌, nat_eq, Bytes, bytes_eq, codes, get_elem?,
}
use telegram_rest_gateway.Ws.Registry.{
  Registry, init, connect, disconnect, note_pong, set_filter, fan_out, size, is_addressed,
  lets_through,
}
use telegram_rest_gateway.Ws.Registry.FanOut.{fan_out-reaches, Settled}

-- Connection 1 takes all types, 2 only new messages, and 3 has 9 bytes unread. The limit is 10.
abbrev three : Registry
three = record {
  connections =
      record { conn = 1; bytes_since_pong = 0; filter = [] }
      ∷ record { conn = 2; bytes_since_pong = 0; filter = codes "updateNewMessage" ∷ [] }
      ∷ record { conn = 3; bytes_since_pong = 9; filter = [] }
      ∷ [];
  max_pending_bytes = 10;
}

abbrev edited : Bytes
edited = codes "updateMessageEdited"

abbrev all_up : ℕ → Bool
all_up c = true

sends_to_first : (fan_out all_up three edited (codes "{}")).1 ≡ 1 ∷ []
unfolding fan_out
sends_to_first = refl

closes_third : (fan_out all_up three edited (codes "{}")).2 ≡ 3 ∷ []
unfolding fan_out
closes_third = refl

pong_then_fan_out : (fan_out all_up (note_pong three 3) edited (codes "{}")).2 ≡ []
unfolding fan_out note_pong
pong_then_fan_out = refl

one_left : size (disconnect (set_filter (connect (connect init 1) 2) 2 []) 1) ≡ 1
unfolding size disconnect set_filter connect init
one_left = refl

is_first :
    get_elem? (fan_out all_up three edited (codes "{}")).0.connections 0
    ≡ some (record { conn = 1; bytes_since_pong = 2; filter = [] })
unfolding fan_out
is_first = refl

gets_edited :
    is_addressed all_up edited (record { conn = 1; bytes_since_pong = 2; filter = [] }) ≡ true
unfolding is_addressed
gets_edited = refl

takes_edited : lets_through (record { conn = 3; bytes_since_pong = 9; filter = [] }) edited ≡ true
unfolding lets_through
takes_edited = refl

fan_out-reaches_example :
    Settled 10
      (fan_out all_up three edited (codes "{}")).1
      (fan_out all_up three edited (codes "{}")).2
      2
      (record { conn = 3; bytes_since_pong = 9; filter = [] })
fan_out-reaches_example =
    fan_out-reaches all_up three edited (codes "{}") 2
      (record { conn = 3; bytes_since_pong = 9; filter = [] }) refl refl takes_edited
