-- ===== src/Ws/Registry.antt =====
-- src/ws/ws_registry.{hpp,cpp}: the connections that get updates. A connection is the number of its
-- shared pointer; whether it is connected is asked of drogon, and is an argument. Each method runs
-- under the mutex; what `fan_out` sends and closes after it is its result.
pub mod FanOut
pub mod Tests
use telegram_rest_gateway.Prelude.{
  ℕ, zero, suc, ◌+◌, ◌-◌, ◌*◌, ◌/◌, ◌%◌, ◌^◌, ◌≤◌, ◌<◌, min, max, ◌≡◌, refl, sym, ap, ◌∙◌, subst,
  ◌≢◌, ◌↔◌, ◌⊎◌, inl, inr, Bool, true, false, ◌&&◌, ◌||◌, not, Option, none, some, List, [], ◌∷◌,
  ◌++◌, map, arith, ltb, leb, ltb→lt, lt→ltb, leb→le, if◌then◌else◌, Bool-cases, Option-cases, Eq,
  ◌==◌, eq_refl, nat_eq, Bytes, bytes_beq_iff, nat_beq_iff, bytes_eq, codes, length, get_elem?,
  get_or, take, drop, keep_if, all, any, length-append, length-keep_if-le, take-append-drop,
  length-take, length-drop, drop-append, take-append, All, All-append,
}

pub record Subscriber : Type 0 where
  pub conn : ℕ
  pub bytes_since_pong : ℕ
  pub filter : List Bytes

pub record Registry : Type 0 where
  pub connections : List Subscriber
  pub max_pending_bytes : ℕ

-- 8 MiB
unfoldable pub init : Registry
init = record { connections = []; max_pending_bytes = 8 * 1024 * 1024 }

unfoldable pub connect : Registry → ℕ → Registry
connect g c = record g {
  connections = g.connections ++ record { conn = c; bytes_since_pong = 0; filter = [] } ∷ [];
}

unfoldable pub disconnect : Registry → ℕ → Registry
disconnect g c = record g {
  connections = keep_if (λ (s : Subscriber). not (s.conn == c)) g.connections;
}

-- The loops of notePong and setFilter: the first subscriber with the connection.
unfoldable pub update_first : ℕ → (Subscriber → Subscriber) → List Subscriber → List Subscriber
update_first c f [] = []
update_first c f (s ∷ ss) = if s.conn == c then f s ∷ ss else s ∷ update_first c f ss

unfoldable pub note_pong : Registry → ℕ → Registry
unfolding update_first
note_pong g c = record g {
  connections = update_first c (λ s. record s { bytes_since_pong = 0 }) g.connections;
}

-- A std::set of type names, as a list.
unfoldable pub set_filter : Registry → ℕ → List Bytes → Registry
unfolding update_first
set_filter g c types = record g {
  connections = update_first c (λ s. record s { filter = types }) g.connections;
}

unfoldable pub set_max_pending_bytes : Registry → ℕ → Registry
set_max_pending_bytes g n = record g { max_pending_bytes = n }

-- The subscription lets a type through: an empty set is all types.
unfoldable pub is_empty : List Bytes → Bool
is_empty [] = true
is_empty (t ∷ ts) = false

unfoldable pub lets_through : Subscriber → Bytes → Bool
unfolding is_empty
lets_through s update_type = is_empty s.filter || any (λ t. t == update_type) s.filter

-- std::find over a vector of connections
unfoldable pub has_conn : ℕ → List ℕ → Bool
has_conn c cs = any (λ d. d == c) cs

unfoldable pub is_over : ℕ → ℕ → Bool
is_over max_bytes n = not (max_bytes == 0) && ltb max_bytes n

-- What the loop of fan_out has gathered: the subscribers as it leaves them, and its two vectors.
pub record Sweep : Type 0 where
  pub swept : List Subscriber
  pub alive : List ℕ
  pub slow : List ℕ

-- One subscriber of the loop, the counter on 64 bits. `is_up` is `conn->connected()`.
unfoldable pub is_addressed : (ℕ → Bool) → Bytes → Subscriber → Bool
unfolding lets_through
is_addressed is_up update_type s = is_up s.conn && lets_through s update_type

unfoldable pub charge : ℕ → Subscriber → Subscriber
charge size s = record s { bytes_since_pong = (s.bytes_since_pong + size) % 2 ^ 64 }

unfoldable pub sweep : (ℕ → Bool) → Bytes → ℕ → ℕ → List Subscriber → Sweep
unfolding is_addressed charge is_over
sweep is_up update_type size max_bytes [] = record { swept = []; alive = []; slow = [] }
sweep is_up update_type size max_bytes (s ∷ ss) =
    let rest = sweep is_up update_type size max_bytes ss in
    let t = charge size s in
    if is_addressed is_up update_type s
    then (if is_over max_bytes t.bytes_since_pong
        then record { swept = t ∷ rest.swept; alive = rest.alive; slow = s.conn ∷ rest.slow }
        else record { swept = t ∷ rest.swept; alive = s.conn ∷ rest.alive; slow = rest.slow })
    else record { swept = s ∷ rest.swept; alive = rest.alive; slow = rest.slow }

-- The registry after it, the connections that are sent the payload, and those that are closed.
unfoldable pub fan_out : (ℕ → Bool) → Registry → Bytes → Bytes → Registry × List ℕ × List ℕ
unfolding sweep has_conn
fan_out is_up g update_type payload =
    let r = sweep is_up update_type (length payload) g.max_pending_bytes g.connections in
    (
      record g { connections = keep_if (λ (s : Subscriber). not (has_conn s.conn r.slow)) r.swept },
      r.alive,
      r.slow,
    )

unfoldable pub size : Registry → ℕ
size g = length g.connections
