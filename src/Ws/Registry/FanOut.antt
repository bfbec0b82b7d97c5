-- ===== src/Ws/Registry/FanOut.antt =====
-- What a fan-out does to each subscriber, whatever the others are.
use telegram_rest_gateway.Prelude.{
  ℕ, ◌≡◌, sym, subst, inl, inr, Bool, true, false, not, some, List, [], ◌∷◌, arith, if◌then◌else◌,
  Bool-cases, nat_eq, Bytes, bytes_eq, length, get_elem?, All, All-keep_if, All-at,
}
use telegram_rest_gateway.Ws.Registry.{
  Subscriber, Registry, lets_through, has_conn, is_over, Sweep, is_addressed, charge, sweep,
  fan_out,
}

-- The two vectors hold a connection, and the registry still holds a subscriber of one.
abbrev pub Settled : (max_bytes : ℕ) → List ℕ → List ℕ → ℕ → Subscriber → Type 0
Settled max_bytes alive slow n s =
    has_conn s.conn (if is_over max_bytes (charge n s).bytes_since_pong then slow else alive) ≡ true

has_conn_cons : (c d : ℕ) (cs : List ℕ) → has_conn c cs ≡ true → has_conn c (d ∷ cs) ≡ true
unfolding has_conn
has_conn_cons c d cs h = ground arith

has_conn_head : (c : ℕ) (cs : List ℕ) → has_conn c (c ∷ cs) ≡ true
unfolding has_conn
has_conn_head c cs = ground arith

module _ (is_up : ℕ → Bool) (update_type : Bytes) (n max_bytes : ℕ) where
  -- What the loop gathers over a list.
  abbrev gathered : List Subscriber → Sweep
  gathered = sweep is_up update_type n max_bytes

  abbrev Addressed : Subscriber → Type 0
  Addressed s = is_addressed is_up update_type s ≡ true

  sweep-alive :
      (s t : Subscriber) (ss : List Subscriber)
      → has_conn s.conn (gathered ss).alive ≡ true
      → has_conn s.conn (gathered (t ∷ ss)).alive ≡ true
  unfolding sweep
  sweep-alive s t ss h = ground (arith, has_conn_cons s.conn t.conn (gathered ss).alive h)

  sweep-slow :
      (s t : Subscriber) (ss : List Subscriber)
      → has_conn s.conn (gathered ss).slow ≡ true
      → has_conn s.conn (gathered (t ∷ ss)).slow ≡ true
  unfolding sweep
  sweep-slow s t ss h = ground (arith, has_conn_cons s.conn t.conn (gathered ss).slow h)

  -- The verdict of one subscriber is in the vectors of the loop.
  abbrev Told : Sweep → Subscriber → Type 0
  Told r s = Addressed s → Settled max_bytes r.alive r.slow n s

  Told-later :
      (s t : Subscriber) (ss : List Subscriber) → Told (gathered ss) s → Told (gathered (t ∷ ss)) s
  Told-later s t ss h a = elim (Bool-cases (is_over max_bytes (charge n s).bytes_since_pong)) [
    | inl e ↦ ground (arith, sweep-slow s t ss, h a)
    | inr e ↦ ground (arith, sweep-alive s t ss, h a)
  ]

  Told-each_later :
      (t : Subscriber) (ss us : List Subscriber)
      → All (Told (gathered ss)) us
      → All (Told (gathered (t ∷ ss))) us
  Told-each_later t ss [] h = tt
  Told-each_later t ss (u ∷ us) h = (Told-later u t ss h.0, Told-each_later t ss us h.1)

  Told-head : (s : Subscriber) (ss : List Subscriber) → Told (gathered (s ∷ ss)) s
  unfolding sweep
  Told-head s ss a = elim (Bool-cases (is_over max_bytes (charge n s).bytes_since_pong)) [
    | inl e ↦ ground (arith, has_conn_head s.conn (gathered ss).slow)
    | inr e ↦ ground (arith, has_conn_head s.conn (gathered ss).alive)
  ]

  sweep-Told : (ss : List Subscriber) → All (Told (gathered ss)) ss
  sweep-Told [] = tt
  sweep-Told (s ∷ ss) = (Told-head s ss, Told-each_later s ss ss (sweep-Told ss))

  -- A subscriber that the loop leaves is within the limit, or its connection is to be closed.
  abbrev Bounded : List ℕ → Subscriber → Type 0
  Bounded slow s =
      Addressed s → has_conn s.conn slow ≡ false → is_over max_bytes s.bytes_since_pong ≡ false

  Bounded-later :
      (c : ℕ) (slow : List ℕ) (us : List Subscriber)
      → All (Bounded slow) us
      → All (Bounded (c ∷ slow)) us
  unfolding has_conn
  Bounded-later c slow [] h = tt
  Bounded-later c slow (u ∷ us) h = (λ a k. h.0 a (ground (arith, k)), Bounded-later c slow us h.1)

  Addressed-charge : (s : Subscriber) → Addressed (charge n s) → Addressed s
  unfolding charge is_addressed lets_through
  Addressed-charge s h = h

  absurd_bool : (b : Bool) {A : Type 0} → b ≡ false → b ≡ true → A
  absurd_bool b e a = ground (arith, e, a)

  -- The loop's step is one of three.
  step_slow :
      (s : Subscriber) (ss : List Subscriber)
      → Addressed s
      → is_over max_bytes (charge n s).bytes_since_pong ≡ true
      → gathered (s ∷ ss) ≡ record {
        swept = charge n s ∷ (gathered ss).swept;
        alive = (gathered ss).alive;
        slow = s.conn ∷ (gathered ss).slow;
      }
  unfolding sweep
  step_slow s ss a o = ground (arith, a, o)

  step_alive :
      (s : Subscriber) (ss : List Subscriber)
      → Addressed s
      → is_over max_bytes (charge n s).bytes_since_pong ≡ false
      → gathered (s ∷ ss) ≡ record {
        swept = charge n s ∷ (gathered ss).swept;
        alive = s.conn ∷ (gathered ss).alive;
        slow = (gathered ss).slow;
      }
  unfolding sweep
  step_alive s ss a o = ground (arith, a, o)

  step_skip :
      (s : Subscriber) (ss : List Subscriber)
      → is_addressed is_up update_type s ≡ false
      → gathered (s ∷ ss) ≡ record {
        swept = s ∷ (gathered ss).swept;
        alive = (gathered ss).alive;
        slow = (gathered ss).slow;
      }
  unfolding sweep
  step_skip s ss a = ground (arith, a)

  abbrev BoundedSweep : Sweep → Type 0
  BoundedSweep r = All (Bounded r.slow) r.swept

  sweep-Bounded : (ss : List Subscriber) → BoundedSweep (gathered ss)
  unfolding sweep
  sweep-Bounded [] = tt
  sweep-Bounded (s ∷ ss) =
      let rest = gathered ss in
      let ih = sweep-Bounded ss in
      elim (Bool-cases (is_addressed is_up update_type s)) [
        | inr e ↦
            subst BoundedSweep (sym (step_skip s ss e))
              ((λ a k. absurd_bool (is_addressed is_up update_type s) e a), ih)
        | inl e ↦ elim (Bool-cases (is_over max_bytes (charge n s).bytes_since_pong)) [
          | inl o ↦ subst BoundedSweep (sym (step_slow s ss e o)) (
            (λ a k. ground (arith, k, has_conn_head s.conn rest.slow)),
            Bounded-later s.conn rest.slow rest.swept ih,
          )
          | inr o ↦ subst BoundedSweep (sym (step_alive s ss e o)) ((λ a k. o), ih)
        ]
      ]

-- After a fan-out, each subscriber that the registry keeps and that the update was for has no more
-- bytes since its last pong than the limit, when there is one.
pub fan_out-WithinLimit :
    (is_up : ℕ → Bool) (g : Registry) (update_type payload : Bytes) (i : ℕ) (s : Subscriber)
    → get_elem? (fan_out is_up g update_type payload).0.connections i ≡ some s
    → is_addressed is_up update_type s ≡ true
    → is_over g.max_pending_bytes s.bytes_since_pong ≡ false
unfolding fan_out
fan_out-WithinLimit is_up g update_type payload i s at a =
    let n = length payload in
    let r = gathered is_up update_type n g.max_pending_bytes g.connections in
    All-at
      (λ t.
        is_addressed is_up update_type t ≡ true
        → is_over g.max_pending_bytes t.bytes_since_pong ≡ false)
      _ i s
      (All-keep_if (Bounded is_up update_type n g.max_pending_bytes r.slow) _
        (λ (t : Subscriber). not (has_conn t.conn r.slow)) r.swept
        (λ t e h k. h k (ground (arith, e)))
        (sweep-Bounded is_up update_type n g.max_pending_bytes g.connections))
      at a

-- Every connected subscriber whose subscription lets the type through is in one of the two vectors:
-- its connection is sent the payload when its bytes since the last pong, the payload's included, are
-- within the limit, and is closed when they are not.
pub fan_out-reaches :
    (is_up : ℕ → Bool) (g : Registry) (update_type payload : Bytes) (i : ℕ) (s : Subscriber)
    → get_elem? g.connections i ≡ some s
    → is_up s.conn ≡ true
    → lets_through s update_type ≡ true
    → Settled g.max_pending_bytes
        (fan_out is_up g update_type payload).1
        (fan_out is_up g update_type payload).2
        (length payload)
        s
unfolding fan_out is_addressed
fan_out-reaches is_up g update_type payload i s at up lets =
    let n = length payload in
    All-at
      (Told is_up update_type n g.max_pending_bytes
        (gathered is_up update_type n g.max_pending_bytes g.connections))
      g.connections i s (sweep-Told is_up update_type n g.max_pending_bytes g.connections) at
      (ground (arith, up, lets))
