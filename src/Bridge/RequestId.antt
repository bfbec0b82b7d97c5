-- ===== src/Bridge/RequestId.antt =====
-- src/bridge/request_id.hpp: the generator of request ids over an atomic 64-bit counter.
use telegram_rest_gateway.Prelude.{
  ℕ, zero, suc, ◌+◌, ◌-◌, ◌%◌, ◌^◌, ◌<◌, ◌≡◌, refl, ◌≢◌, ◌⊎◌, Option, none, some, arith,
  if◌then◌else◌, ◌==◌, nat_eq, bytes_eq,
}

abbrev pub u64 : ℕ
u64 = 2 ^ 64

-- `counter_.fetch_add(1) + 1`, and again while that is 0: the id, which is also the counter then.
-- `none` means that the fuel ran out.
pub draw : ℕ → ℕ → Option ℕ
draw zero c = none
draw (suc fuel) c =
    let id = (c + 1) % u64 in let again = draw fuel id in if id == 0 then again else some id

-- Two rounds are enough: see `draw_total`.
unfoldable pub next : ℕ → ℕ
unfolding draw
next c = elim (draw 2 c) [ none ↦ 0 | some id ↦ id ]

pub next_lem : (c : ℕ) → next c ≡ (if (c + 1) % u64 == 0 then 1 else (c + 1) % u64)
unfolding next
next_lem c = ground arith

-- The loop ends within two rounds, with an id that is not 0, is a 64-bit number, and is the next
-- number unless the counter wraps.
pub draw_total :
    (c : ℕ)
    → c < u64
    → (id : ℕ) × (draw 2 c ≡ some id) × (id ≢ 0) × (id < u64) × ((id ≡ c + 1) ⊎ (id ≡ 1))
unfolding draw
draw_total c h = (
  next c,
  unfold next in ground arith,
  ground (arith, next_lem c),
  ground (arith, next_lem c),
  ground (arith, next_lem c),
)

pub next-no_wrap : (c : ℕ) → c + 1 < u64 → next c ≡ c + 1
next-no_wrap c h = ground (arith, next_lem c)

draw_wraps : draw 2 (u64 - 1) ≡ some 1
unfolding draw
draw_wraps = refl
