-- ===== src/Worker/Backoff.antt =====
-- worker/src/backoff.rs: `Backoff`, in nanoseconds. The clock that `jitter` takes its bits from is an
-- argument, and its `u64` shifts drop what goes past 64 bits.
use openseafeed.Base.{
  ℕ, ◌+◌, ◌*◌, ◌/◌, ◌%◌, ◌^◌, ◌≤◌, ◌≡◌, refl, arith, min, bit_or, bit_xor, List, [], ◌∷◌, ◌==◌,
  if◌then◌else◌,
}

abbrev pub min_delay : ℕ
min_delay = 250_000_000

abbrev pub max_delay : ℕ
max_delay = 30_000_000_000

pub record Backoff : Type 0 where
  pub current : ℕ

unfoldable pub new : Backoff
new = record { current = min_delay }

unfoldable pub reset : Backoff → Backoff
reset b = record { current = min_delay }

-- `x ^= x << 13; x ^= x >> 7; x ^= x << 17` on a `u64`.
unfoldable pub xorshift : ℕ → ℕ
xorshift x =
    let x1 = bit_xor x (x * 2 ^ 13 % 2 ^ 64) in
    let x2 = bit_xor x1 (x1 / 2 ^ 7) in bit_xor x2 (x2 * 2 ^ 17 % 2 ^ 64)

-- `jitter` when the clock shows `now` nanoseconds.
unfoldable pub jitter : ℕ → ℕ → ℕ
jitter now ceiling = if ceiling == 0 then 0 else xorshift (bit_or (now % 2 ^ 64) 1) % (ceiling + 1)

unfoldable pub next_delay : ℕ → Backoff → Backoff × ℕ
next_delay now b = (record { current = min (b.current * 2) max_delay }, jitter now b.current)

jitter-le : (now ceiling : ℕ) → jitter now ceiling ≤ ceiling
unfolding jitter
jitter-le now ceiling = ground arith

-- The state after one failure at each of the times.
unfoldable pub failures : List ℕ → Backoff → Backoff
failures [] b = b
failures (now ∷ rest) b = failures rest (next_delay now b).0

-- A delay is no longer than the ceiling, a ceiling between the shortest and the longest stays there, and
-- it doubles until it reaches the longest.
pub next_delay-bounds :
    (now : ℕ) (b : Backoff)
    → min_delay ≤ b.current
    → b.current ≤ max_delay
    → ((next_delay now b).1 ≤ b.current)
      × (min_delay ≤ (next_delay now b).0.current)
      × ((next_delay now b).0.current ≤ max_delay)
unfolding next_delay
next_delay-bounds now b low high = (jitter-le now b.current, omega arith, omega arith)

-- Seven failures after a reset, whatever the clock showed, pin the ceiling at the longest delay, and
-- further failures leave it there.
pub failures-pinned :
    (b : Backoff) (t0 t1 t2 t3 t4 t5 t6 : ℕ) (rest : List ℕ)
    → (failures (t0 ∷ t1 ∷ t2 ∷ t3 ∷ t4 ∷ t5 ∷ t6 ∷ rest) (reset b)).current ≡ max_delay
unfolding failures reset next_delay
failures-pinned b t0 t1 t2 t3 t4 t5 t6 [] = refl
failures-pinned b t0 t1 t2 t3 t4 t5 t6 (t ∷ rest) = failures-pinned b t0 t1 t2 t3 t4 t5 t6 rest
