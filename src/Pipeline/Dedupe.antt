-- ===== src/Pipeline/Dedupe.antt =====
-- services/pipeline/src/dedupe.rs. An `Instant` is a number, `duration_since` stops at zero as Rust's
-- does, and the standard hasher is a parameter.
pub mod Laws
use openseafeed.Base.{
  ℕ, ◌-◌, [], Bytes, Bool, true, false, leb, ltb, if◌then◌else◌, Option, none, some,
}
use openseafeed.Base.Map.{Map, get, insert, retain, nat_eq}

pub record Window : Type 0 where
  pub ttl : ℕ
  pub seen_at : Map ℕ ℕ
  pub last_sweep : ℕ

-- `new` when the clock shows `now`.
unfoldable pub new : (ttl now : ℕ) → Window
new ttl now = record { ttl = ttl; seen_at = []; last_sweep = now }

unfoldable pub sweep : Window → ℕ → Window
sweep w now =
    if ltb (now - w.last_sweep) w.ttl
    then w
    else record w { seen_at = retain (λ key at. leb (now - at) w.ttl) w.seen_at; last_sweep = now }

unfoldable pub is_recent : ℕ → ℕ → Option ℕ → Bool
is_recent ttl now none = false
is_recent ttl now (some at) = leb (now - at) ttl

module _ (hash : Bytes → ℕ) where
  unfoldable pub seen : Window → Bytes → ℕ → Window × Bool
  seen w payload now =
      let swept = sweep w now in
      let key = hash payload in
      if is_recent swept.ttl now (get key swept.seen_at)
      then (swept, true)
      else (record swept { seen_at = insert key now swept.seen_at }, false)
