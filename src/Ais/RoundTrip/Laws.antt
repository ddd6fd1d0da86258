-- ===== src/Ais/RoundTrip/Laws.antt =====
-- What the round trips assume of `f64`: the scaled whole numbers of the protocol survive the division
-- and the rounded product. They are far below 2 ^ 53, and an IEEE double is that exact.
use openseafeed.Base.{ℕ, ◌<◌, ◌^◌, ◌≡◌}
use openseafeed.Base.Int.{ℤ}
use openseafeed.Ais.Float.{Floats, tenths, of_nat}
use openseafeed.Ais.Fields.{minutes_to_deg}
use openseafeed.Ais.Encode.{deg_to_minutes, to_tenths}
use openseafeed.Ais.RoundTrip.Fields.{IsSigned}

pub record IsExact (fl : Floats) : Type 0 where
  pub tenths_back : (n : ℕ) → n < 2 ^ 12 → to_tenths fl (tenths fl n) ≡ n
  pub fine_back :
      (v : ℤ) → IsSigned (2 ^ 27) v → deg_to_minutes fl (minutes_to_deg fl v 10_000) 10_000 ≡ v
  pub coarse_back :
      (v : ℤ) → IsSigned (2 ^ 17) v → deg_to_minutes fl (minutes_to_deg fl v 10) 10 ≡ v
  pub whole_back : (n : ℕ) → n < 2 ^ 12 → fl.to_u64 (fl.round (of_nat fl n)) ≡ n
