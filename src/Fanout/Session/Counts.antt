-- ===== src/Fanout/Session/Counts.antt =====
-- What a session of the fan-out keeps: its subscriptions are those of its filter, and it counts its frames.
use openseafeed.Base.{ℕ, ◌+◌, List, length, map, Bytes, Bool, ◌≡◌, Bytes}
use openseafeed.Base.Result.{Result, Succeeds, ◌>>=◌ as ◌>>=ᵣ◌}
use openseafeed.Ais.Float.{Floats}
use openseafeed.Feed.{decoded_pattern}
use openseafeed.Fanout.{ClientFilter, filter_cover}
use openseafeed.Fanout.Session.{Services, Session, Status, running, finished, failed}

module _ (fl : Floats) (services : Services fl.F) where
  open fl use {F}

  -- The patterns of a session are those of its filter.
  abbrev pub IsSubscribed : ClientFilter F → List Bytes → Type 0
  IsSubscribed filter patterns = patterns ≡ map decoded_pattern (filter_cover fl filter)

  -- With `n` frames before these, a session that goes on or ends well has counted them all.
  abbrev pub IsCounted : ℕ → List Bytes → Status F → Type 0
  IsCounted n frames (running s) = IsSubscribed s.filter s.patterns × (s.sent ≡ n + length frames)
  IsCounted n frames (finished s) = IsSubscribed s.filter s.patterns × (s.sent ≡ n + length frames)
  IsCounted n frames (failed reason) = Unit

  abbrev IsAnswer : ClientFilter F × List Bytes × Bool → Type 0
  IsAnswer (filter, subs, seed) = IsSubscribed filter subs

  abbrev IsSent : List Bytes × Result Bytes ℕ → Type 0
  IsSent (frames, result) = Succeeds (λ n. n ≡ length frames) result

  abbrev Counts : ℕ → List Bytes × Status F → Type 0
  Counts n (frames, status) = IsCounted n frames status
