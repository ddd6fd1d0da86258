-- ===== src/Snapshotter/Serve.antt =====
-- services/snapshotter/src/main.rs: `snapshot_loop` and the handlers. The JSON library, the compression and
-- the validator are parameters, and the clock is an argument.
use openseafeed.Base.{
  ℕ, ◌-◌, List, [], ◌∷◌, ◌++◌, length, drop, Bytes, codes, Bool, ◌==◌, ◌&&◌, ltb, if◌then◌else◌,
  Option, none, some, bit_or, bit_xor,
}
use openseafeed.Base.Map.{Map, get, retain, nat_eq, text_eq}
use openseafeed.Keys.{KeyInfo}
use openseafeed.Snapshotter.{Vessel}

abbrev pub snapshot_ring : ℕ
snapshot_ring = 15

-- 24 hours, in milliseconds.
abbrev pub vessel_ttl : ℕ
vessel_ttl = 86_400_000

pub record Snapshot : Type 0 where
  pub generated_at_ms : ℕ
  pub gzipped : Bytes
  pub count : ℕ

pub record SharedState (F V : Type 0) : Type 0 where
  pub vessels : Map ℕ (Vessel F V)
  -- The newest is the last.
  pub snapshots : List Snapshot

pub record Body (F V : Type 0) : Type 0 where
  pub generated_at : ℕ
  pub count : ℕ
  pub vessels : List (Vessel F V)

-- `serde_json::to_vec`, and the compression; each may fail.
pub record Packer (F V : Type 0) : Type 0 where
  pub to_vec : Body F V → Option Bytes
  pub gzip : Bytes → Option Bytes

abbrev pub values {κ} : {K : Type 0} {V : Type κ} → List (K × V) → List V
values [] = []
values ((k, v) ∷ m) = v ∷ values m

unfoldable pub last : {A : Type 0} → List A → Option A
last [] = none
last (a ∷ []) = some a
last (a ∷ b ∷ list) = last (b ∷ list)

-- The push, and the drain of what is above the ring.
unfoldable pub push_snapshot : Snapshot → List Snapshot → List Snapshot
push_snapshot s snapshots =
    let all = snapshots ++ s ∷ [] in
    if ltb snapshot_ring (length all) then drop (length all - snapshot_ring) all else all

unfoldable pub packed : ℕ → ℕ → Option Bytes → Snapshot
packed now count none = record { generated_at_ms = now; gzipped = []; count = count }
packed now count (some bytes) = record { generated_at_ms = now; gzipped = bytes; count = count }

pub data Response (F V : Type 0) : Type 0 where
  snapshot : Snapshot → Response F V
  vessel : Vessel F V → Response F V
  forbidden : Response F V
  unauthorized : Response F V
  unavailable : Response F V
  not_found : Response F V

-- The tier of a request: a key that is given must be one that the validator knows.
unfoldable pub authed_tier : (Bytes → Option KeyInfo) → Option Bytes → Option Bytes
authed_tier validate none = some (codes "free")
authed_tier validate (some key) = elim (validate key) [ none ↦ none | some info ↦ some info.tier ]

module _ {F V : Type 0} where
  unfoldable pub is_live : ℕ → Vessel F V → Bool
  is_live now v = ltb (now - v.ts) vessel_ttl

  unfoldable pub body_of : ℕ → Map ℕ (Vessel F V) → Body F V
  body_of now vessels = record {
    generated_at = now;
    count = length (values vessels);
    vessels = values vessels;
  }

  -- A round of the loop.
  unfoldable pub snapshot_round : Packer F V → ℕ → SharedState F V → SharedState F V
  snapshot_round packer now st =
      let vessels = retain (λ k v. is_live now v) st.vessels in
      elim (packer.to_vec (body_of now vessels)) [
        | none ↦ record st { vessels = vessels }
        | some json ↦ record {
          vessels = vessels;
          snapshots =
              push_snapshot (packed now (length (values vessels)) (packer.gzip json)) st.snapshots;
        }
      ]

  unfoldable pub newest : SharedState F V → Response F V
  newest st = elim (last st.snapshots) [ none ↦ unavailable | some s ↦ snapshot s ]

  unfoldable pub get_snapshot :
      (Bytes → Option KeyInfo) → SharedState F V → Option Bytes → Response F V
  get_snapshot validate st key = elim (authed_tier validate key) [
    | none ↦ forbidden
    | some tier ↦ newest st
  ]

  unfoldable pub get_vessel :
      (Bytes → Option KeyInfo) → SharedState F V → ℕ → Option Bytes → Response F V
  get_vessel validate st mmsi key = elim (authed_tier validate key) [
    | none ↦ forbidden
    | some tier ↦ elim (get mmsi st.vessels) [ none ↦ not_found | some v ↦ vessel v ]
  ]

-- The fold over the pairs: `acc | (a ^ b)`.
unfoldable pub differences : ℕ → Bytes → Bytes → ℕ
differences acc [] expected = acc
differences acc (a ∷ provided) [] = acc
differences acc (a ∷ provided) (b ∷ expected) =
    differences (bit_or acc (bit_xor a b)) provided expected

abbrev pub or_empty : Option Bytes → Bytes
or_empty none = []
or_empty (some text) = text

-- What is expected is the variable of the environment; a request without the header provides nothing.
unfoldable pub internal_token_ok : (expected : Bytes) → Option Bytes → Bool
internal_token_ok expected header =
    let provided = or_empty header in
    (length provided == length expected) && (differences 0 provided expected == 0)

unfoldable pub get_internal_snapshot :
    {F V : Type 0} → Bytes → SharedState F V → Option Bytes → Response F V
get_internal_snapshot expected st header =
    if internal_token_ok expected header then newest st else unauthorized
