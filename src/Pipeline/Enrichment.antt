-- ===== src/Pipeline/Enrichment.antt =====
-- services/pipeline/src/main.rs: `Enrichment`, and what `handle` keeps of a message in it.
use openseafeed.Base.{
  ℕ, [], ◌∷◌, length, Bytes, Bool, false, ltb, if◌then◌else◌, Option, none, some,
}
use openseafeed.Base.Map.{Map, Eq, get, insert, nat_eq, text_eq}
use openseafeed.Ais.Float.{Floats}
use openseafeed.Ais.Types.{Message}
use openseafeed.Geo.{encode}
use openseafeed.Nmea.Number.{decimal}

abbrev pub geohash_precision : ℕ
geohash_precision = 4

abbrev pub cache_cap : ℕ
cache_cap = 1_000_000

pub record Enrichment (F : Type 0) : Type 0 where
  pub names : Map ℕ Bytes
  pub types : Map ℕ ℕ
  pub imos : Map ℕ ℕ
  -- The cell and the position that a vessel was last seen at.
  pub last_pos : Map ℕ (Bytes × F × F)

-- The writes to the three stores, each a key and a value.
pub record Writes : Type 0 where
  pub names_kv : Map Bytes Bytes
  pub types_kv : Map Bytes Bytes
  pub imos_kv : Map Bytes Bytes

unfoldable pub clear_above : {V : Type 0} → Map ℕ V → Map ℕ V
clear_above m = if ltb cache_cap (length m) then [] else m

unfoldable pub trim : {F : Type 0} → Enrichment F → Enrichment F
trim e = record {
  names = clear_above e.names;
  types = clear_above e.types;
  imos = clear_above e.imos;
  last_pos = clear_above e.last_pos;
}

module _ {V : Type 0} ⦃e : Eq V⦄ (show : V → Bytes) where
  unfoldable pub holds : Option V → V → Bool
  holds none v = false
  holds (some w) v = e.beq w v

  -- A fact of a vessel, kept and written to its store when it is new.
  unfoldable pub remember : ℕ → Option V → Map ℕ V → Map ℕ V × Map Bytes Bytes
  remember mmsi none m = (m, [])
  remember mmsi (some v) m =
      if holds (get mmsi m) v then (m, []) else (insert mmsi v m, (decimal mmsi, show v) ∷ [])

module _ (fl : Floats) where
  open fl use {F}

  abbrev pub Place : Type 0
  Place = Bytes × F × F

  -- `cell_and_pos`, and the last positions behind it.
  unfoldable pub locate : ℕ → Option (F × F) → Map ℕ Place → Option Place × Map ℕ Place
  locate mmsi (some (lat, lon)) m =
      let place : Place = (encode fl lat lon geohash_precision, lat, lon) in
      (some place, insert mmsi place m)
  locate mmsi none m = (get mmsi m, m)

  unfoldable pub enriched : Message F → Enrichment F → Enrichment F × Writes × Option Place
  enriched msg e =
      let (names, names_kv) = remember (λ v. v) msg.mmsi msg.name e.names in
      let (types, types_kv) = remember decimal msg.mmsi msg.ship_type e.types in
      let (imos, imos_kv) = remember decimal msg.mmsi msg.imo e.imos in
      let (place, last_pos) = locate msg.mmsi msg.position e.last_pos in
      (
        record { names = names; types = types; imos = imos; last_pos = last_pos },
        record { names_kv = names_kv; types_kv = types_kv; imos_kv = imos_kv },
        place,
      )
