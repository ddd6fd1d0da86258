-- ===== src/Fanout/Seed.antt =====
-- services/fanout/src/seed.rs, and `matches_seed` of main.rs: the fleet that a client starts from. The
-- calendar and the JSON library are parameters.
use openseafeed.Base.{
  ℕ, List, [], ◌∷◌, length, Bytes, codes, Bool, true, false, ◌&&◌, ◌==◌, if◌then◌else◌, Option,
  none, some, ◌>>=◌, ◌≡◌, refl, arith,
}
use openseafeed.Base.Int.{negsuc}
use openseafeed.Base.Map.{Map, get, text_eq}
use openseafeed.Ais.Float.{Floats, of_nat, tenths}
use openseafeed.Ais.Types.{PositionReport}
use openseafeed.Feed.Wire.{StreamMessage}
use openseafeed.Feed.Headers
use openseafeed.Nmea.Number.{decimal}
use openseafeed.Fanout.{ClientFilter, in_boxes, passes, has_member, header_f64, matches}

abbrev pub seed_message_type : Bytes
seed_message_type = codes "PositionReport"

pub record SeedVessel (F : Type 0) : Type 0 where
  pub mmsi : ℕ
  pub lat : F
  pub lon : F
  pub frame : Bytes

pub record SnapVessel (F : Type 0) : Type 0 where
  pub mmsi : ℕ
  pub lat : Option F
  pub lon : Option F
  pub sog : Option F
  pub cog : Option F
  pub hdg : Option ℕ
  pub nav : Option ℕ
  pub name : Bytes
  pub ship_type : Option ℕ
  pub imo : Option ℕ
  pub ts : ℕ

abbrev pub unwrap_or {ℓ} : {A : Type ℓ} → Option A → A → A
unwrap_or none other = other
unwrap_or (some a) other = a

-- What `frame_for` calls: `json!` with the type of the message as the tag, the time of a number of
-- milliseconds (or of now, when it has none) and `serde_json::to_string`.
pub record Renderer (F : Type 0) : Type 1 where
  pub Value : Type 0
  pub tagged : Bytes → PositionReport F → Value
  pub time_utc : ℕ → Bytes
  pub to_string : StreamMessage F Value → Option Bytes

module _ (fl : Floats) where
  open fl use {F}

  module _ (render : Renderer F) where
    unfoldable pub seed_report : SnapVessel F → F → F → PositionReport F
    seed_report v lat lon = record {
      header = record { message_id = 1; repeat_indicator = 0; user_id = v.mmsi; valid = true };
      navigational_status = unwrap_or v.nav 15;
      rate_of_turn = negsuc 127;
      sog = unwrap_or v.sog (tenths fl 1_023);
      position_accuracy = false;
      longitude = lon;
      latitude = lat;
      cog = unwrap_or v.cog (of_nat fl 360);
      true_heading = unwrap_or v.hdg 511;
      timestamp = 60;
      special_manoeuvre_indicator = 0;
      spare = 0;
      raim = false;
      communication_state = 0;
    }

    unfoldable pub seed_message : SnapVessel F → F → F → StreamMessage F render.Value
    seed_message v lat lon = record {
      message = render.tagged seed_message_type (seed_report v lat lon);
      message_type = seed_message_type;
      metadata = record {
        mmsi = v.mmsi;
        mmsi_string = v.mmsi;
        ship_name = v.name;
        ship_type = v.ship_type;
        imo = v.imo;
        latitude = lat;
        longitude = lon;
        time_utc = render.time_utc v.ts;
      };
    }

    unfoldable pub frame_for : SnapVessel F → Option Bytes
    frame_for v = do lat ← v.lat; lon ← v.lon; render.to_string (seed_message v lat lon)

    unfoldable pub seed_vessel : SnapVessel F → Option (SeedVessel F)
    seed_vessel v = do
      lat ← v.lat
      lon ← v.lon
      frame ← frame_for v
      some (record { mmsi = v.mmsi; lat = lat; lon = lon; frame = frame })

    -- `filter_map` of `fetch` over the vessels of the body.
    unfoldable pub seed_vessels : List (SnapVessel F) → List (SeedVessel F)
    seed_vessels [] = []
    seed_vessels (v ∷ vessels) = elim (seed_vessel v) [
      | none ↦ seed_vessels vessels
      | some seeded ↦ seeded ∷ seed_vessels vessels
    ]

    -- A round of `refresh_loop`: a fetch that failed leaves the fleet as it is.
    unfoldable pub refresh :
        Option (List (SnapVessel F)) → List (SeedVessel F) → List (SeedVessel F)
    refresh none fleet = fleet
    refresh (some body) fleet = seed_vessels body

  unfoldable pub matches_seed : ClientFilter F → SeedVessel F → Bool
  matches_seed filter v =
      if in_boxes fl filter v.lat v.lon
      then (if length filter.mmsi == 0 then true else has_member filter.mmsi (decimal v.mmsi))
        && (if length filter.types == 0 then true else has_member filter.types seed_message_type)
      else false

  passes-some :
      (texts : List Bytes) (text : Bytes)
      → passes fl texts (some text) ≡ (if length texts == 0 then true else has_member texts text)
  unfolding passes
  passes-some [] text = refl
  passes-some (t ∷ texts) text =
      let full : (length (t ∷ texts) == 0) ≡ false = ground arith in rw full refl

  -- A seeded vessel passes a filter exactly when a message would whose headers bear the vessel's position,
  -- its MMSI and the type of a position report.
  pub matches_seed-eq-matches :
      (parse_f64 : Bytes → Option F) (filter : ClientFilter F) (v : SeedVessel F)
      (hdrs : Map Bytes Bytes)
      → header_f64 fl parse_f64 hdrs Headers.lat ≡ some v.lat
      → header_f64 fl parse_f64 hdrs Headers.lon ≡ some v.lon
      → get Headers.mmsi hdrs ≡ some (decimal v.mmsi)
      → get Headers.msg_type hdrs ≡ some seed_message_type
      → matches_seed filter v ≡ matches fl parse_f64 filter hdrs
  unfolding matches_seed matches
  matches_seed-eq-matches parse_f64 filter v hdrs lat lon mmsi type =
      rw
        (
          matches,
          lat,
          lon,
          mmsi,
          type,
          passes-some filter.mmsi (decimal v.mmsi),
          passes-some filter.types seed_message_type,
        )
        refl
