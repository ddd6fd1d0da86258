-- ===== src/Snapshotter/Warm.antt =====
-- services/snapshotter/src/main.rs: `warm_from_history`, line by line of what the history answers; a line that
-- is no record is `none`. Sums of two `u16` wrap.
use openseafeed.Base.{
  filtered, ℕ, ◌+◌, ◌%◌, ◌^◌, List, [], ◌∷◌, length, Bytes, Bool, true, false, ◌==◌, ◌&&◌, leb, ltb,
  if◌then◌else◌, Option, none, some,
}
use openseafeed.Base.Map.{Map, get, insert, nat_eq}
use openseafeed.Ais.Float.{Floats, of_nat, tenths, lt}
use openseafeed.Snapshotter.{Vessel, entry, on_globe}

pub record WarmPos (F : Type 0) : Type 0 where
  pub mmsi : ℕ
  pub lat : F
  pub lon : F
  pub sog : Option F
  pub cog : Option F
  pub hdg : Option ℕ
  pub nav : Option ℕ
  pub ts : ℕ

pub record WarmStatic (F : Type 0) : Type 0 where
  pub mmsi : ℕ
  pub name : Bytes
  pub callsign : Bytes
  pub imo : ℕ
  pub ship_type : ℕ
  pub dest : Bytes
  pub draught : F
  pub a : ℕ
  pub b : ℕ
  pub c : ℕ
  pub d : ℕ

-- The old value, or else the new one where it is good.
abbrev pub fill : {A : Type 0} → Option A → Bool → A → Option A
fill (some old) good new = some old
fill none good new = if good then some new else none

abbrev pub is_none : {A : Type 0} → Option A → Bool
is_none none = true
is_none (some a) = false

abbrev pub fill_text : Bytes → Bytes → Bytes
fill_text old new = if length old == 0 then new else old

abbrev pub with_answer : {A S : Type 0} → (A → S → S) → Option A → S → S
with_answer f none s = s
with_answer f (some a) s = f a s

module _ (fl : Floats) (V : Type 0) where
  open fl use {F}

  unfoldable pub warm_vessel : WarmPos F → Vessel F V → Vessel F V
  warm_vessel w v = if leb w.ts v.ts then v else record v {
    mmsi = w.mmsi;
    lat = some w.lat;
    lon = some w.lon;
    sog = filtered (λ s. lt fl s (tenths fl 1_023)) w.sog;
    cog = filtered (λ c. lt fl c (of_nat fl 360)) w.cog;
    hdg = filtered (λ h. ltb h 511) w.hdg;
    nav = w.nav;
    ts = w.ts;
  }

  unfoldable pub warm_position : Option (WarmPos F) → Map ℕ (Vessel F V) → Map ℕ (Vessel F V)
  warm_position none vessels = vessels
  warm_position (some w) vessels =
      if on_globe fl w.lat w.lon
      then insert w.mmsi (warm_vessel w (entry (get w.mmsi vessels))) vessels
      else vessels

  unfoldable pub warm_positions :
      List (Option (WarmPos F)) → Map ℕ (Vessel F V) → Map ℕ (Vessel F V)
  warm_positions [] vessels = vessels
  warm_positions (line ∷ lines) vessels = warm_positions lines (warm_position line vessels)

  unfoldable pub warm_facts : WarmStatic F → Vessel F V → Vessel F V
  warm_facts w v =
      let unsized = is_none v.len && ltb 0 ((w.a + w.b) % 2 ^ 16) in
      record v {
        name = fill_text v.name w.name;
        callsign = fill_text v.callsign w.callsign;
        dest = fill_text v.dest w.dest;
        ship_type = fill v.ship_type (ltb 0 w.ship_type) w.ship_type;
        imo = fill v.imo (ltb 0 w.imo) w.imo;
        draught = fill v.draught (lt fl (of_nat fl 0) w.draught) w.draught;
        len = if unsized then some ((w.a + w.b) % 2 ^ 16) else v.len;
        beam = if unsized then some ((w.c + w.d) % 2 ^ 16) else v.beam;
      }

  abbrev pub with_facts :
      WarmStatic F → Map ℕ (Vessel F V) → Option (Vessel F V) → Map ℕ (Vessel F V)
  with_facts w vessels none = vessels
  with_facts w vessels (some v) = insert w.mmsi (warm_facts w v) vessels

  unfoldable pub warm_static : Option (WarmStatic F) → Map ℕ (Vessel F V) → Map ℕ (Vessel F V)
  warm_static none vessels = vessels
  warm_static (some w) vessels = with_facts w vessels (get w.mmsi vessels)

  unfoldable pub warm_statics :
      List (Option (WarmStatic F)) → Map ℕ (Vessel F V) → Map ℕ (Vessel F V)
  warm_statics [] vessels = vessels
  warm_statics (line ∷ lines) vessels = warm_statics lines (warm_static line vessels)

  -- A query that failed changes nothing.
  unfoldable pub warm_from_history :
      Option (List (Option (WarmPos F)))
      → Option (List (Option (WarmStatic F)))
      → Map ℕ (Vessel F V)
      → Map ℕ (Vessel F V)
  warm_from_history positions statics vessels =
      with_answer warm_statics statics (with_answer warm_positions positions vessels)
