-- ===== src/Geo.antt =====
-- crates/geo/src/lib.rs: `encode` and `BBox`. `encode` is a loop of one bit a round, and five rounds
-- a character are enough.
pub mod Cover
pub mod Order
pub mod Encode
pub mod Around
pub mod Covered
use openseafeed.Base.{
  ℕ, zero, suc, ◌+◌, ◌*◌, [], ◌∷◌, ◌++◌, length, get_or, Bytes, codes, Bool, true, false, not, ◌==◌,
  ◌&&◌, ltb, if◌then◌else◌,
}
use openseafeed.Base.Int.{pos, negsuc}
use openseafeed.Ais.Float.{Floats, min, max, clamp}

abbrev pub base32 : Bytes
base32 = codes "0123456789bcdefghjkmnpqrstuvwxyz"

pub record BBox (F : Type 0) : Type 0 where
  pub min_lat : F
  pub max_lat : F
  pub min_lon : F
  pub max_lon : F

-- The variables of the loop.
pub record Encoder (F : Type 0) : Type 0 where
  pub bounds : BBox F
  pub even : Bool
  pub bit : ℕ
  pub ch : ℕ
  pub hash : Bytes

module _ (fl : Floats) where
  open fl use {F, of_int, add, sub, mul, div, leb}

  abbrev pub world : BBox F
  world = record {
    min_lat = of_int (negsuc 89);
    max_lat = of_int (pos 90);
    min_lon = of_int (negsuc 179);
    max_lon = of_int (pos 180);
  }

  unfoldable pub mid : F → F → F
  mid low high = div (add low high) (of_int (pos 2))

  -- The upper or the lower half of the longitudes, or else of the latitudes.
  unfoldable pub halve : Bool → Bool → BBox F → BBox F
  halve true true b = record b { min_lon = mid b.min_lon b.max_lon }
  halve true false b = record b { max_lon = mid b.min_lon b.max_lon }
  halve false true b = record b { min_lat = mid b.min_lat b.max_lat }
  halve false false b = record b { max_lat = mid b.min_lat b.max_lat }

  unfoldable pub is_upper : Bool → BBox F → F → F → Bool
  is_upper true b lat lon = leb (mid b.min_lon b.max_lon) lon
  is_upper false b lat lon = leb (mid b.min_lat b.max_lat) lat

  -- The body of the loop.
  unfoldable pub encode_step : F → F → Encoder F → Encoder F
  encode_step lat lon s =
      let set = is_upper s.even s.bounds lat lon in
      let ch = s.ch * 2 + (if set then 1 else 0) in
      let last = s.bit + 1 == 5 in
      record {
        bounds = halve s.even set s.bounds;
        even = not s.even;
        bit = if last then 0 else s.bit + 1;
        ch = if last then 0 else ch;
        hash = if last then s.hash ++ get_or base32 ch 0 ∷ [] else s.hash;
      }

  unfoldable pub encode_loop : ℕ → F → F → ℕ → Encoder F → Encoder F
  encode_loop zero lat lon precision s = s
  encode_loop (suc fuel) lat lon precision s =
      let later = encode_loop fuel lat lon precision (encode_step lat lon s) in
      if ltb (length s.hash) precision then later else s

  abbrev pub encode_start : Encoder F
  encode_start = record { bounds = world; even = true; bit = 0; ch = 0; hash = [] }

  unfoldable pub encode : F → F → ℕ → Bytes
  encode lat lon precision = (encode_loop (5 * precision) lat lon precision encode_start).hash

  unfoldable pub from_corners : F × F → F × F → BBox F
  from_corners a b = record {
    min_lat = clamp fl (min fl a.0 b.0) (of_int (negsuc 89)) (of_int (pos 90));
    max_lat = clamp fl (max fl a.0 b.0) (of_int (negsuc 89)) (of_int (pos 90));
    min_lon = clamp fl (min fl a.1 b.1) (of_int (negsuc 179)) (of_int (pos 180));
    max_lon = clamp fl (max fl a.1 b.1) (of_int (negsuc 179)) (of_int (pos 180));
  }

  unfoldable pub contains : BBox F → F → F → Bool
  contains b lat lon =
      leb b.min_lat lat && leb lat b.max_lat && leb b.min_lon lon && leb lon b.max_lon

  unfoldable pub intersects : BBox F → BBox F → Bool
  intersects b o =
      leb b.min_lat o.max_lat
      && leb o.min_lat b.max_lat
      && leb b.min_lon o.max_lon
      && leb o.min_lon b.max_lon

  unfoldable pub inside : BBox F → BBox F → Bool
  inside b o =
      leb o.min_lat b.min_lat
      && leb b.max_lat o.max_lat
      && leb o.min_lon b.min_lon
      && leb b.max_lon o.max_lon

  unfoldable pub area_deg2 : BBox F → F
  area_deg2 b = mul (sub b.max_lat b.min_lat) (sub b.max_lon b.min_lon)
