-- ===== src/Fanout.antt =====
-- services/fanout/src/main.rs: what a client asks for, and which messages pass its filter. A `HashSet` is
-- the list that it was collected from; the reader of `f64` is a parameter.

pub mod Sorted
pub mod Shadows
pub mod Heard
pub mod Seed
pub mod Session
use openseafeed.Base.{
  ℕ, List, [], ◌∷◌, ◌++◌, length, all, any, map, Bytes, codes, bytes_eq, Bool, true, false, not,
  ◌==◌, ◌&&◌, ltb, if◌then◌else◌, Option, none, some, ◌>>=◌,
}
use openseafeed.Base.Int.{pos}
use openseafeed.Base.Map.{Map, get, text_eq}
use openseafeed.Base.Result.{Result, ok, err, ◌>>=◌ as ◌>>=ᵣ◌}
use openseafeed.Ais.Float.{Floats, lt}
use openseafeed.Geo.{BBox, from_corners, contains, area_deg2}
use openseafeed.Geo.Cover.{cover}
use openseafeed.Keys.{KeyInfo, strip_prefix}
use openseafeed.Feed.Headers

abbrev pub cover_precision : ℕ
cover_precision = 3

abbrev pub max_cells_per_client : ℕ
max_cells_per_client = 48

pub record Subscription (F : Type 0) : Type 0 where
  pub api_key : Bytes
  -- Each inner list is a box, each pair a corner.
  pub bounding_boxes : List (List (F × F))
  pub filters_ship_mmsi : List Bytes
  pub filter_message_types : List Bytes
  pub initial_state : Option Bool

pub record ClientFilter (F : Type 0) : Type 0 where
  pub boxes : List (BBox F)
  pub mmsi : List Bytes
  pub types : List Bytes

unfoldable pub starts_with : Bytes → Bytes → Bool
starts_with s prefix = elim (strip_prefix prefix s) [ none ↦ false | some rest ↦ true ]

-- The order of two texts: that of their bytes.
unfoldable pub text_le : Bytes → Bytes → Bool
text_le [] t = true
text_le (a ∷ s) [] = false
text_le (a ∷ s) (b ∷ t) = if ltb a b then true else if a == b then text_le s t else false

-- `sort` of texts.
unfoldable pub sorted_insert : Bytes → List Bytes → List Bytes
sorted_insert p [] = p ∷ []
sorted_insert p (q ∷ list) = if text_le p q then p ∷ q ∷ list else q ∷ sorted_insert p list

unfoldable pub sort : List Bytes → List Bytes
sort [] = []
sort (p ∷ list) = sorted_insert p (sort list)

-- `dedup`, behind an element that was kept.
unfoldable pub dedup_after : Bytes → List Bytes → List Bytes
dedup_after last [] = []
dedup_after last (p ∷ list) =
    if bytes_eq p last then dedup_after last list else p ∷ dedup_after p list

unfoldable pub dedup : List Bytes → List Bytes
dedup [] = []
dedup (p ∷ list) = p ∷ dedup_after p list

-- The loop that drops the prefixes that a shorter one covers.
unfoldable pub drop_shadowed : List Bytes → List Bytes → List Bytes
drop_shadowed [] out = out
drop_shadowed (p ∷ list) out =
    drop_shadowed list (if any (λ q. starts_with p q) out then out else out ++ p ∷ [])

unfoldable pub has_member : List Bytes → Bytes → Bool
has_member texts text = any (λ t. bytes_eq t text) texts

module _ (fl : Floats) where
  open fl use {F, of_int, add}

  unfoldable pub boxes_of : List (List (F × F)) → Result Bytes (List (BBox F))
  boxes_of [] = ok []
  boxes_of ((a ∷ b ∷ []) ∷ rest) = boxes_of rest >>=ᵣ (λ boxes. ok (from_corners fl a b ∷ boxes))
  boxes_of (corners ∷ rest) = err (codes "each bounding box needs exactly two [lat, lon] corners")

  unfoldable pub from_subscription : Subscription F → Result Bytes (ClientFilter F)
  from_subscription sub =
      if length sub.bounding_boxes == 0
      then err (codes "BoundingBoxes must not be empty")
      else boxes_of sub.bounding_boxes >>=ᵣ (λ boxes.
        ok (record {
          boxes = boxes;
          mmsi = sub.filters_ship_mmsi;
          types = sub.filter_message_types;
        }))

  unfoldable pub sum_areas : F → List (BBox F) → F
  sum_areas total [] = total
  sum_areas total (b ∷ boxes) = sum_areas (add total (area_deg2 fl b)) boxes

  unfoldable pub total_area : ClientFilter F → F
  total_area filter = sum_areas (of_int (pos 0)) filter.boxes

  unfoldable pub all_covers : List (BBox F) → List Bytes
  all_covers [] = []
  all_covers (b ∷ boxes) = cover fl b cover_precision max_cells_per_client ++ all_covers boxes

  unfoldable pub filter_cover : ClientFilter F → List Bytes
  filter_cover filter = drop_shadowed (dedup (sort (all_covers filter.boxes))) []

  unfoldable pub in_boxes : ClientFilter F → F → F → Bool
  in_boxes filter lat lon = any (λ b. contains fl b lat lon) filter.boxes

  -- A filter on a header that an empty set leaves open.
  unfoldable pub passes : List Bytes → Option Bytes → Bool
  passes [] value = true
  passes (t ∷ texts) none = false
  passes (t ∷ texts) (some value) = has_member (t ∷ texts) value

  module _ (parse_f64 : Bytes → Option F) where
    unfoldable pub header_f64 : Map Bytes Bytes → Bytes → Option F
    header_f64 hdrs name = do text ← get name hdrs; parse_f64 text

    unfoldable pub matches : ClientFilter F → Map Bytes Bytes → Bool
    matches filter hdrs = elim (header_f64 hdrs Headers.lat) [
      | none ↦ false
      | some lat ↦ elim (header_f64 hdrs Headers.lon) [
        | none ↦ false
        | some lon ↦
            if in_boxes filter lat lon
            then passes filter.mmsi (get Headers.mmsi hdrs)
              && passes filter.types (get Headers.msg_type hdrs)
            else false
      ]
    ]

  -- The tier of a session; the answer of the validator is asked for only when there is a key.
  unfoldable pub tier_of : Option KeyInfo → Bool → Subscription F → Result Bytes Bytes
  tier_of answer first_party sub =
      if length sub.api_key == 0
      then ok (if first_party then codes "viewer" else codes "free")
      else elim answer [ none ↦ err (codes "invalid API key") | some info ↦ ok info.tier ]

  unfoldable pub is_metered : Bytes → Bool
  is_metered tier =
      not (bytes_eq tier (codes "contributor")) && not (bytes_eq tier (codes "viewer"))

  unfoldable pub is_too_large : Bytes → ClientFilter F → Bool
  is_too_large tier filter = is_metered tier && lt fl (of_int (pos 30_000)) (total_area filter)
