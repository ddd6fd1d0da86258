-- ===== src/Tests/Globe.antt =====
-- The cells of a box around Rotterdam, and a client that asks for it.
use mathlib.Core.List.{Memᴰ}
use openseafeed.Base.{
  ℕ, max as nat_max, ◌≤◌, ◌≡◌, refl, List, [], ◌∷◌, ◌++◌, length, All, Bytes, codes, false, ◌==◌,
  if◌then◌else◌, bytes_eq, Option, none, some, arith,
}
use openseafeed.Base.Int.{ℤ, pos, negsuc}
use openseafeed.Base.Map.{Map, get, text_eq}
use openseafeed.Base.Result.{ok, err}
use openseafeed.Ais.Float.{clamp, min, max}
use openseafeed.Geo.{
  encode_loop, encode_step, is_upper, halve, mid, inside, BBox, world, contains, from_corners,
  encode,
}
use openseafeed.Geo.Cover.{cover, cover_loop}
use openseafeed.Geo.Encode.{IsBase32, length-encode}
use openseafeed.Geo.Covered.{cover-encode, length-cover}
use openseafeed.Feed.Headers
use openseafeed.Nmea.Number.{decimal, decimal_loop}
use openseafeed.Fanout.{
  Subscription, ClientFilter, in_boxes, header_f64, matches, passes, has_member,
}
use openseafeed.Fanout.Seed.{SeedVessel, matches_seed, matches_seed-eq-matches}
use openseafeed.Fanout.Session.{
  Services, Event, bus, text, other, delivered, Session, running, session_step, forward,
}
use openseafeed.Tests.Fixed.{fixed, fixed-IsOrdered}

abbrev degrees : ℕ → ℤ
degrees millionths = pos millionths

encode_ezs42 : encode fixed (pos 42_600_000) (negsuc 5_599_999) 5 ≡ codes "ezs42"
unfolding encode encode_loop encode_step is_upper halve mid
encode_ezs42 = refl

abbrev rotterdam : BBox ℤ
rotterdam = record {
  min_lat = pos 51_800_000;
  max_lat = pos 52_100_000;
  min_lon = pos 3_900_000;
  max_lon = pos 4_600_000;
}

rotterdam_corners :
    from_corners fixed (pos 51_800_000, pos 4_600_000) (pos 52_100_000, pos 3_900_000) ≡ rotterdam
unfolding from_corners clamp min max
rotterdam_corners = refl

cover-world : cover fixed (world fixed) 4 64 ≡ [] ∷ []
unfolding cover cover_loop inside
cover-world = refl

length-encode_example :
    (length (encode fixed (pos 51_950_000) (pos 4_100_000) 4) ≡ 4)
    × All IsBase32 (encode fixed (pos 51_950_000) (pos 4_100_000) 4)
length-encode_example = length-encode fixed (pos 51_950_000) (pos 4_100_000) 4

cover-encode_example :
    (prefix rest : Bytes) × Memᴰ prefix (cover fixed rotterdam 3 48)
    × (encode fixed (pos 51_950_000) (pos 4_100_000) 4 ≡ prefix ++ rest)
unfolding contains
cover-encode_example =
    cover-encode fixed fixed-IsOrdered (pos 51_950_000) (pos 4_100_000) rotterdam 3 48 4 refl refl
      (omega arith)

length-cover_example : length (cover fixed rotterdam 4 32) ≤ nat_max 32 1
length-cover_example = length-cover fixed rotterdam 4 32

abbrev pub rotterdam_filter : ClientFilter ℤ
rotterdam_filter = record { boxes = rotterdam ∷ []; mmsi = codes "244660000" ∷ []; types = [] }

abbrev parse_test : Bytes → Option ℤ
parse_test t =
    if bytes_eq t (codes "51.950000")
    then some (pos 51_950_000)
    else if bytes_eq t (codes "4.100000")
    then some (pos 4_100_000)
    else none

abbrev ferry : SeedVessel ℤ
ferry = record { mmsi = 244_660_000; lat = pos 51_950_000; lon = pos 4_100_000; frame = codes "{}" }

abbrev ferry_headers : Map Bytes Bytes
ferry_headers =
    (Headers.mmsi, codes "244660000")
    ∷ (Headers.msg_type, codes "PositionReport")
    ∷ (Headers.lat, codes "51.950000")
    ∷ (Headers.lon, codes "4.100000")
    ∷ []

matches_seed-eq-matches_example :
    matches_seed fixed rotterdam_filter ferry
    ≡ matches fixed parse_test rotterdam_filter ferry_headers
unfolding get header_f64 decimal decimal_loop
matches_seed-eq-matches_example =
    matches_seed-eq-matches fixed parse_test rotterdam_filter ferry ferry_headers refl refl refl
      refl

abbrev rotterdam_subscription : Subscription ℤ
rotterdam_subscription = record {
  api_key = [];
  bounding_boxes = ((pos 51_800_000, pos 3_900_000) ∷ (pos 52_100_000, pos 4_600_000) ∷ []) ∷ [];
  filters_ship_mmsi = [];
  filter_message_types = [];
  initial_state = none;
}

abbrev services : Services ℤ
services = record {
  from_str = λ t. if length t == 0 then err (codes "EOF") else ok rotterdam_subscription;
  validate = λ key. none;
  subscribe = λ pattern. none;
  parse_f64 = parse_test;
}

abbrev evening : List (Event ℤ)
evening =
    bus ferry_headers (codes "a") delivered
    ∷ bus [] (codes "b") delivered
    ∷ text [] []
    ∷ text (codes "{}") ((ferry, delivered) ∷ [])
    ∷ other
    ∷ []

abbrev quiet : Session ℤ
quiet = record { filter = rotterdam_filter; patterns = []; sent = 0; dropped = 0 }

session_step_forwards :
    session_step fixed services false quiet (bus ferry_headers (codes "a") delivered)
    ≡ (codes "a" ∷ [], running (record quiet { sent = 1 }))
unfolding session_step forward matches header_f64 in_boxes contains passes get has_member
session_step_forwards = refl

session_step_passes_over :
    session_step fixed services false quiet (bus [] (codes "b") delivered) ≡ ([], running quiet)
unfolding session_step matches header_f64 get
session_step_passes_over = refl
