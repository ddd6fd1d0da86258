-- ===== src/Control/Registry.antt =====
-- services/control/src/db.rs: the queries about keys, stations, the tier, the tokens of the mails and the photos,
-- at the time `now`, a number of nanoseconds. What `rand` draws is an argument, in hexadecimal digits. A query
-- that fails changes nothing and is `none`. The sum of the messages is not bounded.
use openseafeed.Base.{
  ℕ, ◌+◌, ◌-◌, ◌*◌, List, [], ◌∷◌, ◌++◌, keep, Bytes, codes, bytes_eq, Bool, false, ◌&&◌, ◌||◌, leb,
  ltb, if◌then◌else◌, Option, none, some, is_some, is_none, ◌>>=◌,
}
use openseafeed.Base.Int.{ℤ, pos, ◌+ℤ◌}
use openseafeed.Base.Map.{get, insert, nat_eq}
use openseafeed.Control.Tables.{
  User, ApiKey, Station, MagicToken, VesselPhoto, Db, find, update_where, count, order_by,
}
use openseafeed.Control.Accounts.{new_id, user_by_id}

unfoldable pub new_key : (kind drawn : Bytes) → Bytes
new_key kind drawn =
    (if bytes_eq kind (codes "live")
      then codes "osf_live_"
      else if bytes_eq kind (codes "station")
      then codes "osf_stn_"
      else if bytes_eq kind (codes "feed")
      then codes "osf_feed_"
      else codes "osf_")
    ++ drawn

abbrev pub has_key : Bytes → ApiKey → Bool
has_key key k = bytes_eq k.key key

abbrev pub known_kind : Bytes → Bool
known_kind kind =
    bytes_eq kind (codes "live") || bytes_eq kind (codes "station") || bytes_eq kind (codes "feed")

-- The keys that `revoke_key` stamps.
abbrev pub is_own_live : (user_id key : Bytes) → ApiKey → Bool
is_own_live user_id key k = bytes_eq k.key key && bytes_eq k.user_id user_id && is_none k.revoked_at

-- A time that is there and not before the cutoff.
abbrev pub since : ℕ → Option ℕ → Bool
since cutoff none = false
since cutoff (some time) = leb cutoff time

abbrev pub is_contribution : (user_id : Bytes) → ℕ → ApiKey → Bool
is_contribution user_id cutoff k =
    bytes_eq k.user_id user_id
    && (bytes_eq k.kind (codes "feed") || bytes_eq k.kind (codes "station"))
    && is_none k.revoked_at
    && since cutoff k.last_used_at

-- In nanoseconds.
abbrev pub minutes : ℕ → ℕ
minutes n = n * 60 * 1_000_000_000

abbrev pub days : ℕ → ℕ
days n = minutes (n * 24 * 60)

abbrev pub contributor_window_days : ℕ
contributor_window_days = 7

abbrev pub has_token : Bytes → MagicToken → Bool
has_token token t = bytes_eq t.token token

abbrev pub is_station_id : {F : Type 0} → Bytes → Station F → Bool
is_station_id id s = bytes_eq s.id id

abbrev pub has_station_key : {F : Type 0} → Bytes → Station F → Bool
has_station_key key s = bytes_eq s.key key

abbrev pub fresh_key : (now : ℕ) (key user_id kind : Bytes) → Option Bytes → ApiKey
fresh_key now key user_id kind label = record {
  key = key;
  user_id = user_id;
  kind = kind;
  label = label;
  created_at = now;
  revoked_at = none;
  last_used_at = none;
}

-- `tier_override` of a user, where there is one.
abbrev pub override_of : Option User → Option Bytes
override_of none = none
override_of (some u) = u.tier_override

module _ {F : Type 0} where
  -- The primary key, the reference to the owner and the check of the kind.
  unfoldable pub insert_key : ApiKey → Db F → Option (Db F)
  insert_key new db =
      if is_none (find (has_key new.key) db.api_keys)
        && is_some (user_by_id db new.user_id)
        && known_kind new.kind
      then some (record db { api_keys = db.api_keys ++ new ∷ [] })
      else none

  unfoldable pub create_key :
      (now : ℕ) (drawn user_id kind : Bytes) → Option Bytes → Db F → Option (ApiKey × Db F)
  create_key now drawn user_id kind label db =
      let key = fresh_key now (new_key kind drawn) user_id kind label in
      do stored ← insert_key key db; some (key, stored)

  abbrev pub key_by_id : Db F → Bytes → Option ApiKey
  key_by_id db key = find (has_key key) db.api_keys

  unfoldable pub keys_for_user : Db F → Bytes → List ApiKey
  keys_for_user db user_id =
      order_by (λ k. k.created_at) (keep (λ k. bytes_eq k.user_id user_id) db.api_keys)

  unfoldable pub revoke_key : (now : ℕ) (user_id key : Bytes) → Db F → Db F × Bool
  revoke_key now user_id key db = (
    record db {
      api_keys =
          update_where (is_own_live user_id key) (λ k. record k { revoked_at = some now })
            db.api_keys;
    },
    ltb 0 (count (is_own_live user_id key) db.api_keys),
  )

  unfoldable pub insert_station : Station F → Db F → Option (Db F)
  insert_station new db =
      if is_none (find (is_station_id new.id) db.stations)
        && is_some (user_by_id db new.user_id)
        && is_some (key_by_id db new.key)
      then some (record db { stations = db.stations ++ new ∷ [] })
      else none

  -- A transaction: where a statement fails, nothing is stored.
  unfoldable pub create_station :
      (now : ℕ) (drawn drawn_id user_id name : Bytes)
      → (lat lon : Option F) → Db F
      → Option (Station F × ApiKey × Db F)
  create_station now drawn drawn_id user_id name lat lon db =
      let key =
        fresh_key now (new_key (codes "station") drawn) user_id (codes "station") (some name) in
      let station : Station F = record {
        id = new_id (codes "stn_") drawn_id;
        user_id = user_id;
        name = name;
        lat = lat;
        lon = lon;
        key = key.key;
        created_at = now;
        last_seen_at = none;
        msgs_total = pos 0;
      } in
      do
        with_key ← insert_key key db
        stored ← insert_station station with_key
        some (station, key, stored)

  unfoldable pub stations_for_user : Db F → Bytes → List (Station F)
  stations_for_user db user_id =
      order_by (λ s. s.created_at) (keep (λ s. bytes_eq s.user_id user_id) db.stations)

  abbrev pub station_by_key : Db F → Bytes → Option (Station F)
  station_by_key db key = find (has_station_key key) db.stations

  unfoldable pub record_heartbeat : (now : ℕ) (station_key : Bytes) → ℤ → Db F → Db F × ℕ
  record_heartbeat now station_key msgs db = (
    record db {
      stations =
          update_where (has_station_key station_key)
            (λ s. record s { last_seen_at = some now; msgs_total = s.msgs_total +ℤ msgs })
            db.stations;
    },
    count (has_station_key station_key) db.stations,
  )

  unfoldable pub touch_key : (now : ℕ) (key : Bytes) → Db F → Db F
  touch_key now key db = record db {
    api_keys = update_where (has_key key) (λ k. record k { last_used_at = some now }) db.api_keys;
  }

  -- The recent stations and keys of a user.
  unfoldable pub contributions : (now : ℕ) (user_id : Bytes) → Db F → ℕ
  contributions now user_id db =
      let cutoff = now - days contributor_window_days in
      count (λ s. bytes_eq s.user_id user_id && since cutoff s.last_seen_at) db.stations
      + count (is_contribution user_id cutoff) db.api_keys

  unfoldable pub tier_for_user : (now : ℕ) (user_id : Bytes) → Db F → Bytes
  tier_for_user now user_id db = elim (override_of (user_by_id db user_id)) [
    | some tier ↦ if bytes_eq tier (codes "contributor") then codes "contributor" else codes "free"
    | none ↦ if ltb 0 (contributions now user_id db) then codes "contributor" else codes "free"
  ]

  unfoldable pub create_magic_token :
      (now : ℕ) (drawn email : Bytes) → (ttl_minutes : ℕ) → Db F → Option (Bytes × Db F)
  create_magic_token now drawn email ttl_minutes db =
      if is_some (find (has_token drawn) db.magic_tokens)
      then none
      else some (
        drawn,
        record db {
          magic_tokens =
              db.magic_tokens
              ++ record {
                token = drawn;
                email = email;
                expires_at = now + minutes ttl_minutes;
                used_at = none;
              }
                ∷ [];
        },
      )

  unfoldable pub consume_magic_token : (now : ℕ) (token : Bytes) → Db F → Db F × Option Bytes
  consume_magic_token now token db = elim (find (has_token token) db.magic_tokens) [
    | none ↦ (db, none)
    | some t ↦
        if is_some t.used_at then (db, none) else if ltb t.expires_at now then (db, none) else (
          record db {
            magic_tokens =
                update_where (has_token token) (λ t. record t { used_at = some now })
                  db.magic_tokens;
          },
          some t.email,
        )
  ]

  abbrev pub photo_get : Db F → ℕ → Option VesselPhoto
  photo_get db mmsi = get mmsi db.photos

  unfoldable pub photo_put :
      (now mmsi : ℕ) → Option ℕ → (image_url page_url : Option Bytes) → Db F → Db F
  photo_put now mmsi imo image_url page_url db = record db {
    photos =
        insert mmsi
          (record { imo = imo; image_url = image_url; page_url = page_url; fetched_at = now })
          db.photos;
  }
