-- ===== src/Control/Handlers.antt =====
-- services/control/src/api.rs and internal.rs: the handlers, at the time `now`. The caller is the user of the
-- session, looked up under a lock of its own before; what Wikidata answers and what `rand` draws are arguments. The
-- coverage grid is not modelled.
pub mod Feeding
use openseafeed.Base.{
  ℕ, List, [], ◌∷◌, map, length, Bytes, codes, bytes_eq, Bool, true, false, not, ◌==◌, ◌&&◌, ◌||◌,
  if◌then◌else◌, Option, none, some, is_none, or_default,
}
use openseafeed.Base.Int.{ℤ}
use openseafeed.Base.Trim.{trim}
use openseafeed.Keys.{ValidateResponse}
use openseafeed.Snapshotter.Serve.{internal_token_ok}
use openseafeed.Control.Tables.{User, ApiKey, Station, VesselPhoto, Db, count, order_by}
use openseafeed.Control.Accounts.{set_user_role, set_user_tier_override}
use openseafeed.Control.Registry.{
  create_key as store_key, keys_for_user, revoke_key as revoke_own, key_by_id,
  create_station as store_station, stations_for_user, station_by_key, record_heartbeat, touch_key,
  tier_for_user, photo_get, photo_put,
}
use openseafeed.Control.Api.{
  AdminUser, Response, json_error, profile, new_key, revoked, new_station, own_stations, all_users,
  done, photo, validated, internal_error, unauthenticated, answered, has_role, role_refusal,
  tier_refusal, cached_photo, looked_up, image_of, page_of, not_valid, is_stale,
}

abbrev pub is_station : ApiKey → Bool
is_station k = bytes_eq k.kind (codes "station")

module _ {F : Type 0} where
  unfoldable pub me : (now : ℕ) → (caller : Option User) → Db F → Response F
  me now none db = unauthenticated
  me now (some user) db =
      profile user (keys_for_user db user.id) (stations_for_user db user.id)
        (tier_for_user now user.id db)

  unfoldable pub create_key :
      (now : ℕ) (drawn : Bytes)
      → (caller : Option User) → (kind : Bytes) → (label : Option Bytes) → Db F
      → Db F × Response F
  create_key now drawn none kind label db = (db, unauthenticated)
  create_key now drawn (some user) kind label db =
      if bytes_eq kind (codes "live") || bytes_eq kind (codes "feed")
      then answered db new_key (store_key now drawn user.id kind label db)
      else (
        db,
        json_error 400
            (codes "kind must be 'live' or 'feed'; station keys come from station registration"),
      )

  unfoldable pub revoke_key :
      (now : ℕ) → (caller : Option User) → (key : Bytes) → Db F → Db F × Response F
  revoke_key now none key db = (db, unauthenticated)
  revoke_key now (some user) key db =
      let (stored, found) = revoke_own now user.id key db in
      (
        stored,
        if found then revoked else json_error 404 (codes "no such live key for this account"),
      )

  abbrev pub station_answer :
      Option (Station F × ApiKey × Db F) → Option ((Station F × ApiKey) × Db F)
  station_answer none = none
  station_answer (some (station, key, db)) = some ((station, key), db)

  unfoldable pub create_station :
      (now : ℕ) (drawn drawn_id : Bytes)
      → (caller : Option User) → (name : Bytes) → (lat lon : Option F) → Db F
      → Db F × Response F
  create_station now drawn drawn_id none name lat lon db = (db, unauthenticated)
  create_station now drawn drawn_id (some user) name lat lon db =
      if length (trim name) == 0
      then (db, json_error 400 (codes "station name is required"))
      else answered db (λ (r : Station F × ApiKey). new_station r.0 r.1)
          (station_answer (store_station now drawn drawn_id user.id (trim name) lat lon db))

  unfoldable pub list_stations : (caller : Option User) → Db F → Response F
  list_stations none db = unauthenticated
  list_stations (some user) db = own_stations (stations_for_user db user.id)

  unfoldable pub admin_row : (now : ℕ) → Db F → User → AdminUser
  admin_row now db u = record {
    id = u.id;
    email = u.email;
    display_name = u.display_name;
    role = u.role;
    tier = tier_for_user now u.id db;
    tier_override = u.tier_override;
    keys = count (λ k. bytes_eq k.user_id u.id && is_none k.revoked_at) db.api_keys;
    stations = count (λ s. bytes_eq s.user_id u.id) db.stations;
    created_at = u.created_at;
  }

  unfoldable pub list_users_admin : (now : ℕ) → Db F → List AdminUser
  list_users_admin now db = map (admin_row now db) (order_by (λ u. u.created_at) db.users)

  unfoldable pub admin_list_users : (now : ℕ) → (caller : Option User) → Db F → Response F
  admin_list_users now none db = unauthenticated
  admin_list_users now (some user) db =
      if has_role false user
      then all_users (list_users_admin now db)
      else json_error 403 (codes "insufficient role")

  abbrev pub with_new_role : (user_id : Bytes) → Option Bytes → Db F → Db F
  with_new_role user_id none db = db
  with_new_role user_id (some role) db = set_user_role user_id role db

  abbrev pub with_new_tier : (user_id : Bytes) → Option Bytes → Db F → Db F
  with_new_tier user_id none db = db
  with_new_tier user_id (some tier) db =
      set_user_tier_override user_id (if bytes_eq tier (codes "auto") then none else some tier) db

  -- The change, when nothing was wrong with the role and then the tier.
  unfoldable pub update_user :
      (user_id : Bytes) (role tier : Option Bytes) (wrong_role wrong_tier : Option (Response F))
      → Db F
      → Db F × Response F
  update_user user_id role tier (some refusal) wrong_tier db = (db, refusal)
  update_user user_id role tier none (some refusal) db = (db, refusal)
  update_user user_id role tier none none db =
      (with_new_tier user_id tier (with_new_role user_id role db), done)

  unfoldable pub admin_update_user :
      (caller : Option User)
      → (user_id : Bytes) → (role tier : Option Bytes) → Db F
      → Db F × Response F
  admin_update_user none user_id role tier db = (db, unauthenticated)
  admin_update_user (some caller) user_id role tier db =
      if has_role false caller
      then update_user user_id role tier (role_refusal caller user_id role) (tier_refusal tier) db
      else (db, json_error 403 (codes "insufficient role"))

  -- What the lookup found is stored; an error of it is not.
  unfoldable pub fresh_photo :
      (now mmsi : ℕ) → (imo : Option ℕ) → Option (Option Bytes) → Db F → Db F × Response F
  fresh_photo now mmsi imo none db = (db, photo none none)
  fresh_photo now mmsi imo (some found) db = (
    photo_put now mmsi imo (image_of found) (page_of found) db,
    photo (image_of found) (page_of found),
  )

  -- `later` is the time at which the lookup has ended.
  unfoldable pub vessel_photo :
      (now later mmsi : ℕ)
      → (imo : Option ℕ) → (by_imo by_mmsi : Option (Option Bytes)) → Db F
      → Db F × Response F
  vessel_photo now later mmsi imo by_imo by_mmsi db =
      elim (cached_photo now imo (photo_get db mmsi)) [
        | some p ↦ (db, photo p.image_url p.page_url)
        | none ↦ fresh_photo later mmsi imo (looked_up imo by_imo by_mmsi) db
      ]

  abbrev pub id_of : Option (Station F) → Option Bytes
  id_of none = none
  id_of (some s) = some s.id

  -- The answer for a key that is there and was not revoked.
  unfoldable pub validate_live : (now : ℕ) → ApiKey → Db F → Db F × ValidateResponse
  validate_live now k db =
      let touched = if is_stale now k then touch_key now k.key db else db in
      (
        touched,
        record {
          valid = true;
          kind = k.kind;
          tier = tier_for_user now k.user_id touched;
          owner_id = k.user_id;
          station_id = if is_station k then id_of (station_by_key touched k.key) else none;
        },
      )

  unfoldable pub validate_found : (now : ℕ) → Option ApiKey → Db F → Db F × ValidateResponse
  validate_found now none db = (db, not_valid)
  validate_found now (some k) db =
      if is_none k.revoked_at then validate_live now k db else (db, not_valid)

  abbrev pub unauthorized : Response F
  unauthorized = json_error 401 (codes "invalid or missing X-Internal-Token")

  unfoldable pub validate_key :
      (now : ℕ) (expected : Bytes) → Option Bytes → (key : Bytes) → Db F → Db F × Response F
  validate_key now expected header key db =
      if internal_token_ok expected header
      then (let (stored, answer) = validate_found now (key_by_id db key) db in
          (stored, validated answer))
      else (db, unauthorized)

  unfoldable pub heartbeat :
      (now : ℕ) (expected : Bytes)
      → Option Bytes
      → (station_key : Bytes) → ℤ
      → Db F
      → Db F × Response F
  heartbeat now expected header station_key msgs db =
      if internal_token_ok expected header
      then (let (stored, rows) = record_heartbeat now station_key msgs db in
          (stored, if rows == 0 then json_error 404 (codes "unknown station key") else done))
      else (db, unauthorized)
