-- ===== src/Control/Server.antt =====
-- services/control: the requests that reach the database, as the router of lib.rs hands them on. The caller of a
-- request is what `current_user` gave at some time before; between the two other requests may have been served.
pub mod Changes
pub mod Queries
pub mod Served
pub mod Kept
pub mod Revoked
pub mod Tokens
pub mod Roles
pub mod Bootstrap
use openseafeed.Base.{ℕ, List, [], ◌∷◌, Bytes, Option}
use openseafeed.Base.Int.{ℤ}
use openseafeed.Control.Tables.{User, Db}
use openseafeed.Control.Accounts.{Provider, github, google}
use openseafeed.Control.Api.{Response}
use openseafeed.Control.Handlers
use openseafeed.Control.SignIn.{Config, Platform, Profile}
use openseafeed.Control.SignIn

pub data Request (F : Type 0) : Type 0 where
  create_key :
      (drawn : Bytes) → (caller : Option User) → (kind : Bytes) → (label : Option Bytes) → Request F
  revoke_key : (caller : Option User) → (key : Bytes) → Request F
  create_station :
      (drawn drawn_id : Bytes)
      → (caller : Option User) → (name : Bytes) → (lat lon : Option F) → Request F
  update_user : (caller : Option User) → (user_id : Bytes) → (role tier : Option Bytes) → Request F
  oauth_callback :
      (drawn : Bytes)
      → Provider
      → (cookie : Option Bytes) → (code state : Bytes) → Option Profile
      → Request F
  magic_request : (drawn address : Bytes) → (next : Option Bytes) → Request F
  magic_verify : (drawn token : Bytes) → (next : Option Bytes) → Request F
  validate_key : (header : Option Bytes) → (key : Bytes) → Request F
  heartbeat : (header : Option Bytes) → (station_key : Bytes) → ℤ → Request F
  vessel_photo :
      (later mmsi : ℕ) → (imo : Option ℕ) → (by_imo by_mmsi : Option (Option Bytes)) → Request F

module _ (platform : Platform) (cfg : Config) (internal_token : Bytes) {F : Type 0} where
  unfoldable pub serve : (now : ℕ) → Request F → Db F → Db F × Response F
  serve now (create_key drawn caller kind label) db =
      Handlers.create_key now drawn caller kind label db
  serve now (revoke_key caller key) db = Handlers.revoke_key now caller key db
  serve now (create_station drawn drawn_id caller name lat lon) db =
      Handlers.create_station now drawn drawn_id caller name lat lon db
  serve now (update_user caller user_id role tier) db =
      Handlers.admin_update_user caller user_id role tier db
  serve now (oauth_callback drawn provider cookie code state outcome) db =
      SignIn.oauth_callback platform now drawn cfg provider cookie code state outcome db
  serve now (magic_request drawn address next) db =
      SignIn.magic_request platform now drawn cfg address next db
  serve now (magic_verify drawn token next) db =
      SignIn.magic_verify platform now drawn cfg token next db
  serve now (validate_key header key) db = Handlers.validate_key now internal_token header key db
  serve now (heartbeat header station_key msgs) db =
      Handlers.heartbeat now internal_token header station_key msgs db
  serve now (vessel_photo later mmsi imo by_imo by_mmsi) db =
      Handlers.vessel_photo now later mmsi imo by_imo by_mmsi db

  -- Requests that are served in turn, each at its time.
  unfoldable pub serve_all : List (ℕ × Request F) → Db F → Db F
  serve_all [] db = db
  serve_all ((now, request) ∷ requests) db = serve_all requests (serve now request db).0
