-- ===== src/Control/Server/Served.antt =====
-- Each request is a sequence of statements that its caller may make.
use openseafeed.Base.{
  ℕ, ◌≡◌, refl, length, any, Bytes, codes, bytes_eq, true, false, ◌==◌, ◌||◌, Option, none, some,
  is_some, is_none, Bool-cases, Option-cases, inl, inr,
}
use openseafeed.Base.Int.{ℤ}
use openseafeed.Base.Trim.{trim}
use openseafeed.Snapshotter.Serve.{internal_token_ok}
use openseafeed.Control.Tables.{User, ApiKey, Db}
use openseafeed.Control.Accounts.{set_user_role, set_user_tier_override, Provider, is_admin}
use openseafeed.Control.Registry.{
  photo_put, photo_get, record_heartbeat, revoke_key as revoke_own, touch_key, consume_magic_token,
}
use openseafeed.Control.Api.{
  is_one_of, roles, Response, has_role, role_refusal, tier_refusal, cached_photo, is_stale,
}
use openseafeed.Control.Handlers
use openseafeed.Control.SignIn.{Config, Platform, check_state, client_of}
use openseafeed.Control.SignIn
use openseafeed.Control.Server.{
  Request, create_key, revoke_key, create_station, update_user, oauth_callback, magic_request,
  magic_verify, validate_key, heartbeat, vessel_photo, serve,
}
use openseafeed.Control.Server.Queries.{
  Makes, upsert_user-Makes, upsert_email_user-Makes, answered-Changes, store_key-Makes,
  store_station-Makes, create_magic_token-Makes, consume_magic_token-Changes,
}
use openseafeed.Control.Server.Changes.{
  role_set, tier_set, key_revoked, key_touched, station_heard, photo_stored, Changes, none_made,
  then_made, one_made, and_then,
}

-- The user whose session a request bears.
abbrev pub caller_of : {F : Type 0} → Request F → Option User
caller_of (create_key drawn caller kind label) = caller
caller_of (revoke_key caller key) = caller
caller_of (create_station drawn drawn_id caller name lat lon) = caller
caller_of (update_user caller user_id role tier) = caller
caller_of (oauth_callback drawn provider cookie code state outcome) = none
caller_of (magic_request drawn address next) = none
caller_of (magic_verify drawn token next) = none
caller_of (validate_key header key) = none
caller_of (heartbeat header station_key msgs) = none
caller_of (vessel_photo later mmsi imo by_imo by_mmsi) = none

module _ {F : Type 0} where
  touched-Changes :
      (caller : Option User) (now : ℕ) (k : ApiKey) (db : Db F)
      → Changes caller db (Handlers.validate_live now k db).0
  unfolding Handlers.validate_live touch_key
  touched-Changes caller now k db = elim (Bool-cases (is_stale now k)) [
    | inl stale ↦ rw stale (one_made db _ (key_touched db k.key now))
    | inr recent ↦ rw recent (none_made db)
  ]

  validate_found-Changes :
      (caller : Option User) (now : ℕ) (found : Option ApiKey) (db : Db F)
      → Changes caller db (Handlers.validate_found now found db).0
  unfolding Handlers.validate_found
  validate_found-Changes caller now none db = none_made db
  validate_found-Changes caller now (some k) db = elim (Bool-cases (is_none k.revoked_at)) [
    | inl live ↦ rw (live, Handlers.validate_found) (touched-Changes caller now k db)
    | inr revoked ↦ rw (revoked, Handlers.validate_found) (none_made db)
  ]

  with_new_tier-Changes :
      (caller : Option User) (user_id : Bytes) (tier : Option Bytes) (db : Db F)
      → Changes caller db (Handlers.with_new_tier user_id tier db)
  unfolding set_user_tier_override
  with_new_tier-Changes caller user_id none db = none_made db
  with_new_tier-Changes caller user_id (some tier) db = one_made db _ (tier_set db user_id _)

  -- An administrator changes the role of another.
  with_new_role-Changes :
      (caller : User) (user_id role : Bytes) (tier : Option Bytes) (db : Db F)
      → is_admin caller ≡ true
      → bytes_eq caller.id user_id ≡ false
      → Changes
          (some caller)
          db
          (Handlers.with_new_tier user_id tier (Handlers.with_new_role user_id (some role) db))
  unfolding set_user_role
  with_new_role-Changes caller user_id role tier db admin other =
      then_made db _ _ (role_set db caller user_id role refl admin other)
        (with_new_tier-Changes (some caller) user_id tier _)

  update_role-Changes :
      (caller : User) (user_id role : Bytes) (tier : Option Bytes)
      (wrong_tier : Option (Response F)) (db : Db F)
      → is_admin caller ≡ true
      → bytes_eq caller.id user_id ≡ false
      → Changes
          (some caller)
          db
          (Handlers.update_user user_id (some role) tier none wrong_tier db).0
  unfolding Handlers.update_user
  update_role-Changes caller user_id role tier none db admin other =
      with_new_role-Changes caller user_id role tier db admin other
  update_role-Changes caller user_id role tier (some refusal) db admin other = none_made db

  update_user-Changes :
      (caller : User) (user_id : Bytes) (role tier : Option Bytes)
      (wrong_tier : Option (Response F)) (db : Db F)
      → Changes
          (some caller)
          db
          (Handlers.update_user user_id role tier
            (role_refusal caller user_id role)
            wrong_tier
            db).0
  unfolding Handlers.update_user role_refusal
  update_user-Changes caller user_id none tier none db =
      with_new_tier-Changes (some caller) user_id tier db
  update_user-Changes caller user_id none tier (some refusal) db = none_made db
  update_user-Changes caller user_id (some role) tier wrong_tier db =
      elim (Bool-cases (is_admin caller)) [
        | inr lower ↦ rw (lower, role_refusal) (none_made db)
        | inl admin ↦ elim (Bool-cases (bytes_eq caller.id user_id)) [
          | inl own ↦ rw (admin, own, role_refusal) (none_made db)
          | inr other ↦ elim (Bool-cases (is_one_of roles role)) [
            | inr odd ↦ rw (admin, other, odd, role_refusal) (none_made db)
            | inl known ↦
                rw (admin, other, known, role_refusal)
                  (update_role-Changes caller user_id role tier wrong_tier db admin other)
          ]
        ]
      ]

  -- The change is one that the caller may make, whichever guard the request fails at.
  admin_update_user-Changes :
      (caller : Option User) (user_id : Bytes) (role tier : Option Bytes) (db : Db F)
      → Changes caller db (Handlers.admin_update_user caller user_id role tier db).0
  unfolding Handlers.admin_update_user
  admin_update_user-Changes none user_id role tier db = none_made db
  admin_update_user-Changes (some caller) user_id role tier db =
      elim (Bool-cases (has_role false caller)) [
        | inl moderator ↦
            rw (moderator, Handlers.admin_update_user)
              (update_user-Changes caller user_id role tier (tier_refusal tier) db)
        | inr lower ↦ rw (lower, Handlers.admin_update_user) (none_made db)
      ]

  create_key-Changes :
      (now : ℕ) (drawn : Bytes) (caller : Option User) (kind : Bytes) (label : Option Bytes)
      (db : Db F)
      → Changes caller db (Handlers.create_key now drawn caller kind label db).0
  unfolding Handlers.create_key
  create_key-Changes now drawn none kind label db = none_made db
  create_key-Changes now drawn (some user) kind label db =
      elim (Bool-cases (bytes_eq kind (codes "live") || bytes_eq kind (codes "feed"))) [
        | inl good ↦
            rw (good, Handlers.create_key)
              (answered-Changes (some user) db _ _
                (store_key-Makes (some user) now drawn user.id kind label db))
        | inr odd ↦ rw (odd, Handlers.create_key) (none_made db)
      ]

  create_station-Changes :
      (now : ℕ) (drawn drawn_id : Bytes) (caller : Option User) (name : Bytes) (lat lon : Option F)
      (db : Db F)
      → Changes caller db (Handlers.create_station now drawn drawn_id caller name lat lon db).0
  unfolding Handlers.create_station
  create_station-Changes now drawn drawn_id none name lat lon db = none_made db
  create_station-Changes now drawn drawn_id (some user) name lat lon db =
      elim (Bool-cases (length (trim name) == 0)) [
        | inl empty ↦ rw (empty, Handlers.create_station) (none_made db)
        | inr named ↦
            rw (named, Handlers.create_station)
              (answered-Changes (some user) db _ _
                (store_station-Makes (some user) now drawn drawn_id user.id (trim name) lat lon db))
      ]

  internal-Changes :
      (now : ℕ) (expected : Bytes) (header : Option Bytes) (key : Bytes) (db : Db F)
      → Changes none db (Handlers.validate_key now expected header key db).0
  unfolding Handlers.validate_key
  internal-Changes now expected header key db =
      elim (Bool-cases (internal_token_ok expected header)) [
        | inl trusted ↦ rw (trusted, Handlers.validate_key) (validate_found-Changes none now _ db)
        | inr other ↦ rw (other, Handlers.validate_key) (none_made db)
      ]

  heartbeat-Changes :
      (now : ℕ) (expected : Bytes) (header : Option Bytes) (key : Bytes) (msgs : ℤ) (db : Db F)
      → Changes none db (Handlers.heartbeat now expected header key msgs db).0
  unfolding Handlers.heartbeat record_heartbeat
  heartbeat-Changes now expected header key msgs db =
      elim (Bool-cases (internal_token_ok expected header)) [
        | inl trusted ↦
            rw (trusted, Handlers.heartbeat) (one_made db _ (station_heard db key now msgs))
        | inr other ↦ rw (other, Handlers.heartbeat) (none_made db)
      ]

  fresh_photo-Changes :
      (now mmsi : ℕ) (imo : Option ℕ) (found : Option (Option Bytes)) (db : Db F)
      → Changes none db (Handlers.fresh_photo now mmsi imo found db).0
  unfolding Handlers.fresh_photo photo_put
  fresh_photo-Changes now mmsi imo none db = none_made db
  fresh_photo-Changes now mmsi imo (some found) db = one_made db _ (photo_stored db mmsi _)

  vessel_photo-Changes :
      (now later mmsi : ℕ) (imo : Option ℕ) (by_imo by_mmsi : Option (Option Bytes)) (db : Db F)
      → Changes none db (Handlers.vessel_photo now later mmsi imo by_imo by_mmsi db).0
  unfolding Handlers.vessel_photo
  vessel_photo-Changes now later mmsi imo by_imo by_mmsi db =
      elim (Option-cases (cached_photo now imo (photo_get db mmsi))) [
        | inr (p, fresh) ↦ rw (fresh, Handlers.vessel_photo) (none_made db)
        | inl old ↦ rw (old, Handlers.vessel_photo) (fresh_photo-Changes later mmsi imo _ db)
      ]

  module _ (platform : Platform) (cfg : Config) where
    logged_in-Changes :
        (now : ℕ) (next : Option Bytes) (failed : Response F) (db : Db F) (o : Option (User × Db F))
        → Makes none db o
        → Changes none db (SignIn.logged_in platform now cfg next failed db o).0
    unfolding SignIn.logged_in
    logged_in-Changes now next failed db none h = none_made db
    logged_in-Changes now next failed db (some (user, stored)) h = h

    exchanged-Makes :
        (now : ℕ) (drawn : Bytes) (provider : Provider) (outcome : Option (SignIn.Profile))
        (db : Db F)
        → Makes none db (SignIn.exchanged platform now drawn provider outcome db)
    unfolding SignIn.exchanged
    exchanged-Makes now drawn provider none db = tt
    exchanged-Makes now drawn provider (some (id, email, name)) db =
        upsert_user-Makes none now drawn provider id email name db

    oauth_callback-Changes :
        (now : ℕ) (drawn : Bytes) (provider : Provider) (cookie : Option Bytes) (code state : Bytes)
        (outcome : Option (SignIn.Profile)) (db : Db F)
        → Changes none db
            (SignIn.oauth_callback platform now drawn cfg provider cookie code state outcome db).0
    unfolding SignIn.oauth_callback
    oauth_callback-Changes now drawn provider cookie code state outcome db =
        elim (Bool-cases (is_some (client_of cfg provider))) [
          | inr off ↦ rw (off, SignIn.oauth_callback) (none_made db)
          | inl on ↦ elim (Bool-cases (check_state cookie state)) [
            | inr forged ↦ rw (on, forged, SignIn.oauth_callback) (none_made db)
            | inl own ↦ elim (Bool-cases (length code == 0)) [
              | inl empty ↦ rw (on, own, empty, SignIn.oauth_callback) (none_made db)
              | inr given ↦
                  rw (on, own, given, SignIn.oauth_callback)
                    (logged_in-Changes now _ _ db _ (exchanged-Makes now drawn provider outcome db))
            ]
          ]
        ]

    link_answer-Changes :
        (email : Bytes) (next : Option Bytes) (db : Db F) (o : Option (Bytes × Db F))
        → Makes none db o
        → Changes none db (SignIn.link_answer platform cfg email next db o).0
    unfolding SignIn.link_answer
    link_answer-Changes email next db none h = none_made db
    link_answer-Changes email next db (some (token, stored)) h = h

    magic_request-Changes :
        (now : ℕ) (drawn address : Bytes) (next : Option Bytes) (db : Db F)
        → Changes none db (SignIn.magic_request platform now drawn cfg address next db).0
    unfolding SignIn.magic_request
    magic_request-Changes now drawn address next db =
        let email = platform.to_lowercase (trim address) in
        elim (Bool-cases (any (λ c. c == b'@') email)) [
          | inl good ↦
              rw (good, SignIn.magic_request)
                (link_answer-Changes email next db _
                  (create_magic_token-Makes none now drawn email _ db))
          | inr odd ↦ rw (odd, SignIn.magic_request) (none_made db)
        ]

    pub magic_login-Changes :
        (now : ℕ) (drawn : Bytes) (next : Option Bytes) (before db : Db F) (email : Option Bytes)
        → Changes none before db
        → Changes none before (SignIn.magic_login platform now drawn cfg next db email).0
    unfolding SignIn.magic_login
    magic_login-Changes now drawn next before db none h = h
    magic_login-Changes now drawn next before db (some email) h =
        and_then h
          (logged_in-Changes now _ _ db _ (upsert_email_user-Makes none now drawn email db))

  -- Whatever is asked, the tables change by statements that the caller of the request may make.
  pub serve-Changes :
      (platform : Platform) (cfg : Config) (internal_token : Bytes) (now : ℕ) (request : Request F)
      (db : Db F)
      → Changes (caller_of request) db (serve platform cfg internal_token now request db).0
  unfolding serve Handlers.revoke_key revoke_own SignIn.magic_verify
  serve-Changes platform cfg t now (create_key drawn caller kind label) db =
      create_key-Changes now drawn caller kind label db
  serve-Changes platform cfg t now (revoke_key none key) db = none_made db
  serve-Changes platform cfg t now (revoke_key (some user) key) db =
      one_made db _ (key_revoked db user key now refl)
  serve-Changes platform cfg t now (create_station drawn drawn_id caller name lat lon) db =
      create_station-Changes now drawn drawn_id caller name lat lon db
  serve-Changes platform cfg t now (update_user caller user_id role tier) db =
      admin_update_user-Changes caller user_id role tier db
  serve-Changes platform cfg t now (oauth_callback drawn provider cookie code state outcome) db =
      oauth_callback-Changes platform cfg now drawn provider cookie code state outcome db
  serve-Changes platform cfg t now (magic_request drawn address next) db =
      magic_request-Changes platform cfg now drawn address next db
  serve-Changes platform cfg t now (magic_verify drawn token next) db =
      magic_login-Changes platform cfg now drawn next db (consume_magic_token now token db).0 _
        (consume_magic_token-Changes none now token db)
  serve-Changes platform cfg t now (validate_key header key) db =
      internal-Changes now t header key db
  serve-Changes platform cfg t now (heartbeat header station_key msgs) db =
      heartbeat-Changes now t header station_key msgs db
  serve-Changes platform cfg t now (vessel_photo later mmsi imo by_imo by_mmsi) db =
      vessel_photo-Changes now later mmsi imo by_imo by_mmsi db
