-- ===== src/Control/Server/Queries.antt =====
-- The statements that a query makes, whoever the caller is.
use openseafeed.Base.{
  Holds, subst, ℕ, ◌≡◌, refl, Bytes, codes, ◌&&◌, &&_iff, Option, none, some, is_some, is_none,
  is_none→eq, is_some_not→eq, is_some→eq, Bool-cases, Option-cases, inl, inr, ltb,
}
use openseafeed.Base.Int.{pos}
use openseafeed.Control.Tables.{User, ApiKey, Station, Db, find, update_where}
use openseafeed.Control.Accounts.{
  Provider, has_id, user_by_id, has_provider, linked, user_clashes, new_id, insert_user,
  create_user, link_user, link_or_create, by_email, upsert_user, upsert_email_user, has_email,
}
use openseafeed.Control.Registry.{
  has_key, new_key, known_kind, fresh_key, insert_key, create_key as store_key, insert_station,
  is_station_id, create_station as store_station, has_token, create_magic_token,
  consume_magic_token,
}
use openseafeed.Control.Api.{Response, answered}
use openseafeed.Control.Handlers
use openseafeed.Control.Server.Changes.{
  Change, user_added, user_linked, key_added, station_added, token_added, token_used, Changes,
  none_made, then_made, one_made,
}

module _ {F : Type 0} where
  -- What a query that may fail has made of the tables.
  abbrev pub Makes : {A : Type 0} → Option User → Db F → Option (A × Db F) → Type 0
  Makes caller db none = Unit {0}
  Makes caller db (some (a, stored)) = Changes caller db stored

  insert_user-Makes :
      (caller : Option User) (u : User) (db : Db F)
      → u.role ≡ codes "user"
      → Makes caller db (insert_user u db)
  unfolding insert_user
  insert_user-Makes caller u db role =
      elim (Bool-cases (is_some (find (user_clashes u) db.users))) [
        | inl taken ↦ rw (taken, insert_user) tt
        | inr free ↦
            rw (free, insert_user)
              (one_made db _
                (user_added db u (is_some_not→eq (find (user_clashes u) db.users) free) role))
      ]

  create_user-Makes :
      (caller : Option User) (now : ℕ) (drawn : Bytes) (email hub goo name : Option Bytes)
      (db : Db F)
      → Makes caller db (create_user now drawn email hub goo name db)
  unfolding create_user
  create_user-Makes caller now drawn email hub goo name db = insert_user-Makes caller _ db refl

  link_user-Makes :
      (caller : Option User) (provider : Provider) (id : Bytes) (existing : User) (db : Db F)
      → find (has_provider provider id) db.users ≡ none
      → Makes caller db (link_user provider id existing db)
  unfolding link_user
  link_user-Makes caller provider id existing db new =
      let users = update_where (has_id existing.id) (linked provider id) db.users in
      elim (Option-cases (find (has_id existing.id) users)) [
        | inl lost ↦ rw (lost, link_user) tt
        | inr (u, found) ↦
            rw (found, link_user) (one_made db _ (user_linked db provider id existing.id new))
      ]

  pub upsert_user-Makes :
      (caller : Option User) (now : ℕ) (drawn : Bytes) (provider : Provider) (id : Bytes)
      (email name : Option Bytes) (db : Db F)
      → Makes caller db (upsert_user now drawn provider id email name db)
  unfolding upsert_user link_or_create
  upsert_user-Makes caller now drawn provider id email name db =
      elim (Option-cases (find (has_provider provider id) db.users)) [
        | inr (u, found) ↦ rw (found, upsert_user) (none_made db)
        | inl new ↦ elim (Option-cases (by_email email db)) [
          | inr (existing, same) ↦
              rw (new, upsert_user, same, link_or_create)
                (link_user-Makes caller provider id existing db new)
          | inl other ↦
              rw (new, upsert_user, other, link_or_create)
                (create_user-Makes caller now drawn email _ _ name db)
        ]
      ]

  pub upsert_email_user-Makes :
      (caller : Option User) (now : ℕ) (drawn email : Bytes) (db : Db F)
      → Makes caller db (upsert_email_user now drawn email db)
  unfolding upsert_email_user
  upsert_email_user-Makes caller now drawn email db =
      elim (Option-cases (find (has_email email) db.users)) [
        | inr (u, found) ↦ rw (found, upsert_email_user) (none_made db)
        | inl new ↦ rw (new, upsert_email_user) (create_user-Makes caller now drawn _ _ _ _ db)
      ]

  pub answered-Changes :
      {A : Type 0} (caller : Option User) (db : Db F) (respond : A → Response F)
      (o : Option (A × Db F))
      → Makes caller db o
      → Changes caller db (answered db respond o).0
  unfolding answered
  answered-Changes caller db respond none h = none_made db
  answered-Changes caller db respond (some (a, stored)) h = h

  insert_key-Holds :
      (caller : Option User) (k : ApiKey) (db : Db F) → Holds (Change caller db) (insert_key k db)
  unfolding insert_key
  insert_key-Holds caller k db =
      let free = is_none (find (has_key k.key) db.api_keys) in
      let owned = is_some (user_by_id db k.user_id) in
      elim (Bool-cases (free && owned && known_kind k.kind)) [
        | inr refused ↦ rw (refused, insert_key) tt
        | inl good ↦
            let (both, _) = (&&_iff (free && owned) (known_kind k.kind)).0 good in
            let (new, owner) = (&&_iff free owned).0 both in
            rw (good, insert_key)
              (key_added db k (is_none→eq (find (has_key k.key) db.api_keys) new) owner)
      ]

  insert_station-Holds :
      (caller : Option User) (s : Station F) (db : Db F)
      → Holds (Change caller db) (insert_station s db)
  unfolding insert_station
  insert_station-Holds caller s db =
      let free = is_none (find (is_station_id s.id) db.stations) in
      let owned = is_some (user_by_id db s.user_id) in
      let keyed = is_some (find (has_key s.key) db.api_keys) in
      elim (Bool-cases (free && owned && keyed)) [
        | inr refused ↦ rw (refused, insert_station) tt
        | inl good ↦
            let (both, key) = (&&_iff (free && owned) keyed).0 good in
            let (new, owner) = (&&_iff free owned).0 both in
            let (k, there) = is_some→eq (find (has_key s.key) db.api_keys) key in
            rw (good, insert_station)
              (station_added db s k (is_none→eq (find (is_station_id s.id) db.stations) new) there)
      ]

  pub store_key-Makes :
      (caller : Option User) (now : ℕ) (drawn user_id kind : Bytes) (label : Option Bytes)
      (db : Db F)
      → Makes caller db (store_key now drawn user_id kind label db)
  unfolding store_key
  store_key-Makes caller now drawn user_id kind label db =
      let key = fresh_key now (new_key kind drawn) user_id kind label in
      elim (Option-cases (insert_key key db)) [
        | inl failed ↦ rw (failed, store_key) tt
        | inr (stored, made) ↦
            let change = subst (Holds (Change caller db)) made (insert_key-Holds caller key db) in
            rw (made, store_key) (one_made db stored change)
      ]

  pub store_station-Makes :
      (caller : Option User) (now : ℕ) (drawn drawn_id user_id name : Bytes) (lat lon : Option F)
      (db : Db F)
      → Makes caller db
          (Handlers.station_answer (store_station now drawn drawn_id user_id name lat lon db))
  unfolding store_station
  store_station-Makes caller now drawn drawn_id user_id name lat lon db =
      let key =
        fresh_key now (new_key (codes "station") drawn) user_id (codes "station") (some name) in
      let station : Station F = record {
        id = new_id (codes "stn_") drawn_id;
        user_id = user_id;
        name = name;
        lat = lat;
        lon = lon;
        key = key.key;
        created_at = now;
        last_seen_at = none;
        msgs_total = pos 0;
      } in
      elim (Option-cases (insert_key key db)) [
        | inl failed ↦ rw (failed, store_station) tt
        | inr (with_key, made) ↦
            let first = subst (Holds (Change caller db)) made (insert_key-Holds caller key db) in
            elim (Option-cases (insert_station station with_key)) [
              | inl failed ↦ rw (made, failed, store_station) tt
              | inr (stored, added) ↦
                  let second =
                    subst (Holds (Change caller with_key)) added
                      (insert_station-Holds caller station with_key) in
                  rw (made, added, store_station)
                    (then_made db with_key stored first (one_made with_key stored second))
            ]
      ]

  pub create_magic_token-Makes :
      (caller : Option User) (now : ℕ) (drawn email : Bytes) (ttl : ℕ) (db : Db F)
      → Makes caller db (create_magic_token now drawn email ttl db)
  unfolding create_magic_token
  create_magic_token-Makes caller now drawn email ttl db =
      elim (Bool-cases (is_some (find (has_token drawn) db.magic_tokens))) [
        | inl taken ↦ rw (taken, create_magic_token) tt
        | inr free ↦
            rw (free, create_magic_token)
              (one_made db _
                (token_added db _ (is_some_not→eq (find (has_token drawn) db.magic_tokens) free)))
      ]

  pub consume_magic_token-Changes :
      (caller : Option User) (now : ℕ) (token : Bytes) (db : Db F)
      → Changes caller db (consume_magic_token now token db).0
  unfolding consume_magic_token
  consume_magic_token-Changes caller now token db =
      elim (Option-cases (find (has_token token) db.magic_tokens)) [
        | inl unknown ↦ rw (unknown, consume_magic_token) (none_made db)
        | inr (t, known) ↦ elim (Bool-cases (is_some t.used_at)) [
          | inl used ↦ rw (known, used, consume_magic_token) (none_made db)
          | inr unused ↦ elim (Bool-cases (ltb t.expires_at now)) [
            | inl over ↦ rw (known, unused, over, consume_magic_token) (none_made db)
            | inr young ↦
                rw (known, unused, young, consume_magic_token)
                  (one_made db _ (token_used db token now))
          ]
        ]
      ]
