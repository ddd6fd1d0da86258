-- ===== src/Control/Server/Changes.antt =====
-- What a request can do to the tables.
use openseafeed.Base.{
  ℕ, ◌≡◌, List, [], ◌∷◌, ◌++◌, Bytes, codes, bytes_eq, true, false, Option, none, some, is_some,
}
use openseafeed.Base.Int.{ℤ, ◌+ℤ◌}
use openseafeed.Base.Map.{insert, nat_eq}
use openseafeed.Control.Tables.{
  User, ApiKey, Station, MagicToken, VesselPhoto, Db, find, update_where,
}
use openseafeed.Control.Accounts.{
  Provider, is_admin, has_id, with_role, has_provider, linked, user_clashes,
}
use openseafeed.Control.Registry.{has_key, is_own_live, has_station_key, has_token, is_station_id}

abbrev pub with_users : {F : Type 0} → List User → Db F → Db F
with_users users db = record db { users = users }

abbrev pub with_keys : {F : Type 0} → List ApiKey → Db F → Db F
with_keys keys db = record db { api_keys = keys }

abbrev pub with_tokens : {F : Type 0} → List MagicToken → Db F → Db F
with_tokens tokens db = record db { magic_tokens = tokens }

-- One statement of a request of a caller.
pub data Change {F : Type 0} (caller : Option User) : Db F → Db F → Type 0 where
  user_added :
      (db : Db F) (u : User)
      → find (user_clashes u) db.users ≡ none
      → u.role ≡ codes "user"
      → Change caller db (with_users (db.users ++ u ∷ []) db)
  user_linked :
      (db : Db F) (provider : Provider) (provider_id user_id : Bytes)
      → find (has_provider provider provider_id) db.users ≡ none
      → Change caller db
          (with_users (update_where (has_id user_id) (linked provider provider_id) db.users) db)
  role_set :
      (db : Db F) (admin : User) (user_id role : Bytes)
      → caller ≡ some admin
      → is_admin admin ≡ true
      → bytes_eq admin.id user_id ≡ false
      → Change caller db (with_users (update_where (has_id user_id) (with_role role) db.users) db)
  tier_set :
      (db : Db F) (user_id : Bytes) (tier : Option Bytes)
      → Change caller db (
          with_users
            (update_where (has_id user_id) (λ u. record u { tier_override = tier }) db.users)
            db)
  key_added :
      (db : Db F) (k : ApiKey)
      → find (has_key k.key) db.api_keys ≡ none
      → is_some (find (has_id k.user_id) db.users) ≡ true
      → Change caller db (with_keys (db.api_keys ++ k ∷ []) db)
  key_revoked :
      (db : Db F) (owner : User) (key : Bytes) (now : ℕ)
      → caller ≡ some owner
      → Change caller db (
          with_keys
            (update_where
              (is_own_live owner.id key)
              (λ k. record k { revoked_at = some now })
              db.api_keys)
            db)
  key_touched :
      (db : Db F) (key : Bytes) (now : ℕ)
      → Change caller db (
          with_keys
            (update_where (has_key key) (λ k. record k { last_used_at = some now }) db.api_keys)
            db)
  station_added :
      (db : Db F) (s : Station F) (k : ApiKey)
      → find (is_station_id s.id) db.stations ≡ none
      → find (has_key s.key) db.api_keys ≡ some k
      → Change caller db (record db { stations = db.stations ++ s ∷ [] })
  station_heard :
      (db : Db F) (key : Bytes) (now : ℕ) (msgs : ℤ)
      → Change caller db (record db {
        stations =
            update_where
              (has_station_key key)
              (λ s. record s { last_seen_at = some now; msgs_total = s.msgs_total +ℤ msgs })
              db.stations;
      })
  token_added :
      (db : Db F) (t : MagicToken)
      → find (has_token t.token) db.magic_tokens ≡ none
      → Change caller db (with_tokens (db.magic_tokens ++ t ∷ []) db)
  token_used :
      (db : Db F) (token : Bytes) (now : ℕ)
      → Change caller db (
          with_tokens
            (update_where (has_token token) (λ t. record t { used_at = some now }) db.magic_tokens)
            db)
  photo_stored :
      (db : Db F) (mmsi : ℕ) (p : VesselPhoto)
      → Change caller db (record db { photos = insert mmsi p db.photos })

pub data Changes {F : Type 0} (caller : Option User) : Db F → Db F → Type 0 where
  none_made : (db : Db F) → Changes caller db db
  then_made : (a b c : Db F) → Change caller a b → Changes caller b c → Changes caller a c

pub one_made :
    {F : Type 0} → {caller : Option User} → (a b : Db F) → Change caller a b → Changes caller a b
one_made a b change = then_made a b b change (none_made b)

pub and_then :
    {F : Type 0}
    → {caller : Option User} → {a b c : Db F} → Changes caller a b
    → Changes caller b c
    → Changes caller a c
and_then (none_made a) after = after
and_then (then_made a b c change rest) after = then_made a b _ change (and_then rest after)
