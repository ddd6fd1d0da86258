-- ===== src/Control/Accounts.antt =====
-- services/control/src/db.rs: the queries about users, at the time `now`. What `rand` draws for an id is an
-- argument, in hexadecimal digits. A query that fails changes nothing and is `none`.
pub mod Stable
use openseafeed.Base.{
  ℕ, suc, ◌+◌, ◌-◌, ◌*◌, List, [], ◌∷◌, ◌++◌, keep, Bytes, codes, bytes_eq, Bool, true, false, ◌==◌,
  ◌&&◌, ◌||◌, leb, ltb, if◌then◌else◌, Option, none, some, is_some, is_none, ◌>>=◌,
}
use openseafeed.Control.Tables.{User, Db, is_text, clashes, find, update_where, count, order_by}

abbrev pub new_id : (prefix drawn : Bytes) → Bytes
new_id prefix drawn = prefix ++ drawn

abbrev pub is_admin : User → Bool
is_admin u = bytes_eq u.role (codes "admin")

abbrev pub has_id : Bytes → User → Bool
has_id id u = bytes_eq u.id id

abbrev pub with_role : Bytes → User → User
with_role role u = record u { role = role }

-- `UPDATE users SET role = 'admin' WHERE id = (SELECT id … LIMIT 1)`
abbrev pub promote_first : List User → List User → List User
promote_first [] users = users
promote_first (oldest ∷ others) users =
    update_where (has_id oldest.id) (with_role (codes "admin")) users

pub data Provider : Type 0 where
  github : Provider
  google : Provider

unfoldable pub provider_of : Bytes → Option Provider
provider_of name =
    if bytes_eq name (codes "github")
    then some github
    else if bytes_eq name (codes "google")
    then some google
    else none

-- `SELECT … WHERE {col} = ?1`
unfoldable pub has_provider : Provider → Bytes → User → Bool
has_provider github id u = is_text u.github_id id
has_provider google id u = is_text u.google_id id

abbrev pub has_email : Bytes → User → Bool
has_email email u = is_text u.email email

-- `UPDATE users SET {col} = ?1`; that no other row has the value is known by then.
unfoldable pub linked : Provider → Bytes → User → User
linked github id u = record u { github_id = some id }
linked google id u = record u { google_id = some id }

-- The row is refused where a column that is unique has one of its values.
abbrev pub user_clashes : User → User → Bool
user_clashes new u =
    bytes_eq u.id new.id
    || clashes u.email new.email
    || clashes u.github_id new.github_id
    || clashes u.google_id new.google_id

abbrev pub github_of : Provider → Bytes → Option Bytes
github_of github id = some id
github_of google id = none

abbrev pub google_of : Provider → Bytes → Option Bytes
google_of github id = none
google_of google id = some id

module _ {F : Type 0} where
  unfoldable pub ensure_bootstrap_admin : Db F → Db F
  ensure_bootstrap_admin db =
      if count is_admin db.users == 0
      then record db { users = promote_first (order_by (λ u. u.created_at) db.users) db.users }
      else db

  abbrev pub user_by_id : Db F → Bytes → Option User
  user_by_id db id = find (has_id id) db.users

  unfoldable pub insert_user : User → Db F → Option (User × Db F)
  insert_user new db =
      if is_some (find (user_clashes new) db.users)
      then none
      else some (new, record db { users = db.users ++ new ∷ [] })

  unfoldable pub create_user :
      (now : ℕ) (drawn : Bytes)
      → (email github_id google_id display_name : Option Bytes) → Db F
      → Option (User × Db F)
  create_user now drawn email github_id google_id display_name db =
      insert_user
        (record {
          id = new_id (codes "usr_") drawn;
          email = email;
          github_id = github_id;
          google_id = google_id;
          display_name = display_name;
          created_at = now;
          role = codes "user";
          tier_override = none;
        })
        db

  -- The provider's id is linked to the account of the address.
  unfoldable pub link_user : Provider → (provider_id : Bytes) → User → Db F → Option (User × Db F)
  link_user provider provider_id existing db =
      let users = update_where (has_id existing.id) (linked provider provider_id) db.users in
      do user ← find (has_id existing.id) users; some (user, record db { users = users })

  abbrev pub by_email : Option Bytes → Db F → Option User
  by_email none db = none
  by_email (some email) db = find (has_email email) db.users

  unfoldable pub link_or_create :
      (now : ℕ) (drawn : Bytes)
      → Provider
      → (provider_id : Bytes) → (email display_name : Option Bytes) → Option User
      → Db F
      → Option (User × Db F)
  link_or_create now drawn provider provider_id email display_name (some existing) db =
      link_user provider provider_id existing db
  link_or_create now drawn provider provider_id email display_name none db =
      create_user now drawn email (github_of provider provider_id) (google_of provider provider_id)
        display_name db

  -- `upsert_oauth_user` for a provider that is one.
  unfoldable pub upsert_user :
      (now : ℕ) (drawn : Bytes)
      → Provider
      → (provider_id : Bytes) → (email display_name : Option Bytes) → Db F
      → Option (User × Db F)
  upsert_user now drawn provider provider_id email display_name db =
      elim (find (has_provider provider provider_id) db.users) [
        | some user ↦ some (user, db)
        | none ↦
            link_or_create now drawn provider provider_id email display_name (by_email email db) db
      ]

  unfoldable pub upsert_oauth_user :
      (now : ℕ) (drawn name provider_id : Bytes)
      → (email display_name : Option Bytes) → Db F
      → Option (User × Db F)
  upsert_oauth_user now drawn name provider_id email display_name db = do
    provider ← provider_of name
    upsert_user now drawn provider provider_id email display_name db

  unfoldable pub upsert_email_user : (now : ℕ) (drawn email : Bytes) → Db F → Option (User × Db F)
  upsert_email_user now drawn email db = elim (find (has_email email) db.users) [
    | some user ↦ some (user, db)
    | none ↦ create_user now drawn (some email) none none none db
  ]

  unfoldable pub set_user_role : (user_id role : Bytes) → Db F → Db F
  set_user_role user_id role db = record db {
    users = update_where (has_id user_id) (with_role role) db.users;
  }

  unfoldable pub set_user_tier_override : (user_id : Bytes) → Option Bytes → Db F → Db F
  set_user_tier_override user_id tier db = record db {
    users = update_where (has_id user_id) (λ u. record u { tier_override = tier }) db.users;
  }
