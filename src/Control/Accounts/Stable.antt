-- ===== src/Control/Accounts/Stable.antt =====
-- Who signs in again.
use openseafeed.Base.{
  ℕ, ◌≡◌, refl, ap, ◌∙◌, subst, arith, List, [], ◌∷◌, Bytes, bytes_eq_refl, true, Option, none,
  some, is_some, Option-cases, Bool-cases, inl, inr,
}
use openseafeed.Control.Tables.{User, Db, is_text, find, update_where}
use openseafeed.Control.Tables.Rows.{find-append_none}
use openseafeed.Control.Accounts.{
  Provider, github, google, has_id, has_provider, linked, user_clashes, insert_user, create_user,
  link_user, link_or_create, by_email, github_of, google_of, upsert_user,
}

linked-has_provider :
    (provider : Provider) (id : Bytes) (u : User)
    → has_provider provider id (linked provider id u) ≡ true
unfolding linked has_provider
linked-has_provider github id u = bytes_eq_refl id
linked-has_provider google id u = bytes_eq_refl id

linked-has_id :
    (provider : Provider) (id user_id : Bytes) (u : User)
    → has_id user_id (linked provider id u) ≡ has_id user_id u
unfolding linked
linked-has_id github id user_id u = refl
linked-has_id google id user_id u = refl

-- The first row of the account is the first of the provider's id.
find-linked :
    (provider : Provider) (id user_id : Bytes) (users : List User)
    → find (has_provider provider id) users ≡ none
    → find (has_provider provider id) (update_where (has_id user_id) (linked provider id) users)
      ≡ find (has_id user_id) (update_where (has_id user_id) (linked provider id) users)
unfolding find update_where
find-linked provider id user_id [] new = refl
find-linked provider id user_id (u ∷ users) new = ground (
  arith,
  linked-has_provider provider id u,
  linked-has_id provider id user_id u,
  find-linked provider id user_id users,
)

created-has_provider :
    (provider : Provider) (id : Bytes) (u : User)
    → u.github_id ≡ github_of provider id
    → u.google_id ≡ google_of provider id
    → has_provider provider id u ≡ true
unfolding has_provider
created-has_provider github id u hub goo = ap (λ o. is_text o id) hub ∙ bytes_eq_refl id
created-has_provider google id u hub goo = ap (λ o. is_text o id) goo ∙ bytes_eq_refl id

-- The provider's id is stored with the account that a query gives.
abbrev Stored : {F : Type 0} → Provider → Bytes → Option (User × Db F) → Type 0
Stored provider id none = Unit {0}
Stored provider id (some (u, db)) = find (has_provider provider id) db.users ≡ some u

module _ {F : Type 0} (provider : Provider) (id : Bytes) where
  insert_user-Stored :
      (u : User) (db : Db F)
      → find (has_provider provider id) db.users ≡ none
      → has_provider provider id u ≡ true
      → Stored provider id (insert_user u db)
  unfolding insert_user find
  insert_user-Stored u db new has = elim (Bool-cases (is_some (find (user_clashes u) db.users))) [
    | inl taken ↦ rw (taken, insert_user) tt
    | inr free ↦
        rw (free, insert_user)
          (find-append_none (has_provider provider id) db.users (u ∷ []) new ∙ rw has refl)
  ]

  link_user-Stored :
      (existing : User) (db : Db F)
      → find (has_provider provider id) db.users ≡ none
      → Stored provider id (link_user provider id existing db)
  unfolding link_user
  link_user-Stored existing db new =
      let users = update_where (has_id existing.id) (linked provider id) db.users in
      elim (Option-cases (find (has_id existing.id) users)) [
        | inl lost ↦ rw (lost, link_user) tt
        | inr (u, found) ↦
            rw (found, link_user) (find-linked provider id existing.id db.users new ∙ found)
      ]

  create_user-Stored :
      (now : ℕ) (drawn : Bytes) (email name : Option Bytes) (db : Db F)
      → find (has_provider provider id) db.users ≡ none
      → Stored provider id
          (create_user now drawn email (github_of provider id) (google_of provider id) name db)
  unfolding create_user
  create_user-Stored now drawn email name db new =
      insert_user-Stored _ db new (created-has_provider provider id _ refl refl)

  upsert_user-Stored :
      (now : ℕ) (drawn : Bytes) (email name : Option Bytes) (db : Db F)
      → Stored provider id (upsert_user now drawn provider id email name db)
  unfolding upsert_user link_or_create
  upsert_user-Stored now drawn email name db =
      elim (Option-cases (find (has_provider provider id) db.users)) [
        | inr (u, found) ↦ rw (found, upsert_user) found
        | inl new ↦ elim (Option-cases (by_email email db)) [
          | inr (existing, same) ↦
              rw (new, upsert_user, same, link_or_create) (link_user-Stored existing db new)
          | inl other ↦
              rw (new, upsert_user, other, link_or_create)
                (create_user-Stored now drawn email name db new)
        ]
      ]

  -- When a sign-in by a provider has given an account, a second sign-in with the same provider and id, on the tables
  -- as the first has left them, gives the same account and changes nothing, whatever address and name the
  -- provider then gives.
  pub upsert_user-again :
      (now later : ℕ) (drawn drawn' : Bytes) (email name email' name' : Option Bytes) (u : User)
      (db stored : Db F)
      → upsert_user now drawn provider id email name db ≡ some (u, stored)
      → upsert_user later drawn' provider id email' name' stored ≡ some (u, stored)
  unfolding upsert_user
  upsert_user-again now later drawn drawn' email name email' name' u db stored first =
      let known : Stored provider id (some (u, stored)) =
        subst (Stored provider id) first (upsert_user-Stored now drawn email name db) in
      rw (known, upsert_user) refl
