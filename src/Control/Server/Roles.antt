-- ===== src/Control/Server/Roles.antt =====
-- Who can give a role.
use openseafeed.Base.{
  some_inj, none-ne-some, ℕ, ◌≡◌, refl, sym, ap, ◌∙◌, arith, List, [], ◌∷◌, All, Bytes, bytes_eq,
  bytes_eq→eq, Bool, true, false, Option, none, some, ◌⊎◌, inl, inr, if◌then◌else◌,
}
use openseafeed.Control.Tables.{User, Db, find, update_where}
use openseafeed.Control.Accounts.{Provider, github, google, is_admin, has_id, with_role, linked}
use openseafeed.Control.SignIn.{Config, Platform}
use openseafeed.Control.Server.{Request, serve_all}
use openseafeed.Control.Server.Changes.{
  user_added, user_linked, role_set, tier_set, key_added, key_revoked, key_touched, station_added,
  station_heard, token_added, token_used, photo_stored,
}
use openseafeed.Control.Server.Served.{caller_of}
use openseafeed.Control.Tables.Rows.{find-append_some, find_sound, updated, find-update_where}
use openseafeed.Control.Server.Kept.{IsKept, serve_all-keeps}

abbrev pub HasRole : {F : Type 0} → (id role : Bytes) → Db F → Type 0
HasRole id role db = (u : User) × (find (has_id id) db.users ≡ some u) × (u.role ≡ role)

-- No administrator, or the account itself.
abbrev pub IsHarmless : (id : Bytes) → Option User → Type 0
IsHarmless id none = Unit {0}
IsHarmless id (some c) = (is_admin c ≡ false) ⊎ (c.id ≡ id)

linked-id :
    (provider : Provider) (provider_id : Bytes) (u : User)
    → (linked provider provider_id u).id ≡ u.id
unfolding linked
linked-id github provider_id u = refl
linked-id google provider_id u = refl

linked-role :
    (provider : Provider) (provider_id : Bytes) (u : User)
    → (linked provider provider_id u).role ≡ u.role
unfolding linked
linked-role github provider_id u = refl
linked-role google provider_id u = refl

-- An update that leaves ids and roles alone.
unchanged-HasRole :
    (id role : Bytes) (q : User → Bool) (f : User → User) (users : List User)
    → ((u : User) → (f u).id ≡ u.id)
    → ((u : User) → (f u).role ≡ u.role)
    → (u : User) → find (has_id id) users ≡ some u
    → u.role ≡ role
    → (v : User) × (find (has_id id) (update_where q f users) ≡ some v) × (v.role ≡ role)
unchanged-HasRole id role q f users same_id same_role u there has = (
  (if q u then f u else u),
  find-update_where (has_id id) q f users (λ a. ap (λ i. bytes_eq i id) (same_id a))
      ∙ ap (updated q f) there,
  ground (arith, same_role u),
)

-- The role of another.
other-HasRole :
    (id role user_id given : Bytes) (users : List User)
    → bytes_eq id user_id ≡ false
    → (u : User) → find (has_id id) users ≡ some u
    → u.role ≡ role
    → (v : User) × (find (has_id id) (update_where (has_id user_id) (with_role given) users)
        ≡ some v)
      × (v.role ≡ role)
other-HasRole id role user_id given users other u there has =
    let same : u.id ≡ id = bytes_eq→eq u.id id (find_sound (has_id id) users u there) in
    let spared : has_id user_id u ≡ false = rw same other in
    (
      u,
      find-update_where (has_id id) (has_id user_id) (with_role given) users (λ a. refl)
          ∙ ap (updated (has_id user_id) (with_role given)) there
          ∙ rw spared refl,
      has,
    )

module _ {F : Type 0} where
  set_role-HasRole :
      (id role : Bytes) (caller : Option User) (admin : User) (user_id given : Bytes) (db : Db F)
      → IsHarmless id caller
      → caller ≡ some admin
      → is_admin admin ≡ true
      → bytes_eq admin.id user_id ≡ false
      → HasRole id role db
      → HasRole id role
          (record db { users = update_where (has_id user_id) (with_role given) db.users })
  set_role-HasRole id role none admin user_id given db may who power other h =
      absurd (none-ne-some who)
  set_role-HasRole id role (some c) admin user_id given db (inl lower) who power other h =
      absurd (clash (sym lower ∙ ap is_admin (some_inj who) ∙ power))
    where
      clash : false ≡ true → ⊥
      clash e = cc
  set_role-HasRole id role (some c) admin user_id given db (inr own) who power other
        (u, there, has) =
      other-HasRole id role user_id given db.users
        (ap (λ i. bytes_eq i user_id) (sym own ∙ ap (λ (c : User). c.id) (some_inj who)) ∙ other) u
        there has

  HasRole-IsKept : (id role : Bytes) → IsKept {F = F} (HasRole id role) (IsHarmless id)
  HasRole-IsKept id role caller may a b (user_added db new free fresh) (u, there, has) =
      (u, find-append_some (has_id id) db.users (new ∷ []) u there, has)
  HasRole-IsKept id role caller may a b (user_linked db provider pid user new) (u, there, has) =
      unchanged-HasRole id role (has_id user) (linked provider pid) db.users
        (linked-id provider pid) (linked-role provider pid) u there has
  HasRole-IsKept id role caller may a b (role_set db admin user given who power other) h =
      set_role-HasRole id role caller admin user given db may who power other h
  HasRole-IsKept id role caller may a b (tier_set db user tier) (u, there, has) =
      unchanged-HasRole id role (has_id user) (λ u. record u { tier_override = tier }) db.users
        (λ u. refl) (λ u. refl) u there has
  HasRole-IsKept id role caller may a b (key_added db new free owner) h = h
  HasRole-IsKept id role caller may a b (key_revoked db owner other now who) h = h
  HasRole-IsKept id role caller may a b (key_touched db other now) h = h
  HasRole-IsKept id role caller may a b (station_added db s k free keyed) h = h
  HasRole-IsKept id role caller may a b (station_heard db other now msgs) h = h
  HasRole-IsKept id role caller may a b (token_added db t free) h = h
  HasRole-IsKept id role caller may a b (token_used db token now) h = h
  HasRole-IsKept id role caller may a b (photo_stored db mmsi p) h = h

  -- An account keeps its role through any requests whose callers are no administrators, or are the account itself.
  pub serve_all-HasRole :
      (platform : Platform) (cfg : Config) (internal_token id role : Bytes)
      (requests : List (ℕ × Request F)) (db : Db F)
      → All (λ r. IsHarmless id (caller_of r.1)) requests
      → HasRole id role db
      → HasRole id role (serve_all platform cfg internal_token requests db)
  serve_all-HasRole platform cfg t id role requests db harmless h =
      serve_all-keeps (HasRole id role) (IsHarmless id) platform cfg t (HasRole-IsKept id role)
        requests db harmless h
