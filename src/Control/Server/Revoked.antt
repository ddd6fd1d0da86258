-- ===== src/Control/Server/Revoked.antt =====
-- A key that was revoked.
use openseafeed.Base.{
  ℕ, ◌≡◌, refl, ap, ◌∙◌, arith, List, [], ◌∷◌, All, Bytes, bytes_eq, bytes_eq_refl, Bool, true,
  false, Option, none, some, is_none, Bool-cases, inl, inr, if◌then◌else◌,
}
use openseafeed.Keys.{ValidateResponse, fetch}
use openseafeed.Snapshotter.Serve.{internal_token_ok}
use openseafeed.Control.Tables.{User, ApiKey, Db, find, update_where}
use openseafeed.Control.Registry.{has_key, is_own_live, key_by_id, revoke_key as revoke_own}
use openseafeed.Control.Api.{Response, validated}
use openseafeed.Control.Handlers
use openseafeed.Control.SignIn.{Config, Platform}
use openseafeed.Control.Server.{Request, validate_key, revoke_key, serve, serve_all}
use openseafeed.Control.Server.Changes.{
  user_added, user_linked, role_set, tier_set, key_added, key_revoked, key_touched, station_added,
  station_heard, token_added, token_used, photo_stored,
}
use openseafeed.Control.Tables.Rows.{find-append_some, find_sound, updated, find-update_where}
use openseafeed.Control.Server.Kept.{IsKept, serve_all-keeps}

-- The row of the key says when it was revoked.
abbrev pub IsRevoked : {F : Type 0} → Bytes → Db F → Type 0
IsRevoked key db =
    (k : ApiKey) × (find (has_key key) db.api_keys ≡ some k) × (is_none k.revoked_at ≡ false)

abbrev pub Anyone : Option User → Type 0
Anyone caller = Unit {0}

revoking-IsRevoked :
    (key : Bytes) (q : ApiKey → Bool) (now : ℕ) (rows : List ApiKey) (k : ApiKey)
    → find (has_key key) rows ≡ some k
    → is_none k.revoked_at ≡ false
    → (k' : ApiKey) × (find
          (has_key key)
          (update_where q (λ k. record k { revoked_at = some now }) rows)
        ≡ some k')
      × (is_none k'.revoked_at ≡ false)
revoking-IsRevoked key q now rows k there gone =
    let f : ApiKey → ApiKey = λ k. record k { revoked_at = some now } in
    (
      (if q k then f k else k),
      find-update_where (has_key key) q f rows (λ a. refl) ∙ ap (updated q f) there,
      ground arith,
    )

module _ {F : Type 0} where
  IsRevoked-IsKept : (key : Bytes) → IsKept {F = F} (IsRevoked key) Anyone
  IsRevoked-IsKept key caller may a b (user_added db u new role) h = h
  IsRevoked-IsKept key caller may a b (user_linked db provider id user new) h = h
  IsRevoked-IsKept key caller may a b (role_set db admin user role who power other) h = h
  IsRevoked-IsKept key caller may a b (tier_set db user tier) h = h
  IsRevoked-IsKept key caller may a b (key_added db new free owner) (k, there, gone) =
      (k, find-append_some (has_key key) db.api_keys (new ∷ []) k there, gone)
  IsRevoked-IsKept key caller may a b (key_revoked db owner other now who) (k, there, gone) =
      revoking-IsRevoked key (is_own_live owner.id other) now db.api_keys k there gone
  IsRevoked-IsKept key caller may a b (key_touched db other now) (k, there, gone) =
      let f : ApiKey → ApiKey = λ k. record k { last_used_at = some now } in
      (
        (if has_key other k then f k else k),
        find-update_where (has_key key) (has_key other) f db.api_keys (λ a. refl)
            ∙ ap (updated (has_key other) f) there,
        ground (arith, gone),
      )
  IsRevoked-IsKept key caller may a b (station_added db s k free keyed) h = h
  IsRevoked-IsKept key caller may a b (station_heard db other now msgs) h = h
  IsRevoked-IsKept key caller may a b (token_added db t free) h = h
  IsRevoked-IsKept key caller may a b (token_used db token now) h = h
  IsRevoked-IsKept key caller may a b (photo_stored db mmsi p) h = h

  pub All-Anyone : (requests : List (ℕ × Request F)) → All (λ r. Unit {0}) requests
  All-Anyone [] = tt
  All-Anyone (r ∷ requests) = (tt, All-Anyone requests)

  -- After its owner has revoked it, if it was not before.
  revoke_key-IsRevoked :
      (now : ℕ) (owner : User) (key : Bytes) (k : ApiKey) (db : Db F)
      → key_by_id db key ≡ some k
      → k.user_id ≡ owner.id
      → IsRevoked key (Handlers.revoke_key now (some owner) key db).0
  unfolding Handlers.revoke_key revoke_own
  revoke_key-IsRevoked now owner key k db there own =
      let f : ApiKey → ApiKey = λ k. record k { revoked_at = some now } in
      let q = is_own_live owner.id key in
      let here : bytes_eq k.key key ≡ true = find_sound (has_key key) db.api_keys k there in
      let same : bytes_eq k.user_id owner.id ≡ true = rw own (bytes_eq_refl owner.id) in
      (
        (if q k then f k else k),
        find-update_where (has_key key) q f db.api_keys (λ a. refl) ∙ ap (updated q f) there,
        ground (arith, here, same),
      )

  -- What a validator reads of an answer.
  abbrev pub body_of : Response F → Option ValidateResponse
  body_of (validated v) = some v
  body_of response = none

  validate_key-IsRevoked :
      (now : ℕ) (expected : Bytes) (header : Option Bytes) (key : Bytes) (db : Db F)
      → IsRevoked key db
      → fetch (body_of (Handlers.validate_key now expected header key db).1) key ≡ none
  unfolding Handlers.validate_key Handlers.validate_found fetch
  validate_key-IsRevoked now expected header key db (k, there, gone) =
      elim (Bool-cases (internal_token_ok expected header)) [
        | inl trusted ↦
            rw (trusted, there, gone, Handlers.validate_key, Handlers.validate_found) refl
        | inr other ↦ rw (other, Handlers.validate_key) refl
      ]

  module _ (platform : Platform) (cfg : Config) (internal_token : Bytes) where
    -- Once its owner has asked to revoke a key, no request brings it back: whatever is served after that, a validator
    -- that asks the control plane about the key, with whatever header, gets no key.
    pub fetch-revoke_key :
        (now later : ℕ) (owner : User) (key : Bytes) (k : ApiKey) (db : Db F)
        (requests : List (ℕ × Request F)) (header : Option Bytes)
        → key_by_id db key ≡ some k
        → k.user_id ≡ owner.id
        → let serve_at = serve platform cfg internal_token {F = F} in
          let after =
            serve_all platform cfg internal_token requests
              (serve_at now (revoke_key (some owner) key) db).0 in
          fetch (body_of (serve_at later (validate_key header key) after).1) key ≡ none
    unfolding serve
    fetch-revoke_key now later owner key k db requests header there own =
        validate_key-IsRevoked later internal_token header key _ (
          serve_all-keeps (IsRevoked key) Anyone platform cfg internal_token (IsRevoked-IsKept key)
            requests _ (All-Anyone requests) (revoke_key-IsRevoked now owner key k db there own))
