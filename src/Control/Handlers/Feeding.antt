-- ===== src/Control/Handlers/Feeding.antt =====
-- What the use of a key makes of the tier of its owner.
use openseafeed.Base.{
  some_inj, ℕ, ◌-◌, ◌≡◌, refl, sym, ap, ◌∙◌, arith, List, [], ◌∷◌, Bytes, codes, bytes_eq,
  bytes_eq→eq, bytes_eq_refl, Bool, true, false, not, ◌&&◌, ◌||◌, ltb, Option, none, some, is_none,
  Bool-cases, inl, inr, if◌then◌else◌,
}
use openseafeed.Keys.{ValidateResponse}
use openseafeed.Snapshotter.Serve.{internal_token_ok}
use openseafeed.Control.Tables.{ApiKey, Db, find, count}
use openseafeed.Control.Tables.Rows.{find_sound, updated, find-update_where}
use openseafeed.Control.Accounts.{user_by_id}
use openseafeed.Control.Registry.{
  has_key, key_by_id, is_contribution, since, minutes, days, contributor_window_days, override_of,
  contributions, tier_for_user, touch_key,
}
use openseafeed.Control.Api.{validated, is_stale}
use openseafeed.Control.Handlers.{validate_live, validate_found, validate_key}

count_some :
    (p q : ApiKey → Bool) (rows : List ApiKey) (k : ApiKey)
    → find q rows ≡ some k
    → p k ≡ true
    → ltb 0 (count p rows) ≡ true
unfolding find count
count_some p q [] k h good = cc
count_some p q (r ∷ rows) k h good = elim (Bool-cases (q r)) [
  | inl here ↦ first (some_inj (sym (rw (here, find) refl) ∙ h))
  | inr later ↦ ground (arith, later, count_some p q rows k)
]
  where
    first : r ≡ k → ltb 0 (count p (r ∷ rows)) ≡ true
    first same = ground (arith, same, ap p same)

-- The kinds of those who feed.
abbrev pub IsFeeder : ApiKey → Type 0
IsFeeder k = (bytes_eq k.kind (codes "feed") || bytes_eq k.kind (codes "station")) ≡ true

feeder-not_live :
    (kind : Bytes)
    → (bytes_eq kind (codes "feed") || bytes_eq kind (codes "station")) ≡ true
    → bytes_eq kind (codes "live") ≡ false
feeder-not_live kind h = elim (Bool-cases (bytes_eq kind (codes "feed"))) [
  | inl feed ↦ ap (λ t. bytes_eq t (codes "live")) (bytes_eq→eq kind (codes "feed") feed)
  | inr other ↦
      ap (λ t. bytes_eq t (codes "live"))
        (bytes_eq→eq kind (codes "station") (ground (arith, other, h)))
]

recent-since :
    (now : ℕ) (used : Option ℕ)
    → (elim used [ none ↦ true | some time ↦ ltb (minutes 5) (now - time) ]) ≡ false
    → since (now - days contributor_window_days) used ≡ true
recent-since now none h = cc
recent-since now (some time) h = ground arith

is_contribution_lem :
    (cutoff : ℕ) (k : ApiKey)
    → IsFeeder k
    → is_none k.revoked_at ≡ true
    → since cutoff k.last_used_at ≡ true
    → is_contribution k.user_id cutoff k ≡ true
is_contribution_lem cutoff k feeds live used = rw (bytes_eq_refl k.user_id, feeds, live, used) refl

fresh-since : (now : ℕ) → since (now - days contributor_window_days) (some now) ≡ true
fresh-since now = ground arith

not_stale :
    (now : ℕ) (k : ApiKey)
    → IsFeeder k
    → is_stale now k ≡ false
    → (elim k.last_used_at [ none ↦ true | some time ↦ ltb (minutes 5) (now - time) ]) ≡ false
unfolding is_stale
not_stale now k feeds recent =
    ap
      (λ b.
        not b && (elim k.last_used_at [ none ↦ true | some time ↦ ltb (minutes 5) (now - time) ]))
      (sym (feeder-not_live k.kind feeds))
    ∙ recent

module _ {F : Type 0} where
  -- Behind the mark of its use, a key counts as a contribution.
  touched_contribution :
      (now : ℕ) (k : ApiKey) (db : Db F)
      → find (has_key k.key) db.api_keys ≡ some k
      → IsFeeder k
      → is_none k.revoked_at ≡ true
      → ltb 0 (
          count
            (is_contribution k.user_id (now - days contributor_window_days))
            (if is_stale now k then touch_key now k.key db else db).api_keys)
        ≡ true
  unfolding touch_key is_stale
  touched_contribution now k db there feeds live =
      let cutoff = now - days contributor_window_days in
      let touch : ApiKey → ApiKey = λ k. record k { last_used_at = some now } in
      elim (Bool-cases (is_stale now k)) [
        | inl stale ↦ rw stale (
            count_some (is_contribution k.user_id cutoff) (has_key k.key) _ (touch k)
              (find-update_where (has_key k.key) (has_key k.key) touch db.api_keys (λ a. refl)
                ∙ ap (updated (has_key k.key) touch) there
                ∙ rw (bytes_eq_refl k.key) refl)
              (is_contribution_lem cutoff (touch k) feeds live (fresh-since now)))
        | inr recent ↦ rw recent (
            count_some (is_contribution k.user_id cutoff) (has_key k.key) db.api_keys k there (
              is_contribution_lem cutoff k feeds live
                (recent-since now k.last_used_at (not_stale now k feeds recent))))
      ]

  touched-users :
      (now : ℕ) (k : ApiKey) (db : Db F)
      → user_by_id (if is_stale now k then touch_key now k.key db else db) k.user_id
        ≡ user_by_id db k.user_id
  unfolding touch_key
  touched-users now k db = elim (Bool-cases (is_stale now k)) [
    | inl stale ↦ rw stale refl
    | inr recent ↦ rw recent refl
  ]

  contributor_tier :
      (now : ℕ) (user_id : Bytes) (db : Db F)
      → override_of (user_by_id db user_id) ≡ none
      → ltb 0 (count (is_contribution user_id (now - days contributor_window_days)) db.api_keys)
        ≡ true
      → tier_for_user now user_id db ≡ codes "contributor"
  unfolding tier_for_user contributions
  contributor_tier now user_id db none_set some_key =
      let some_row : ltb 0 (contributions now user_id db) ≡ true = ground (arith, some_key) in
      rw (none_set, tier_for_user, some_row) refl

  -- A service that has the internal token and asks about the key of a feeder or a station, which is there and was not
  -- revoked, is told that it is valid and that its owner is a contributor, unless the owner's tier was set by hand.
  pub validate_key-contributor :
      (now : ℕ) (expected : Bytes) (header : Option Bytes) (key : Bytes) (k : ApiKey) (db : Db F)
      → internal_token_ok expected header ≡ true
      → key_by_id db key ≡ some k
      → is_none k.revoked_at ≡ true
      → IsFeeder k
      → override_of (user_by_id db k.user_id) ≡ none
      → (v : ValidateResponse) × ((validate_key now expected header key db).1 ≡ validated v)
        × (v.valid ≡ true)
        × (v.tier ≡ codes "contributor")
        × (v.owner_id ≡ k.user_id)
  unfolding validate_key validate_found validate_live
  validate_key-contributor now expected header key k db trusted there live feeds none_set =
      let touched = if is_stale now k then touch_key now k.key db else db in
      let same : k.key ≡ key =
        bytes_eq→eq k.key key (find_sound (has_key key) db.api_keys k there) in
      let own : find (has_key k.key) db.api_keys ≡ some k =
        ap (λ t. find (has_key t) db.api_keys) same ∙ there in
      (
        (validate_live now k db).1,
        rw (trusted, there, live, validate_key, validate_found) refl,
        refl,
        contributor_tier now k.user_id touched (ap override_of (touched-users now k db) ∙ none_set)
            (touched_contribution now k db own feeds live),
        refl,
      )
