-- ===== src/Control/Api.antt =====
-- services/control/src/api.rs: the answers, and what the handlers ask of a request. What Wikidata says is an argument.
use openseafeed.Base.{
  ℕ, ◌-◌, List, [], ◌∷◌, ◌++◌, any, Bytes, codes, bytes_eq, Bool, true, false, not, ◌==◌, ◌&&◌,
  ◌||◌, ltb, if◌then◌else◌, Option, none, some, is_some, is_none,
}
use openseafeed.Keys.{ValidateResponse, strip_prefix}
use openseafeed.Control.Tables.{User, ApiKey, Station, VesselPhoto, Db}
use openseafeed.Control.Accounts.{is_admin}
use openseafeed.Control.Registry.{minutes, days}

-- A row of the table of the administrators.
pub record AdminUser : Type 0 where
  pub id : Bytes
  pub email : Option Bytes
  pub display_name : Option Bytes
  pub role : Bytes
  pub tier : Bytes
  pub tier_override : Option Bytes
  pub keys : ℕ
  pub stations : ℕ
  pub created_at : ℕ

-- The answers, with the status of an error; the cookies and the target of a redirection.
pub data Response (F : Type 0) : Type 0 where
  json_error : ℕ → Bytes → Response F
  unavailable : (error hint : Bytes) → Response F
  profile : User → List ApiKey → List (Station F) → (tier : Bytes) → Response F
  new_key : ApiKey → Response F
  revoked : Response F
  new_station : Station F → ApiKey → Response F
  own_stations : List (Station F) → Response F
  all_users : List AdminUser → Response F
  done : Response F
  photo : (image_url page_url : Option Bytes) → Response F
  validated : ValidateResponse → Response F
  link : (to url : Bytes) → Response F
  redirect : (cookies : List Bytes) → (target : Bytes) → Response F

abbrev pub internal_error : {F : Type 0} → Response F
internal_error = json_error 500 (codes "internal error")

abbrev pub unauthenticated : {F : Type 0} → Response F
unauthenticated = json_error 401 (codes "authentication required")

-- The state and the answer behind a query that may fail.
unfoldable pub answered :
    {F A : Type 0} → Db F → (A → Response F) → Option (A × Db F) → Db F × Response F
answered db respond none = (db, internal_error)
answered db respond (some (a, stored)) = (stored, respond a)

-- `matches!` on texts.
abbrev pub is_one_of : List Bytes → Bytes → Bool
is_one_of names text = any (λ name. bytes_eq text name) names

abbrev pub roles : List Bytes
roles = codes "user" ∷ codes "moderator" ∷ codes "admin" ∷ []

abbrev pub tiers : List Bytes
tiers = codes "auto" ∷ codes "free" ∷ codes "contributor" ∷ []

-- `require_role` for who is signed in: moderators will do, or administrators only.
unfoldable pub has_role : (need_admin : Bool) → User → Bool
has_role need_admin u = is_admin u || (bytes_eq u.role (codes "moderator") && not need_admin)

-- What is wrong with a request to change a user.
unfoldable pub role_refusal :
    {F : Type 0} → User → (user_id : Bytes) → Option Bytes → Option (Response F)
role_refusal caller user_id none = none
role_refusal caller user_id (some role) =
    if not (is_admin caller)
    then some (json_error 403 (codes "only admins can change roles"))
    else if bytes_eq caller.id user_id
    then some (json_error 400 (codes "you cannot change your own role"))
    else if not (is_one_of roles role)
    then some (json_error 400 (codes "role must be user, moderator or admin"))
    else none

unfoldable pub tier_refusal : {F : Type 0} → Option Bytes → Option (Response F)
tier_refusal none = none
tier_refusal (some tier) =
    if is_one_of tiers tier
    then none
    else some (json_error 400 (codes "tier_override must be auto, free or contributor"))

abbrev pub positive_ttl_days : ℕ
positive_ttl_days = 30

abbrev pub negative_ttl_days : ℕ
negative_ttl_days = 7

abbrev pub same_imo : Option ℕ → Option ℕ → Bool
same_imo none none = true
same_imo (some a) (some b) = a == b
same_imo none (some b) = false
same_imo (some a) none = false

-- A lookup of the cache that still is an answer.
unfoldable pub is_answer : (now : ℕ) → (imo : Option ℕ) → VesselPhoto → Bool
is_answer now imo p =
    let ttl = if is_some p.image_url then positive_ttl_days else negative_ttl_days in
    ltb (now - p.fetched_at) (days ttl)
    && (is_some p.image_url || is_none imo || same_imo p.imo imo)

unfoldable pub cached_photo : (now : ℕ) → (imo : Option ℕ) → Option VesselPhoto → Option VesselPhoto
cached_photo now imo none = none
cached_photo now imo (some p) = if is_answer now imo p then some p else none

-- `replacen` of the first occurrence.
unfoldable pub replace_first : (pattern by : Bytes) → Bytes → Bytes
replace_first pattern by [] = elim (strip_prefix pattern []) [ none ↦ [] | some rest ↦ by ++ rest ]
replace_first pattern by (c ∷ s) =
    let later = c ∷ replace_first pattern by s in
    elim (strip_prefix pattern (c ∷ s)) [ none ↦ later | some rest ↦ by ++ rest ]

abbrev pub https_of : Bytes → Bytes
https_of raw = replace_first (codes "http://") (codes "https://") raw

abbrev pub image_of : Option Bytes → Option Bytes
image_of none = none
image_of (some raw) = some (https_of raw ++ codes "?width=640")

abbrev pub page_of : Option Bytes → Option Bytes
page_of none = none
page_of (some raw) = some (replace_first (codes "Special:FilePath/") (codes "File:") (https_of raw))

-- The lookup by the IMO number where there is one, then by the MMSI; `none` is an error of either.
unfoldable pub looked_up :
    (imo : Option ℕ) → (by_imo by_mmsi : Option (Option Bytes)) → Option (Option Bytes)
looked_up none by_imo by_mmsi = by_mmsi
looked_up (some imo) none by_mmsi = none
looked_up (some imo) (some none) by_mmsi = by_mmsi
looked_up (some imo) (some (some raw)) by_mmsi = some (some raw)

abbrev pub not_valid : ValidateResponse
not_valid = record { valid = false; kind = []; tier = []; owner_id = []; station_id = none }

-- A key of a feeder that was not marked in the last five minutes.
unfoldable pub is_stale : (now : ℕ) → ApiKey → Bool
is_stale now k =
    not (bytes_eq k.kind (codes "live"))
    && (elim k.last_used_at [ none ↦ true | some time ↦ ltb (minutes 5) (now - time) ])
