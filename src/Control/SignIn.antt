-- ===== src/Control/SignIn.antt =====
-- services/control/src/auth.rs, and `current_user` of lib.rs: who is signed in, and how one signs in. The answers of
-- the providers are arguments, and so is what `rand` draws; URL encoding and lower case are parameters.
use openseafeed.Base.{
  ℕ, ◌/◌, List, [], ◌∷◌, ◌++◌, length, any, Bytes, codes, bytes_eq, Bool, false, not, ◌==◌, ◌&&◌,
  ◌||◌, if◌then◌else◌, Option, none, some, is_some, or_default, ◌>>=◌,
}
use openseafeed.Base.Trim.{trim}
use openseafeed.Keys.{strip_prefix}
use openseafeed.Control.Session.{
  Signer, verify, pieces, from_cookie_header, set_cookie_header, clear_cookie_header,
}
use openseafeed.Control.Tables.{User, Db}
use openseafeed.Control.Accounts.{
  user_by_id, Provider, github, google, upsert_user, upsert_email_user,
}
use openseafeed.Control.Registry.{create_magic_token, consume_magic_token}
use openseafeed.Control.Api.{Response, json_error, unavailable, link, redirect, internal_error}

pub record Config : Type 0 where
  pub public_url : Bytes
  pub session_secret : Bytes
  pub github_client : Option Bytes
  pub google_client : Option Bytes
  pub cors_origins : List Bytes

pub record Platform : Type 0 where
  pub signer : Signer
  pub to_lowercase : Bytes → Bytes
  pub url_encode : Bytes → Bytes
  pub url_decode : Bytes → Option Bytes

abbrev pub state_cookie : Bytes
state_cookie = codes "osf_oauth_state"

abbrev pub next_cookie : Bytes
next_cookie = codes "osf_next"

abbrev pub starts_with : Bytes → Bytes → Bool
starts_with s prefix = is_some (strip_prefix prefix s)

-- The values of a cookie of that name, in the order of the header.
unfoldable pub values_of : (name : Bytes) → List Bytes → List Bytes
values_of name [] = []
values_of name (pair ∷ pairs) =
    let rest = values_of name pairs in
    elim (strip_prefix (name ++ b'=' ∷ []) (trim pair)) [ none ↦ rest | some value ↦ value ∷ rest ]

abbrev pub first_of : List Bytes → Option Bytes
first_of [] = none
first_of (value ∷ values) = some value

abbrev pub last_of : List Bytes → Option Bytes
last_of [] = none
last_of (value ∷ values) = some (or_default (last_of values) value)

abbrev pub header_values : (name : Bytes) → (cookie : Option Bytes) → List Bytes
header_values name none = []
header_values name (some header) = values_of name (pieces b';' [] header)

unfoldable pub cookie_value : (cookie : Option Bytes) → (name : Bytes) → Option Bytes
cookie_value cookie name = first_of (header_values name cookie)

-- The state of the provider is that of the last such cookie, and some text.
unfoldable pub check_state : (cookie : Option Bytes) → (returned : Bytes) → Bool
check_state cookie returned = elim (last_of (header_values state_cookie cookie)) [
  | none ↦ false
  | some expected ↦ bytes_eq expected returned && not (length returned == 0)
]

-- `trim_end_matches`
unfoldable pub trim_slashes : Bytes → Bytes
trim_slashes [] = []
trim_slashes (c ∷ s) =
    let rest = trim_slashes s in if c == b'/' && length rest == 0 then [] else c ∷ rest

unfoldable pub is_origin_url : (url origin : Bytes) → Bool
is_origin_url url origin = bytes_eq url origin || starts_with url (origin ++ b'/' ∷ [])

unfoldable pub safe_url : List Bytes → Bytes → Option Bytes
safe_url origins url =
    if starts_with url (codes "/") && not (starts_with url (codes "//"))
    then some url
    else if any (is_origin_url url) origins
    then some url
    else none

unfoldable pub safe_next : Config → Option Bytes → Option Bytes
safe_next cfg next = do url ← next; safe_url cfg.cors_origins (trim url)

abbrev pub provider_name : Provider → Bytes
provider_name github = codes "github"
provider_name google = codes "google"

abbrev pub client_of : Config → Provider → Option Bytes
client_of cfg github = cfg.github_client
client_of cfg google = cfg.google_client

unfoldable pub redirect_uri : Config → Provider → Bytes
redirect_uri cfg provider =
    trim_slashes cfg.public_url ++ (codes "/auth/" ++ (provider_name provider ++ codes "/callback"))

abbrev pub flow_cookie : (name value : Bytes) → Bytes
flow_cookie name value =
    name ++ b'=' ∷ (value ++ codes "; Path=/; HttpOnly; SameSite=Lax; Max-Age=600")

abbrev pub cleared_cookie : (name : Bytes) → Bytes
cleared_cookie name = name ++ codes "=; Path=/; HttpOnly; Max-Age=0"

unfoldable pub disabled : {F : Type 0} → Provider → Response F
disabled github =
    unavailable (codes "github sign-in is not configured on this server")
      (codes "set OSF_GITHUB_CLIENT_ID and OSF_GITHUB_CLIENT_SECRET")
disabled google =
    unavailable (codes "google sign-in is not configured on this server")
      (codes "set OSF_GOOGLE_CLIENT_ID and OSF_GOOGLE_CLIENT_SECRET")

-- What an exchange of the code has given: the id, the address and the name of the user.
abbrev pub Profile : Type 0
Profile = Bytes × Option Bytes × Option Bytes

module _ (platform : Platform) where
  -- `current_user`, over the header of the cookies.
  unfoldable pub current_user :
      {F : Type 0} → (now : ℕ) → Config → (cookie : Option Bytes) → Db F → Option User
  current_user now cfg cookie db = do
    header ← cookie
    value ← from_cookie_header header
    user_id ← verify platform.signer (now / 1_000_000_000) cfg.session_secret value
    user_by_id db user_id

  unfoldable pub authorize_url : Config → Provider → (client_id csrf : Bytes) → Bytes
  authorize_url cfg github client_id csrf =
      codes "https://github.com/login/oauth/authorize?client_id="
      ++ (platform.url_encode client_id
          ++ (codes "&redirect_uri="
              ++ (platform.url_encode (redirect_uri cfg github)
                  ++ (codes "&scope=read:user%20user:email&state=" ++ csrf))))
  authorize_url cfg google client_id csrf =
      codes "https://accounts.google.com/o/oauth2/v2/auth?client_id="
      ++ (platform.url_encode client_id
          ++ (codes "&redirect_uri="
              ++ (platform.url_encode (redirect_uri cfg google)
                  ++ (codes "&response_type=code&scope="
                      ++ (platform.url_encode (codes "openid email profile")
                          ++ (codes "&state=" ++ csrf))))))

  abbrev pub next_header : Option Bytes → Bytes
  next_header none = cleared_cookie next_cookie
  next_header (some next) = flow_cookie next_cookie (platform.url_encode next)

  unfoldable pub start_redirect : {F : Type 0} → (url csrf : Bytes) → Option Bytes → Response F
  start_redirect url csrf next =
      redirect (flow_cookie state_cookie csrf ∷ next_header next ∷ []) url

  -- `github_start` and `google_start`
  unfoldable pub oauth_start :
      {F : Type 0} → Config → Provider → (csrf : Bytes) → (next : Option Bytes) → Response F
  oauth_start cfg provider csrf next = elim (client_of cfg provider) [
    | none ↦ disabled provider
    | some client_id ↦
        start_redirect (authorize_url cfg provider client_id csrf) csrf (safe_next cfg next)
  ]

  unfoldable pub finish_login :
      {F : Type 0} → (now : ℕ) → Config → (user_id : Bytes) → (next : Option Bytes) → Response F
  finish_login now cfg user_id next =
      redirect
        (set_cookie_header platform.signer (now / 1_000_000_000) cfg.session_secret user_id
          ∷ cleared_cookie state_cookie
          ∷ cleared_cookie next_cookie
          ∷ [])
        (or_default next (codes "/dashboard"))

  unfoldable pub next_from_cookie : Config → (cookie : Option Bytes) → Option Bytes
  next_from_cookie cfg cookie = do
    raw ← cookie_value cookie next_cookie
    decoded ← platform.url_decode raw
    safe_next cfg (some decoded)

  unfoldable pub logged_in :
      {F : Type 0}
      → (now : ℕ) → Config
      → (next : Option Bytes) → (failed : Response F) → Db F
      → Option (User × Db F)
      → Db F × Response F
  logged_in now cfg next failed db none = (db, failed)
  logged_in now cfg next failed db (some (user, stored)) =
      (stored, finish_login now cfg user.id next)

  unfoldable pub exchanged :
      {F : Type 0}
      → (now : ℕ) (drawn : Bytes) → Provider
      → Option Profile
      → Db F
      → Option (User × Db F)
  exchanged now drawn provider none db = none
  exchanged now drawn provider (some (id, email, display_name)) db =
      upsert_user now drawn provider id email display_name db

  -- `github_callback` and `google_callback`
  unfoldable pub oauth_callback :
      {F : Type 0}
      → (now : ℕ) (drawn : Bytes) → Config
      → Provider
      → (cookie : Option Bytes) → (code state : Bytes) → Option Profile
      → Db F
      → Db F × Response F
  oauth_callback now drawn cfg provider cookie code state outcome db =
      if is_some (client_of cfg provider)
      then (if check_state cookie state
          then (if length code == 0
              then (db, json_error 400 (codes "missing authorization code"))
              else logged_in now cfg (next_from_cookie cfg cookie)
                  (json_error 502 (provider_name provider ++ codes " sign-in failed")) db
                  (exchanged now drawn provider outcome db))
          else (db, json_error 400 (codes "invalid oauth state")))
      else (db, disabled provider)

  abbrev pub magic_ttl_minutes : ℕ
  magic_ttl_minutes = 15

  abbrev pub link_next : Option Bytes → Bytes
  link_next none = []
  link_next (some next) = codes "&next=" ++ platform.url_encode next

  unfoldable pub link_answer :
      {F : Type 0}
      → Config
      → (email : Bytes) → (next : Option Bytes) → Db F
      → Option (Bytes × Db F)
      → Db F × Response F
  link_answer cfg email next db none = (db, internal_error)
  link_answer cfg email next db (some (token, stored)) = (
    stored,
    link email (
        trim_slashes cfg.public_url
        ++ (codes "/auth/magic/verify?token=" ++ (token ++ link_next (safe_next cfg next)))),
  )

  -- The link stands for the mail, or the line of the log, that carries it.
  unfoldable pub magic_request :
      {F : Type 0}
      → (now : ℕ) (drawn : Bytes) → Config
      → (address : Bytes) → (next : Option Bytes) → Db F
      → Db F × Response F
  magic_request now drawn cfg address next db =
      let email = platform.to_lowercase (trim address) in
      if any (λ c. c == b'@') email
      then link_answer cfg email next db (create_magic_token now drawn email magic_ttl_minutes db)
      else (db, json_error 400 (codes "a valid email is required"))

  unfoldable pub magic_login :
      {F : Type 0}
      → (now : ℕ) (drawn : Bytes) → Config
      → (next : Option Bytes) → Db F
      → Option Bytes
      → Db F × Response F
  magic_login now drawn cfg next db none =
      (db, json_error 400 (codes "this sign-in link is invalid or has expired"))
  magic_login now drawn cfg next db (some email) =
      logged_in now cfg (safe_next cfg next) internal_error db
        (upsert_email_user now drawn email db)

  unfoldable pub magic_verify :
      {F : Type 0}
      → (now : ℕ) (drawn : Bytes) → Config
      → (token : Bytes) → (next : Option Bytes) → Db F
      → Db F × Response F
  magic_verify now drawn cfg token next db =
      let (used, email) = consume_magic_token now token db in
      magic_login now drawn cfg next used email

unfoldable pub logout : {F : Type 0} → Response F
logout = redirect (clear_cookie_header ∷ []) (codes "/")

-- `cors`: the origin that is answered with the headers of a page of one's own.
unfoldable pub allowed_origin : Config → (origin : Option Bytes) → Option Bytes
allowed_origin cfg origin = do
  o ← origin
  if any (λ a. bytes_eq a o) cfg.cors_origins then some o else none
