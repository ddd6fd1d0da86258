-- ===== src/Tests/Control.antt =====
-- The control plane with two accounts, a key, a station's key and a token.
use openseafeed.Base.{ℕ, ◌≡◌, refl, List, [], ◌∷◌, All, codes, true, none, some, inl}
use openseafeed.Keys.{ValidateResponse, fetch}
use openseafeed.Snapshotter.Serve.{internal_token_ok, differences}
use openseafeed.Control.Tables.{User, ApiKey, Db, find}
use openseafeed.Control.Accounts.{github, has_provider, upsert_user}
use openseafeed.Control.Accounts.Stable.{upsert_user-again}
use openseafeed.Control.Registry.{consume_magic_token}
use openseafeed.Control.Api.{json_error, validated}
use openseafeed.Control.Handlers.{validate_key as validate}
use openseafeed.Control.Handlers.Feeding.{validate_key-contributor}
use openseafeed.Control.SignIn.{Config, Platform}
use openseafeed.Control.SignIn
use openseafeed.Control.Server.{
  Request, create_key, revoke_key, update_user, magic_verify, validate_key, serve, serve_all,
}
use openseafeed.Control.Server.Revoked.{body_of, fetch-revoke_key}
use openseafeed.Control.Server.Tokens.{magic_verify-once}
use openseafeed.Control.Server.Roles.{HasRole, serve_all-HasRole}
use openseafeed.Control.Server.Bootstrap.{HasNoAdmin, IsCommon, begin, served, Reach-HasNoAdmin}
use openseafeed.Tests.Accounts.{plain}

abbrev platform : Platform
platform = record {
  signer = plain;
  to_lowercase = λ s. s;
  url_encode = λ s. s;
  url_decode = λ s. some s;
}

abbrev cfg : Config
cfg = record {
  public_url = codes "http://localhost:8083";
  session_secret = codes "s";
  github_client = some (codes "c");
  google_client = none;
  cors_origins = codes "https://test.example" ∷ [];
}

abbrev ann : User
ann = record {
  id = codes "usr_a";
  email = some (codes "ann@example.org");
  github_id = none;
  google_id = none;
  display_name = none;
  created_at = 1;
  role = codes "user";
  tier_override = none;
}

abbrev bob : User
bob = record {
  id = codes "usr_b";
  email = some (codes "bob@example.org");
  github_id = some (codes "7");
  google_id = none;
  display_name = none;
  created_at = 2;
  role = codes "moderator";
  tier_override = none;
}

abbrev feed_key : ApiKey
feed_key = record {
  key = codes "osf_feed_12345678";
  user_id = codes "usr_a";
  kind = codes "feed";
  label = none;
  created_at = 3;
  revoked_at = none;
  last_used_at = none;
}

abbrev db : Db ℕ
db = record {
  users = ann ∷ bob ∷ [];
  api_keys = feed_key ∷ [];
  stations = [];
  magic_tokens =
      record {
        token = codes "00ff";
        email = codes "ann@example.org";
        expires_at = 1_000;
        used_at = none;
      }
      ∷ [];
  photos = [];
}

abbrev requests : List (ℕ × Request ℕ)
requests =
    (10, update_user (some bob) (codes "usr_a") (some (codes "admin")) none)
    ∷ (11, create_key (codes "ab") (some ann) (codes "live") none)
    ∷ (12, validate_key (some (codes "t")) (codes "osf_feed_12345678"))
    ∷ []

fetch-revoke_key_example :
    let after =
      serve_all platform cfg
        (codes "t")
        requests
        (serve platform cfg
          (codes "t")
          9
          (revoke_key (some ann) (codes "osf_feed_12345678"))
          db).0 in
    fetch
      (body_of
        (serve platform cfg
          (codes "t")
          13
          (validate_key (some (codes "t")) (codes "osf_feed_12345678"))
          after).1)
      (codes "osf_feed_12345678")
    ≡ none
fetch-revoke_key_example =
    fetch-revoke_key platform cfg (codes "t") 9 13 ann (codes "osf_feed_12345678") feed_key db
      requests (some (codes "t")) (unfold find in refl) refl

magic_verify-once_example :
    let after =
      serve_all platform cfg
        (codes "t")
        requests
        (SignIn.magic_verify platform 500 (codes "cd") cfg (codes "00ff") none db).0 in
    SignIn.magic_verify platform 600 (codes "ef") cfg (codes "00ff") none after
    ≡ (after, json_error 400 (codes "this sign-in link is invalid or has expired"))
magic_verify-once_example =
    magic_verify-once platform cfg (codes "t") 500 600 (codes "cd") (codes "ef") (codes "00ff")
      (codes "ann@example.org") none none db requests (unfold consume_magic_token find in refl)

serve_all-HasRole_example :
    HasRole (codes "usr_a") (codes "user") (serve_all platform cfg (codes "t") requests db)
serve_all-HasRole_example =
    serve_all-HasRole platform cfg (codes "t") (codes "usr_a") (codes "user") requests db
      (inl refl, (inl refl, (tt, tt))) (ann, unfold find in refl, refl)

Reach-HasNoAdmin_example :
    HasNoAdmin
      (serve platform cfg (codes "t") 5 (magic_verify (codes "cd") (codes "00ff") none) db).0
    × All IsCommon []
Reach-HasNoAdmin_example =
    Reach-HasNoAdmin platform cfg (codes "t") (refl, (refl, tt))
      (served 5 (magic_verify (codes "cd") (codes "00ff") none) tt begin)

upsert_user-again_example :
    upsert_user 21 (codes "22") github (codes "7") none none db ≡ some (bob, db)
upsert_user-again_example =
    upsert_user-again github (codes "7") 20 21 (codes "11") (codes "22") none none none none bob db
      db (unfold upsert_user find has_provider in refl)

validate_key-contributor_example :
    (v : ValidateResponse) × ((validate 30
        (codes "t")
        (some (codes "t"))
        (codes "osf_feed_12345678")
        db).1
      ≡ validated v)
    × (v.valid ≡ true)
    × (v.tier ≡ codes "contributor")
    × (v.owner_id ≡ codes "usr_a")
validate_key-contributor_example =
    validate_key-contributor 30 (codes "t") (some (codes "t")) (codes "osf_feed_12345678") feed_key
      db (unfold internal_token_ok differences in refl) (unfold find in refl) refl refl
      (unfold find in refl)
