-- ===== src/Control/Server/Tokens.antt =====
-- A token that was used.
use openseafeed.Base.{
  none-ne-some, ℕ, ◌≡◌, refl, sym, ap, ◌∙◌, arith, List, [], ◌∷◌, Bytes, codes, true, Option, none,
  some, is_some, Bool-cases, Option-cases, inl, inr, if◌then◌else◌, ltb,
}
use openseafeed.Control.Tables.{MagicToken, Db, find}
use openseafeed.Control.Registry.{has_token, consume_magic_token}
use openseafeed.Control.Api.{json_error}
use openseafeed.Control.SignIn.{Config, Platform}
use openseafeed.Control.SignIn
use openseafeed.Control.Server.{Request, serve_all}
use openseafeed.Control.Server.Changes.{
  user_added, user_linked, role_set, tier_set, key_added, key_revoked, key_touched, station_added,
  station_heard, token_added, token_used, photo_stored, none_made,
}
use openseafeed.Control.Server.Served.{magic_login-Changes}
use openseafeed.Control.Tables.Rows.{find-append_some, find_sound, updated, find-update_where}
use openseafeed.Control.Server.Kept.{changes-keep, IsKept, serve_all-keeps}
use openseafeed.Control.Server.Revoked.{Anyone, All-Anyone}

-- The row of the token says when it was used.
abbrev pub IsUsed : {F : Type 0} → Bytes → Db F → Type 0
IsUsed token db =
    (t : MagicToken) × (find (has_token token) db.magic_tokens ≡ some t)
    × (is_some t.used_at ≡ true)

module _ {F : Type 0} where
  IsUsed-IsKept : (token : Bytes) → IsKept {F = F} (IsUsed token) Anyone
  IsUsed-IsKept token caller may a b (user_added db u new role) h = h
  IsUsed-IsKept token caller may a b (user_linked db provider id user new) h = h
  IsUsed-IsKept token caller may a b (role_set db admin user role who power other) h = h
  IsUsed-IsKept token caller may a b (tier_set db user tier) h = h
  IsUsed-IsKept token caller may a b (key_added db new free owner) h = h
  IsUsed-IsKept token caller may a b (key_revoked db owner other now who) h = h
  IsUsed-IsKept token caller may a b (key_touched db other now) h = h
  IsUsed-IsKept token caller may a b (station_added db s k free keyed) h = h
  IsUsed-IsKept token caller may a b (station_heard db other now msgs) h = h
  IsUsed-IsKept token caller may a b (token_added db new free) (t, there, used) =
      (t, find-append_some (has_token token) db.magic_tokens (new ∷ []) t there, used)
  IsUsed-IsKept token caller may a b (token_used db other now) (t, there, used) =
      let f : MagicToken → MagicToken = λ t. record t { used_at = some now } in
      (
        (if has_token other t then f t else t),
        find-update_where (has_token token) (has_token other) f db.magic_tokens (λ a. refl)
            ∙ ap (updated (has_token other) f) there,
        ground arith,
      )
  IsUsed-IsKept token caller may a b (photo_stored db mmsi p) h = h

  refused :
      (now : ℕ) (token email : Bytes) (db : Db F)
      → consume_magic_token now token db ≡ (db, none)
      → (consume_magic_token now token db).1 ≡ some email
      → IsUsed token (consume_magic_token now token db).0
  refused now token email db failed given =
      absurd (none-ne-some (sym (ap (λ r. r.1) failed) ∙ given))

  consumed-IsUsed :
      (now : ℕ) (token email : Bytes) (db : Db F)
      → (consume_magic_token now token db).1 ≡ some email
      → IsUsed token (consume_magic_token now token db).0
  unfolding consume_magic_token
  consumed-IsUsed now token email db h =
      let lost = refused now token email db in
      elim (Option-cases (find (has_token token) db.magic_tokens)) [
        | inl unknown ↦ lost (rw (unknown, consume_magic_token) refl) h
        | inr (t, known) ↦ elim (Bool-cases (is_some t.used_at)) [
          | inl used ↦ lost (rw (known, used, consume_magic_token) refl) h
          | inr unused ↦ elim (Bool-cases (ltb t.expires_at now)) [
            | inl over ↦ lost (rw (known, unused, over, consume_magic_token) refl) h
            | inr young ↦
                let f : MagicToken → MagicToken = λ t. record t { used_at = some now } in
                rw (known, unused, young, consume_magic_token)
                  (
                    (if has_token token t then f t else t),
                    find-update_where (has_token token) (has_token token) f db.magic_tokens
                          (λ a. refl)
                        ∙ ap (updated (has_token token) f) known,
                    ground (arith, find_sound (has_token token) db.magic_tokens t known),
                  )
          ]
        ]
      ]

  consume-IsUsed :
      (now : ℕ) (token : Bytes) (db : Db F)
      → IsUsed token db
      → consume_magic_token now token db ≡ (db, none)
  unfolding consume_magic_token
  consume-IsUsed now token db (t, there, used) = rw (there, used, consume_magic_token) refl

  module _ (platform : Platform) (cfg : Config) where
    -- Once a request to sign in with a token has got the address that the token was mailed to, every later request
    -- with the token says that the link is invalid and changes nothing, whatever was served in between.
    pub magic_verify-once :
        (internal_token : Bytes) (now later : ℕ) (drawn drawn' token email : Bytes)
        (next next' : Option Bytes) (db : Db F) (requests : List (ℕ × Request F))
        → (consume_magic_token now token db).1 ≡ some email
        → let after =
            serve_all platform cfg internal_token requests
              (SignIn.magic_verify platform now drawn cfg token next db).0 in
          SignIn.magic_verify platform later drawn' cfg token next' after
          ≡ (after, json_error 400 (codes "this sign-in link is invalid or has expired"))
    unfolding SignIn.magic_verify SignIn.magic_login
    magic_verify-once t now later drawn drawn' token email next next' db requests h =
        let first = (SignIn.magic_verify platform now drawn cfg token next db).0 in
        let after = serve_all platform cfg t requests first in
        let used : IsUsed token first =
          changes-keep (IsUsed token) Anyone (IsUsed-IsKept token) tt
            (magic_login-Changes platform cfg now drawn next (consume_magic_token now token db).0
              (consume_magic_token now token db).0 (consume_magic_token now token db).1
              (none_made (consume_magic_token now token db).0))
            (consumed-IsUsed now token email db h) in
        let still =
          serve_all-keeps (IsUsed token) Anyone platform cfg t (IsUsed-IsKept token) requests first
            (All-Anyone requests) used in
        rw (consume-IsUsed later token after still) refl
