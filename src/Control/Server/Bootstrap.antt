-- ===== src/Control/Server/Bootstrap.antt =====
-- The administrators of a database that has none.
use mathlib.Core.List.{Memᴰ}
use mathlib.Core.List.Memᴰ.{head, tail}
use openseafeed.Base.{
  Holds, Holds-chain, ◌/◌, ℕ, ◌≡◌, refl, sym, ap, ◌∙◌, subst, List, [], ◌∷◌, All, All-append, Bytes,
  codes, bytes_eq, true, false, Option, none, some, some_inj, none-ne-some,
}
use openseafeed.Control.Session.{from_cookie_header, verify}
use openseafeed.Control.Tables.{User, Db}
use openseafeed.Control.Accounts.{Provider, github, google, is_admin, has_id, linked}
use openseafeed.Control.SignIn.{Config, Platform, current_user}
use openseafeed.Control.Server.{Request, serve}
use openseafeed.Control.Server.Changes.{
  user_added, user_linked, role_set, tier_set, key_added, key_revoked, key_touched, station_added,
  station_heard, token_added, token_used, photo_stored,
}
use openseafeed.Control.Server.Served.{caller_of}
use openseafeed.Control.Tables.Rows.{find-Holds, update_where-All}
use openseafeed.Control.Server.Kept.{IsKept, serve-keeps}

abbrev pub IsCommon : User → Type 0
IsCommon u = is_admin u ≡ false

abbrev pub HasNoAdmin : {F : Type 0} → Db F → Type 0
HasNoAdmin db = All IsCommon db.users

abbrev IsCommonCaller : Option User → Type 0
IsCommonCaller none = Unit {0}
IsCommonCaller (some u) = IsCommon u

-- A caller is one of the users that were looked up.
abbrev pub IsKnown : List User → Option User → Type 0
IsKnown callers none = Unit {0}
IsKnown callers (some u) = Memᴰ u callers

linked-IsCommon :
    (provider : Provider) (id : Bytes) (u : User) → IsCommon u → IsCommon (linked provider id u)
unfolding linked
linked-IsCommon github id u h = h
linked-IsCommon google id u h = h

All-Mem : (callers : List User) (u : User) → All IsCommon callers → Memᴰ u callers → IsCommon u
All-Mem (c ∷ callers) u (hc, h) (head e) = subst IsCommon (sym e) hc
All-Mem (c ∷ callers) u (hc, h) (tail m) = All-Mem callers u h m
All-Mem [] u h m = elim m [ ]

IsKnown-IsCommon :
    (callers : List User) (caller : Option User)
    → All IsCommon callers
    → IsKnown callers caller
    → IsCommonCaller caller
IsKnown-IsCommon callers none h m = tt
IsKnown-IsCommon callers (some u) h m = All-Mem callers u h m

no_admin_calls :
    (caller : Option User) (admin : User)
    → IsCommonCaller caller
    → caller ≡ some admin
    → is_admin admin ≡ true
    → ⊥
no_admin_calls none admin common who power = none-ne-some who
no_admin_calls (some c) admin common who power =
    clash (sym common ∙ ap is_admin (some_inj who) ∙ power)
  where
    clash : false ≡ true → ⊥
    clash e = cc

module _ {F : Type 0} where
  HasNoAdmin-IsKept : IsKept {F = F} HasNoAdmin IsCommonCaller
  HasNoAdmin-IsKept caller may a b (user_added db u free fresh) h =
      All-append IsCommon db.users (u ∷ []) h
        (ap (λ r. bytes_eq r (codes "admin")) fresh ∙ refl, tt)
  HasNoAdmin-IsKept caller may a b (user_linked db provider id user new) h =
      update_where-All IsCommon (has_id user) (linked provider id) db.users
        (linked-IsCommon provider id) h
  HasNoAdmin-IsKept caller may a b (role_set db admin user role who power other) h =
      absurd (no_admin_calls caller admin may who power)
  HasNoAdmin-IsKept caller may a b (tier_set db user tier) h =
      update_where-All IsCommon (has_id user) (λ u. record u { tier_override = tier }) db.users
        (λ u common. common) h
  HasNoAdmin-IsKept caller may a b (key_added db new free owner) h = h
  HasNoAdmin-IsKept caller may a b (key_revoked db owner other now who) h = h
  HasNoAdmin-IsKept caller may a b (key_touched db other now) h = h
  HasNoAdmin-IsKept caller may a b (station_added db s k free keyed) h = h
  HasNoAdmin-IsKept caller may a b (station_heard db other now msgs) h = h
  HasNoAdmin-IsKept caller may a b (token_added db t free) h = h
  HasNoAdmin-IsKept caller may a b (token_used db token now) h = h
  HasNoAdmin-IsKept caller may a b (photo_stored db mmsi p) h = h

  module _ (platform : Platform) (cfg : Config) (internal_token : Bytes) where
    -- The handlers take the lock twice: once to look the caller up, and then to act. Other requests come in between.
    pub data Reach (start : Db F) : List User → Db F → Type 0 where
      begin : Reach start [] start
      looked :
          {callers : List User} {db : Db F} (u : User)
          → (now : ℕ) (cookie : Option Bytes) → current_user platform now cfg cookie db ≡ some u
          → Reach start callers db
          → Reach start (u ∷ callers) db
      served :
          {callers : List User} {db : Db F} (now : ℕ) (request : Request F)
          → IsKnown callers (caller_of request)
          → Reach start callers db
          → Reach start callers (serve platform cfg internal_token now request db).0

    current_user-Holds :
        (now : ℕ) (cookie : Option Bytes) (db : Db F)
        → HasNoAdmin db
        → Holds IsCommon (current_user platform now cfg cookie db)
    unfolding current_user
    current_user-Holds now cookie db h = Holds-chain IsCommon cookie _ (λ header.
        Holds-chain IsCommon (from_cookie_header header) _ (λ value.
          Holds-chain IsCommon
            (verify platform.signer (now / 1_000_000_000) cfg.session_secret value) _
            (λ id. find-Holds (has_id id) IsCommon db.users h)))

    -- From a database without an administrator, whatever requests are served and however they interleave, there is
    -- none: neither among the accounts nor among the callers that were looked up.
    pub Reach-HasNoAdmin :
        {start : Db F} {callers : List User} {db : Db F}
        → HasNoAdmin start
        → Reach start callers db
        → HasNoAdmin db × All IsCommon callers
    Reach-HasNoAdmin h begin = (h, tt)
    Reach-HasNoAdmin h (looked {db} u now cookie found before) =
        let (kept, common) = Reach-HasNoAdmin h before in
        (kept, (subst (Holds IsCommon) found (current_user-Holds now cookie db kept), common))
    Reach-HasNoAdmin h (served {callers} {db} now request known before) =
        let (kept, common) = Reach-HasNoAdmin h before in
        (
          serve-keeps HasNoAdmin IsCommonCaller platform cfg internal_token HasNoAdmin-IsKept now
              request db (IsKnown-IsCommon callers (caller_of request) common known) kept,
          common,
        )
