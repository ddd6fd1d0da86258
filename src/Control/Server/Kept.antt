-- ===== src/Control/Server/Kept.antt =====
-- What every request leaves alone.
use openseafeed.Base.{ℕ, List, [], ◌∷◌, All, Bytes, Option}
use openseafeed.Control.Tables.{User, Db}
use openseafeed.Control.SignIn.{Config, Platform}
use openseafeed.Control.Server.{Request, serve, serve_all}
use openseafeed.Control.Server.Changes.{Change, Changes, none_made, then_made}
use openseafeed.Control.Server.Served.{caller_of, serve-Changes}

module _ {F : Type 0} (R : Db F → Type 0) (May : Option User → Type 0) where
  -- Every statement of a caller that may make it keeps a property.
  abbrev pub IsKept : Type 0
  IsKept = (caller : Option User) → May caller → (a b : Db F) → Change caller a b → R a → R b

  pub changes-keep :
      IsKept → {caller : Option User} → May caller → {a b : Db F} → Changes caller a b → R a → R b
  changes-keep kept may (none_made a) h = h
  changes-keep kept {caller} may (then_made a b c change rest) h =
      changes-keep kept may rest (kept caller may a b change h)

  module _ (platform : Platform) (cfg : Config) (internal_token : Bytes) where
    pub serve-keeps :
        IsKept
        → (now : ℕ) (request : Request F) (db : Db F) → May (caller_of request)
        → R db
        → R (serve platform cfg internal_token now request db).0
    serve-keeps kept now request db may h =
        changes-keep kept may (serve-Changes platform cfg internal_token now request db) h

    pub serve_all-keeps :
        IsKept
        → (requests : List (ℕ × Request F)) (db : Db F) → All (λ r. May (caller_of r.1)) requests
        → R db
        → R (serve_all platform cfg internal_token requests db)
    unfolding serve_all
    serve_all-keeps kept [] db may h = h
    serve_all-keeps kept ((now, request) ∷ requests) db (first, may) h =
        serve_all-keeps kept requests _ may (serve-keeps kept now request db first h)
