-- ===== src/Tests/Accounts.antt =====
-- A session of the control plane, with a hash that appends the message to the key.
use openseafeed.Base.{◌≡◌, refl, codes, ◌++◌, some, none, ltb, if◌then◌else◌, arith}
use openseafeed.Control.Session.{Signer, issue, verify, expiry_of}
use openseafeed.Control.Session.Expiry.{verify-issue}

abbrev pub plain : Signer
plain = record { mac = λ key text. key ++ text; hex_encode = λ b. b; hex_decode = λ b. some b }

verify-issue_example :
    verify plain 1_700_000_100 (codes "s") (issue plain 1_700_000_000 (codes "s") (codes "u_1"))
    ≡ (if ltb (expiry_of 1_700_000_000) 1_700_000_100 then none else some (codes "u_1"))
unfolding expiry_of
verify-issue_example =
    verify-issue plain 1_700_000_000 1_700_000_100 (codes "s") (codes "u_1") (λ b. refl)
      (ground arith) (ground arith)
