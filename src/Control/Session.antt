-- ===== src/Control/Session.antt =====
-- services/control/src/session.rs. The keyed hash and the hexadecimal digits are parameters, and so is the clock,
-- in seconds since 1970. A user id is a text; an `i64` is read with its sign and its bounds.
pub mod Expiry
use openseafeed.Base.{
  ℕ, zero, suc, ◌+◌, ◌-◌, ◌*◌, ◌^◌, [], ◌∷◌, ◌++◌, Bytes, codes, bytes_eq, Bool, true, false, ◌==◌,
  leb, ltb, if◌then◌else◌, List, Option, none, some, ◌>>=◌,
}
use openseafeed.Base.Int.{ℤ, pos, negsuc}
use openseafeed.Base.Trim.{trim}
use openseafeed.Keys.{strip_prefix}
use openseafeed.Nmea.Number.{decimal, to_digit}

abbrev pub cookie_name : Bytes
cookie_name = codes "osf_session"

abbrev pub session_days : ℕ
session_days = 30

-- What the `hmac` and `hex` crates do: the hash of a message under a key, and its digits.
pub record Signer : Type 0 where
  pub mac : Bytes → Bytes → Bytes
  pub hex_encode : Bytes → Bytes
  pub hex_decode : Bytes → Option Bytes

-- The text before a mark and that behind it.
unfoldable pub cut : ℕ → Bytes → Option (Bytes × Bytes)
cut mark [] = none
cut mark (c ∷ s) =
    let rest = cut mark s in
    if c == mark then some ([], s) else (do (before, after) ← rest; some (c ∷ before, after))

-- The digits behind `acc`, none above `limit`.
unfoldable pub digits_below : (limit acc : ℕ) → Bytes → Option ℕ
digits_below limit acc [] = some acc
digits_below limit acc (c ∷ s) = do
  d ← to_digit 10 c
  if ltb limit (acc * 10 + d) then none else digits_below limit (acc * 10 + d) s

abbrev pub minus : ℕ → ℤ
minus zero = pos 0
minus (suc n) = negsuc n

-- Digits with one at least.
unfoldable pub some_digits : ℕ → Bytes → Option ℕ
some_digits limit [] = none
some_digits limit (c ∷ s) = digits_below limit 0 (c ∷ s)

-- `str::parse::<i64>`
unfoldable pub parse_i64 : Bytes → Option ℤ
parse_i64 [] = none
parse_i64 (c ∷ s) =
    if c == b'-'
    then (do n ← some_digits (2 ^ 63) s; some (minus n))
    else if c == b'+'
    then (do n ← some_digits (2 ^ 63 - 1) s; some (pos n))
    else (do n ← some_digits (2 ^ 63 - 1) (c ∷ s); some (pos n))

-- A time after 1970 above the one that was read.
unfoldable pub is_past : ℕ → ℤ → Bool
is_past now (pos n) = ltb n now
is_past now (negsuc n) = true

unfoldable pub expiry_of : ℕ → ℕ
expiry_of now = now + session_days * 24 * 60 * 60

-- The three parts of `splitn`.
unfoldable pub three_parts : Bytes → Option (Bytes × Bytes × Bytes)
three_parts value = do
  (user_id, rest) ← cut b'|' value
  (expiry_str, sig) ← cut b'|' rest
  some (user_id, expiry_str, sig)

module _ (signer : Signer) where
  unfoldable pub issue : (now : ℕ) (secret user_id : Bytes) → Bytes
  issue now secret user_id =
      let payload = user_id ++ b'|' ∷ decimal (expiry_of now) in
      payload ++ b'|' ∷ signer.hex_encode (signer.mac secret payload)

  unfoldable pub verify_parts : (now : ℕ) (secret : Bytes) → Bytes × Bytes × Bytes → Option Bytes
  verify_parts now secret (user_id, expiry_str, sig) = do
    sig_bytes ← signer.hex_decode sig
    good ←
        (if bytes_eq (signer.mac secret (user_id ++ b'|' ∷ expiry_str)) sig_bytes
          then some true
          else none)
    expiry ← parse_i64 expiry_str
    if is_past now expiry then none else some user_id

  unfoldable pub verify : (now : ℕ) (secret value : Bytes) → Option Bytes
  verify now secret value = do parts ← three_parts value; verify_parts now secret parts

  unfoldable pub set_cookie_header : (now : ℕ) (secret user_id : Bytes) → Bytes
  set_cookie_header now secret user_id =
      cookie_name
      ++ b'=' ∷ issue now secret user_id
      ++ (codes "; Path=/; HttpOnly; SameSite=Lax; Max-Age="
          ++ decimal (session_days * 24 * 60 * 60))

unfoldable pub clear_cookie_header : Bytes
clear_cookie_header = cookie_name ++ codes "=; Path=/; HttpOnly; SameSite=Lax; Max-Age=0"

-- The pieces of a text between the marks; the last in `piece` so far.
unfoldable pub pieces : ℕ → Bytes → Bytes → List Bytes
pieces mark piece [] = piece ∷ []
pieces mark piece (c ∷ s) =
    if c == mark then piece ∷ pieces mark [] s else pieces mark (piece ++ c ∷ []) s

unfoldable pub find_cookie : List Bytes → Option Bytes
find_cookie [] = none
find_cookie (pair ∷ pairs) = elim (strip_prefix (cookie_name ++ b'=' ∷ []) (trim pair)) [
  | some rest ↦ some rest
  | none ↦ find_cookie pairs
]

unfoldable pub from_cookie_header : Bytes → Option Bytes
from_cookie_header header = find_cookie (pieces b';' [] header)
