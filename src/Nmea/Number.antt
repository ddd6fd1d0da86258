-- ===== src/Nmea/Number.antt =====
-- `u8::from_str_radix`, `str::parse::<u8>` and the formats `{}` and `{:02X}` of Rust.
pub mod Tables
use openseafeed.Base.{
  ℕ, zero, suc, ◌+◌, ◌-◌, ◌*◌, ◌/◌, ◌%◌, ◌≤◌, ◌<◌, ◌≡◌, refl, arith, List, [], ◌∷◌, ◌++◌, Bytes,
  Bool, true, false, ◌==◌, ◌||◌, ◌&&◌, leb, ltb, if◌then◌else◌, Option, none, some, ◌>>=◌,
}

-- `char::to_digit`
unfoldable pub to_digit : (radix c : ℕ) → Option ℕ
to_digit radix c =
    let d =
      (if leb b'0' c && leb c b'9'
        then c - b'0'
        else if leb b'a' c && leb c b'z'
        then c - b'a' + 10
        else if leb b'A' c && leb c b'Z'
        then c - b'A' + 10
        else radix) in
    if ltb d radix then some d else none

-- The digits behind `acc`; an overflow of `u8` is an error.
unfoldable pub digits_u8 : (radix acc : ℕ) → Bytes → Option ℕ
digits_u8 radix acc [] = some acc
digits_u8 radix acc (c ∷ s) = do
  d ← to_digit radix c
  if ltb 255 (acc * radix + d) then none else digits_u8 radix (acc * radix + d) s

unfoldable pub parse_u8 : ℕ → Bytes → Option ℕ
parse_u8 radix [] = none
parse_u8 radix (c ∷ []) = if c == b'+' then none else digits_u8 radix 0 (c ∷ [])
parse_u8 radix (c ∷ d ∷ s) =
    if c == b'+' then digits_u8 radix 0 (d ∷ s) else digits_u8 radix 0 (c ∷ d ∷ s)

-- `{}` of an unsigned number: a round for each digit, and `n + 1` rounds are more than enough.
unfoldable pub decimal_loop : ℕ → ℕ → Bytes → Bytes
decimal_loop zero n out = out
decimal_loop (suc fuel) n out =
    let longer = decimal_loop fuel (n / 10) ((b'0' + n % 10) ∷ out) in
    if ltb n 10 then (b'0' + n) ∷ out else longer

unfoldable pub decimal : ℕ → Bytes
decimal n = decimal_loop (n + 1) n []

unfoldable pub hex_digit : ℕ → ℕ
hex_digit d = if ltb d 10 then b'0' + d else b'A' + (d - 10)

-- `{:02X}` of a `u8`
unfoldable pub hex_byte : ℕ → Bytes
hex_byte n = hex_digit (n / 16) ∷ hex_digit (n % 16) ∷ []
