-- ===== src/Nmea/Number/Tables.antt =====
-- What `decimal` and `hex_byte` write for a `u8`, checked over all of them.
use openseafeed.Base.{
  ℕ, ◌≤◌, ◌<◌, ◌/◌, ◌%◌, ◌≡◌, refl, arith, [], ◌∷◌, Bytes, Bool, true, false, ◌==◌, ◌&&◌, leb,
  Option, none, some, all, All,
}
use openseafeed.Base.Octet.{every_below, every_below_at}
use openseafeed.Nmea.Number.{
  to_digit, digits_u8, parse_u8, decimal_loop, decimal, hex_digit, hex_byte,
}

abbrev is_some_of : Option ℕ → ℕ → Bool
is_some_of none n = false
is_some_of (some m) n = m == n

is_some_of→eq : (o : Option ℕ) (n : ℕ) → is_some_of o n ≡ true → o ≡ some n
is_some_of→eq none n h = cc
is_some_of→eq (some m) n h = ground arith

abbrev pub IsDigit : ℕ → Type 0
IsDigit c = (b'0' ≤ c) × (c ≤ b'9')

abbrev is_digit : ℕ → Bool
is_digit c = leb b'0' c && leb c b'9'

all-is_digit : (s : Bytes) → all is_digit s ≡ true → All IsDigit s
all-is_digit [] h = tt
all-is_digit (c ∷ s) h = (ground arith, all-is_digit s (ground arith))

decimal_table :
    every_below 256 (λ n. is_some_of (parse_u8 10 (decimal n)) n && all is_digit (decimal n)) ≡ true
unfolding every_below parse_u8 digits_u8 to_digit decimal decimal_loop
decimal_table = refl

-- A `u8` is printed in digits, and parsed back from them.
pub parse_u8-decimal :
    (n : ℕ) → n < 256 → (parse_u8 10 (decimal n) ≡ some n) × All IsDigit (decimal n)
parse_u8-decimal n h =
    let row =
      every_below_at 256 (λ n. is_some_of (parse_u8 10 (decimal n)) n && all is_digit (decimal n)) n
        decimal_table h in
    (is_some_of→eq _ n (ground arith), all-is_digit _ (ground arith))

abbrev is_hex : ℕ → Bool
is_hex c = leb b'0' c && leb c b'F'

hex_table :
    every_below 256 (λ n. is_some_of (parse_u8 16 (hex_byte n)) n && all is_hex (hex_byte n)) ≡ true
unfolding every_below parse_u8 digits_u8 to_digit hex_byte hex_digit
hex_table = refl

abbrev pub IsHex : ℕ → Type 0
IsHex c = (b'0' ≤ c) × (c ≤ b'F')

pub parse_u8-hex_byte :
    (n : ℕ)
    → n < 256
    → (parse_u8 16 (hex_byte n) ≡ some n) × IsHex (hex_digit (n / 16)) × IsHex (hex_digit (n % 16))
unfolding hex_byte
parse_u8-hex_byte n h =
    let row =
      every_below_at 256 (λ n. is_some_of (parse_u8 16 (hex_byte n)) n && all is_hex (hex_byte n)) n
        hex_table h in
    (is_some_of→eq _ n (ground arith), ground arith, ground arith)
