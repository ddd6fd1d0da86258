-- ===== src/Ais/Fields.antt =====
-- crates/ais/src/decode.rs: the casts of the bit fields (`as u8`, `as u16`, `as u32`, `as i16`), written
-- out, and the helpers that the decoders of the messages share.
use openseafeed.Base.{
  ℕ, ◌+◌, ◌-◌, ◌%◌, ◌^◌, Bool, true, ◌||◌, ◌&&◌, not, ltb, if◌then◌else◌, Bytes, [], ◌∷◌, Option,
  none, some,
}
use openseafeed.Base.Int.{ℤ, pos, negsuc}
use openseafeed.Base.Result.{Result, err}
use openseafeed.Ais.Bits.{Bits, DecodeError, too_short, len, uint}
use openseafeed.Ais.Float.{Floats}
use openseafeed.Ais.Types.{Header, Dimension}

abbrev pub u8 : ℕ → ℕ
u8 v = v % 2 ^ 8

abbrev pub u16 : ℕ → ℕ
u16 v = v % 2 ^ 16

abbrev pub u32 : ℕ → ℕ
u32 v = v % 2 ^ 32

-- `v as i16`
unfoldable pub as_i16 : ℤ → ℤ
as_i16 (pos n) = let r = n % 2 ^ 16 in if ltb r (2 ^ 15) then pos r else negsuc (2 ^ 16 - 1 - r)
as_i16 (negsuc n) = let r = n % 2 ^ 16 in if ltb r (2 ^ 15) then negsuc r else pos (2 ^ 16 - 1 - r)

-- `need(n)?`, with the rest of the arm.
unfoldable pub need {ℓ} : {A : Type ℓ} → Bits → ℕ → Result DecodeError A → Result DecodeError A
need bs n rest = if ltb (len bs) n then err (too_short (len bs) n) else rest

unfoldable pub dimension : Bits → ℕ → Dimension
dimension bs start = record {
  a = u16 (uint bs start 9);
  b = u16 (uint bs (start + 9) 9);
  c = u8 (uint bs (start + 18) 6);
  d = u8 (uint bs (start + 24) 6);
}

unfoldable pub non_empty : Bytes → Option Bytes
non_empty [] = none
non_empty (c ∷ s) = some (c ∷ s)

unfoldable pub decode_header : Bits → Header
decode_header bs = record {
  message_id = u8 (uint bs 0 6);
  repeat_indicator = u8 (uint bs 6 2);
  user_id = u32 (uint bs 8 30);
  valid = true;
}

module _ (fl : Floats) where
  open fl use {F, of_int, mul, div}

  unfoldable pub minutes_to_deg : ℤ → ℕ → F
  minutes_to_deg raw scale = div (of_int raw) (mul (of_int (pos 60)) (of_int (pos scale)))

  unfoldable pub in_range : F → ℕ → Bool
  in_range x bound = fl.leb (of_int (negsuc (bound - 1))) x && fl.leb x (of_int (pos bound))

  unfoldable pub valid_position : F → F → Option (F × F)
  valid_position lat lon =
      if fl.eqb lat (of_int (pos 91))
        || fl.eqb lon (of_int (pos 181))
        || not (in_range lat 90)
        || not (in_range lon 180)
      then none
      else some (lat, lon)
