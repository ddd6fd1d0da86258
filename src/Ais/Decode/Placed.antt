-- ===== src/Ais/Decode/Placed.antt =====
-- The positions of decoded messages are on the globe.
use openseafeed.Base.{
  ℕ, ◌≡◌, arith, Bool, true, false, if◌then◌else◌, Bool-cases, inl, inr, Bytes, Option, none, some,
  ltb,
}
use openseafeed.Base.Result.{Result, ok, Succeeds, Succeeds-chain, Succeeds-any}
use openseafeed.Ais.Bits.{Bits, DecodeError, from_payload, len}
use openseafeed.Ais.Float.{Floats}
use openseafeed.Ais.Fields.{in_range, valid_position, need, decode_header}
use openseafeed.Ais.Types.{Header, Message}
use openseafeed.Ais.Decode.{
  Body, position_arm, base_station_arm, static_arm, sar_arm, class_b_arm, extended_class_b_arm,
  aids_arm, static_report_arm, long_range_arm, decode_body, decode_bits, decode,
}
use openseafeed.Geo.{contains, world}

module _ (fl : Floats) where
  open fl use {F}

  -- A position of the globe, if any.
  abbrev pub IsPlaced : Option (F × F) → Type 0
  IsPlaced none = Unit
  IsPlaced (some (lat, lon)) = contains fl (world fl) lat lon ≡ true

  valid_position-IsPlaced : (lat lon : F) → IsPlaced (valid_position fl lat lon)
  unfolding valid_position contains in_range
  valid_position-IsPlaced lat lon = ground arith

  record HasPlace (r : Result DecodeError (Body fl)) : Type 0 where
    placed : Succeeds (λ body. IsPlaced body.position) r

  either :
      (b : Bool) {x y : Result DecodeError (Body fl)}
      → HasPlace x
      → HasPlace y
      → HasPlace (if b then x else y)
  either true hx hy = hx
  either false hx hy = hy

  need-Succeeds :
      {A : Type 0} (P : A → Type 0) (bs : Bits) (n : ℕ) (rest : Result DecodeError A)
      → Succeeds P rest
      → Succeeds P (need bs n rest)
  unfolding need
  need-Succeeds P bs n rest h = elim (Bool-cases (ltb (len bs) n)) [
    | inl short ↦ rw short tt
    | inr long ↦ rw long h
  ]

  needed :
      (bs : Bits) (n : ℕ) {rest : Result DecodeError (Body fl)}
      → HasPlace rest
      → HasPlace (need bs n rest)
  needed bs n {rest} h = record { placed = need-Succeeds _ bs n rest h.placed }

  arm :
      (bs : Bits) (n : ℕ) (body : Body fl) → IsPlaced body.position → HasPlace (need bs n (ok body))
  arm bs n body h = needed bs n (record { placed = h })

  nothing : (body : Body fl) → IsPlaced body.position → HasPlace (ok body)
  nothing body h = record { placed = h }

  static_report_arm-HasPlace : (bs : Bits) (h : Header) → HasPlace (static_report_arm fl bs h)
  unfolding static_report_arm
  static_report_arm-HasPlace bs h =
      either _ (nothing _ tt) (either _ (arm bs 168 _ tt) (nothing _ tt))

  decode_body-HasPlace : (id : ℕ) (bs : Bits) (h : Header) → HasPlace (decode_body fl id bs h)
  unfolding decode_body position_arm base_station_arm static_arm sar_arm class_b_arm
      extended_class_b_arm aids_arm long_range_arm
  decode_body-HasPlace id bs h =
      either _ (arm bs 168 (position_arm fl bs h) (valid_position-IsPlaced _ _)) (
        either _ (arm bs 168 (base_station_arm fl bs h) (valid_position-IsPlaced _ _)) (
          either _ (arm bs 420 (static_arm fl bs h) tt) (
            either _ (arm bs 168 (sar_arm fl bs h) (valid_position-IsPlaced _ _)) (
              either _ (arm bs 168 (class_b_arm fl bs h) (valid_position-IsPlaced _ _)) (
                either _ (arm bs 312 (extended_class_b_arm fl bs h) (valid_position-IsPlaced _ _)) (
                  either _ (arm bs 272 (aids_arm fl bs h) (valid_position-IsPlaced _ _)) (
                    either _ (needed bs 160 (static_report_arm-HasPlace bs h)) (
                      either _ (arm bs 96 (long_range_arm fl bs h) (valid_position-IsPlaced _ _))
                        (nothing _ tt)))))))))

  -- A decoded message has a position of the globe, or none.
  pub decode-IsPlaced :
      (payload : Bytes) (fill_bits : ℕ)
      → Succeeds (λ (m : Message F). IsPlaced m.position) (decode fl payload fill_bits)
  unfolding decode decode_bits
  decode-IsPlaced payload fill_bits =
      Succeeds-chain (λ _. Unit) _ (from_payload payload fill_bits) _ (Succeeds-any _)
        (λ bs _. need-Succeeds _ bs 38 _ (
          Succeeds-chain (λ (body : Body fl). IsPlaced body.position) _ _ _
            (decode_body-HasPlace (decode_header bs).message_id bs (decode_header bs)).placed
            (λ body h. h)))
