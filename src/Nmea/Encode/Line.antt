-- ===== src/Nmea/Encode/Line.antt =====
-- The frame of a line that `to_sentences` writes: trimming, checksum and fields.
use openseafeed.Base.{
  ℕ, suc, ◌+◌, ◌-◌, ◌/◌, ◌%◌, ◌≤◌, ◌<◌, ◌≡◌, refl, arith, [], ◌∷◌, ◌++◌, length, take, drop, Bytes,
  Lacks, All, some, length-append, take-append_of_length,
}
use openseafeed.Base.Trim.{trim, is_char_boundary, trim_graphic, drop_front}
use openseafeed.Nmea.Number.{hex_byte, hex_digit}
use openseafeed.Nmea.Number.Tables.{IsDigit, parse_u8-hex_byte}
use openseafeed.Nmea.Sentence.{ok, rfind, xor_fold, checksum_field, checked_body, is_bad_char}
use openseafeed.Nmea.Sentence.Pieces.{rfind-last, xor_fold-lt}
use openseafeed.Nmea.Sentence.Parse.{IsPayloadChar}
use openseafeed.Nmea.Encode.{sentence}

-- A channel name that fits between two commas.
pub record IsField (s : Bytes) : Type 0 where
  pub bytes : All (λ c. c < 256) s
  pub plain : Lacks b',' s

pub digits-IsField : (s : Bytes) → All IsDigit s → IsField s
digits-IsField s h = record { bytes = small s h; plain = plain s h }
  where
    small : (s : Bytes) → All IsDigit s → All (λ c. c < 256) s
    small [] h = tt
    small (c ∷ s) (hc, h) = (omega arith, small s h)

    plain : (s : Bytes) → All IsDigit s → Lacks b',' s
    plain [] h = tt
    plain (c ∷ s) (hc, h) = (omega arith, plain s h)

pub payload-IsField : (s : Bytes) → All IsPayloadChar s → IsField s
payload-IsField s h = record { bytes = small s h; plain = plain s h }
  where
    small : (s : Bytes) → All IsPayloadChar s → All (λ c. c < 256) s
    small [] h = tt
    small (c ∷ s) (hc, h) = (unfold is_bad_char in ground arith, small s h)

    plain : (s : Bytes) → All IsPayloadChar s → Lacks b',' s
    plain [] h = tt
    plain (c ∷ s) (hc, h) = (unfold is_bad_char in ground arith, plain s h)

module _ (body : Bytes) (bytes : All (λ c. c < 256) body) (long : 6 ≤ length body) where
  sum : ℕ
  sum = xor_fold 0 body

  sum-lt : sum < 256
  unfolding sum
  sum-lt = xor_fold-lt body 0 bytes (omega arith)

  abbrev line : Bytes
  line = b'!' ∷ (body ++ b'*' ∷ hex_digit (sum / 16) ∷ hex_digit (sum % 16) ∷ [])

  line_is_trimmed : trim line ≡ line
  line_is_trimmed =
      let (_, h1, h2) = parse_u8-hex_byte sum sum-lt in
      trim_graphic b'!' body b'*' (hex_digit (sum / 16)) (hex_digit (sum % 16)) (omega arith)
        (omega arith) (omega arith) (omega arith)

  length-line : length line ≡ length body + 4
  length-line =
      omega (arith, length-append body (b'*' ∷ hex_digit (sum / 16) ∷ hex_digit (sum % 16) ∷ []))

  star_place : rfind b'*' line ≡ some (suc (length body))
  star_place =
      let (_, h1, h2) = parse_u8-hex_byte sum sum-lt in
      rfind-last b'*' (b'!' ∷ body) (hex_digit (sum / 16) ∷ hex_digit (sum % 16) ∷ [])
        (omega arith, (omega arith, tt))

  checksum_place : checksum_field line (suc (length body)) ≡ ok (hex_byte sum)
  unfolding checksum_field is_char_boundary hex_byte
  checksum_place =
      let behind : drop (suc (length body) + 1) line
          ≡ hex_digit (sum / 16) ∷ hex_digit (sum % 16) ∷ [] =
        drop_front (b'!' ∷ body) (b'*' ∷ []) (hex_digit (sum / 16) ∷ hex_digit (sum % 16) ∷ []) _
          (omega (arith, length-append body (b'*' ∷ []))) in
      rw behind (ground (arith, length-line))

  checked_line : checked_body line ≡ ok body
  unfolding checked_body
  checked_line =
      let (want, _, _) = parse_u8-hex_byte sum sum-lt in
      let middle : take (suc (length body) - 1) (drop 1 line) ≡ body =
        take-append_of_length (suc (length body) - 1) body _ (omega arith) in
      let same : xor_fold 0 body ≡ sum = unfold sum in refl in
      rw (star_place, checksum_place, want, middle, same) (ground (arith, length-line))

-- A line that `sentence` writes is trimmed, carries its checksum, and gives its body back.
pub checked_body-sentence :
    (body : Bytes)
    → All (λ c. c < 256) body
    → 6 ≤ length body
    → (trim (sentence body) ≡ sentence body) × (checked_body (sentence body) ≡ ok body)
unfolding sentence hex_byte sum
checked_body-sentence body bytes long =
    (line_is_trimmed body bytes long, checked_line body bytes long)
