-- ===== src/Nmea/Encode/RoundTrip.antt =====
-- `parse` on each line that `to_sentences` writes.
use openseafeed.Base.{
  ℕ, ◌≤◌, ◌<◌, ◌≡◌, refl, arith, [], ◌∷◌, ◌++◌, length, Bytes, codes, All, All-append, false, any,
  none, some, length-append,
}
use openseafeed.Nmea.Number.{decimal, parse_u8}
use openseafeed.Nmea.Number.Tables.{parse_u8-decimal}
use openseafeed.Nmea.Sentence.{
  Sentence, ok, split, strip_tag_block, parse_fill, parse_fields, is_bad_char, parse, ends_with,
}
use openseafeed.Nmea.Sentence.Pieces.{split-piece, split-last}
use openseafeed.Nmea.Sentence.Parse.{IsPayloadChar}
use openseafeed.Nmea.Encode.{sentence_body, sentence}
use openseafeed.Nmea.Encode.Line.{IsField, digits-IsField, payload-IsField, checked_body-sentence}

parse_fill_of_number : (s : Bytes) (n : ℕ) → parse_u8 10 s ≡ some n → parse_fill s ≡ ok n
unfolding parse_fill
parse_fill_of_number [] n h = unfold parse_u8 in cc
parse_fill_of_number (c ∷ s) n h = rw h refl

-- The sentence that a reader gets.
abbrev pub parsed : (total index fill : ℕ) → (seq channel chunk : Bytes) → Sentence
parsed total index fill seq channel chunk = record {
  raw = sentence (sentence_body total index seq channel chunk fill);
  tag_block = none;
  talker = codes "AI";
  kind = codes "VDM";
  fragments = total;
  fragment = index;
  seq_id = seq;
  channel = channel;
  payload = chunk;
  fill_bits = fill;
}

-- One sentence of a group, as `to_sentences` writes it.
module _ (total index fill : ℕ) (seq channel chunk : Bytes) (totals : total < 256)
    (first : 1 ≤ index) (within : index ≤ total) (fills : fill ≤ 5) (seqs : IsField seq)
    (channels : IsField channel) (chars : All IsPayloadChar chunk) where
  abbrev tail_fields : Bytes
  tail_fields =
      decimal total
      ++ (b','
          ∷ (decimal index
              ++ (b',' ∷ (seq ++ (b',' ∷ (channel ++ (b',' ∷ (chunk ++ (b',' ∷ decimal fill)))))))))

  body_split :
      split b',' (sentence_body total index seq channel chunk fill)
      ≡ codes "AIVDM" ∷ decimal total ∷ decimal index ∷ seq ∷ channel ∷ chunk ∷ decimal fill ∷ []
  unfolding sentence_body
  body_split =
      let (_, t) = parse_u8-decimal total totals in
      let (_, i) = parse_u8-decimal index (omega arith) in
      let (_, f) = parse_u8-decimal fill (omega arith) in
      rw (
        split-piece b',' (codes "AIVDM") tail_fields (omega arith),
        split-piece b',' (decimal total) _ (digits-IsField _ t).plain,
        split-piece b',' (decimal index) _ (digits-IsField _ i).plain,
        split-piece b',' seq _ seqs.plain,
        split-piece b',' channel _ channels.plain,
        split-piece b',' chunk _ (payload-IsField chunk chars).plain,
        split-last b',' (decimal fill) (digits-IsField _ f).plain,
      )

  abbrev whole_body : Bytes
  whole_body = sentence_body total index seq channel chunk fill

  body_bytes : All (λ c. c < 256) whole_body
  unfolding sentence_body
  body_bytes =
      let (_, t) = parse_u8-decimal total totals in
      let (_, i) = parse_u8-decimal index (omega arith) in
      let (_, f) = parse_u8-decimal fill (omega arith) in
      let comma : b',' < 256 = omega arith in
      let add = λ (s r : Bytes) (hs : All (λ c. c < 256) s) (hr : All (λ c. c < 256) r).
        All-append (λ c. c < 256) s (b',' ∷ r) hs (comma, hr) in
      add (codes "AIVDM") _ (omega arith) (
        add (decimal total) _ (digits-IsField _ t).bytes (
          add (decimal index) _ (digits-IsField _ i).bytes (
            add seq _ seqs.bytes (
              add channel _ channels.bytes
                (add chunk _ (payload-IsField chunk chars).bytes (digits-IsField _ f).bytes)))))

  body_long : 6 ≤ length whole_body
  unfolding sentence_body
  body_long = omega (arith, length-append (codes "AIVDM,") tail_fields)

  no_bad_char : (s : Bytes) → All IsPayloadChar s → any is_bad_char s ≡ false
  no_bad_char [] h = refl
  no_bad_char (c ∷ s) (hc, h) = rw hc (no_bad_char s h)

  fill_back : parse_fill (decimal fill) ≡ ok fill
  fill_back =
      let (back, _) = parse_u8-decimal fill (omega arith) in
      parse_fill_of_number (decimal fill) fill back

  fields_back :
      parse_fields
        (sentence whole_body)
        none
        (codes "AIVDM" ∷ decimal total ∷ decimal index ∷ seq ∷ channel ∷ chunk ∷ decimal fill ∷ [])
      ≡ ok (parsed total index fill seq channel chunk)
  unfolding parse_fields ends_with
  fields_back =
      let (t, _) = parse_u8-decimal total totals in
      let (i, _) = parse_u8-decimal index (omega arith) in
      rw (t, i, fill_back, no_bad_char chunk chars) (ground arith)

  -- A sentence that is written as `to_sentences` writes it, of a group of less than 256, with a number from 1 to that of
  -- the group, at most five fill bits, a payload of payload characters, and a sequence and a channel of single bytes without
  -- a comma, is parsed to the fields that it was written from.
  pub parse-sentence : parse (sentence whole_body) ≡ ok (parsed total index fill seq channel chunk)
  unfolding parse
  parse-sentence =
      let (trimmed, checked) = checked_body-sentence whole_body body_bytes body_long in
      let bare : strip_tag_block (sentence whole_body) ≡ ok (none, sentence whole_body) =
        unfold strip_tag_block sentence in refl in
      rw (trimmed, bare, checked, body_split) fields_back
