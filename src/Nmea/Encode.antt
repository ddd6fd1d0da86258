-- ===== src/Nmea/Encode.antt =====
-- crates/nmea/src/encode.rs: `to_sentences`.
pub mod Line
pub mod Chunks
pub mod RoundTrip
use openseafeed.Base.{
  ℕ, zero, suc, ◌+◌, ◌%◌, List, [], ◌∷◌, ◌++◌, length, take, drop, Bytes, codes, Bool, ◌==◌,
  if◌then◌else◌,
}
use openseafeed.Nmea.Number.{decimal, hex_byte}
use openseafeed.Nmea.Sentence.{xor_fold}

abbrev pub max_payload_chars : ℕ
max_payload_chars = 60

-- `chunks(60)`: a round takes a character at least, so the length is enough fuel.
unfoldable pub chunks_loop : ℕ → Bytes → List Bytes
chunks_loop zero s = []
chunks_loop (suc fuel) [] = []
chunks_loop (suc fuel) (c ∷ s) =
    take max_payload_chars (c ∷ s) ∷ chunks_loop fuel (drop max_payload_chars (c ∷ s))

unfoldable pub chunks : Bytes → List Bytes
chunks [] = [] ∷ []
chunks (c ∷ s) = chunks_loop (length (c ∷ s)) (c ∷ s)

unfoldable pub sentence_body : (total index : ℕ) → (seq channel chunk : Bytes) → ℕ → Bytes
sentence_body total index seq channel chunk fill =
    codes "AIVDM,"
    ++ (decimal total
        ++ (b','
            ∷ (decimal index
                ++ (b','
                    ∷ (seq ++ (b',' ∷ (channel ++ (b',' ∷ (chunk ++ (b',' ∷ decimal fill))))))))))

unfoldable pub sentence : Bytes → Bytes
sentence body = b'!' ∷ (body ++ b'*' ∷ hex_byte (xor_fold 0 body))

-- `enumerate().map(…)` from index `i` on.
unfoldable pub sentences_from : (i total : ℕ) → (seq channel : Bytes) → ℕ → List Bytes → List Bytes
sentences_from i total seq channel fill_bits [] = []
sentences_from i total seq channel fill_bits (chunk ∷ rest) =
    sentence
      (sentence_body total (i + 1) seq channel chunk (if i + 1 == total then fill_bits else 0))
    ∷ sentences_from (suc i) total seq channel fill_bits rest

unfoldable pub to_sentences : Bytes → ℕ → Bytes → ℕ → List Bytes
to_sentences payload fill_bits channel seq =
    let parts = chunks payload in
    let total = length parts in
    let seq_field : Bytes = (if total == 1 then [] else decimal (seq % 10)) in
    sentences_from 0 total seq_field channel fill_bits parts
