-- ===== src/Feed/Subjects.antt =====
-- The tokens and patterns of the subjects.
use openseafeed.Base.{
  ℕ, ◌≤◌, ◌≡◌, refl, ap, sym, ◌∙◌, arith, [], ◌∷◌, ◌++◌, length, Bytes, codes, true, false, All,
  append_assoc, ltb, if◌then◌else◌, Bool-cases, inl, inr,
}
use openseafeed.Feed.{
  is_continuation, is_ascii_alphanumeric, is_token_char, token_chars, sanitize_token, dotted,
  decoded, decoded_pattern,
}

abbrev pub IsTokenChar : ℕ → Type 0
IsTokenChar c = is_token_char c ≡ true

token_chars-All : (s : Bytes) → All IsTokenChar (token_chars s)
unfolding token_chars
token_chars-All [] = tt
token_chars-All (c ∷ s) = elim (Bool-cases (is_continuation c)) [
  | inl more ↦ rw more (token_chars-All s)
  | inr one ↦ rw one (elim (Bool-cases (is_token_char c)) [
    | inl good ↦ rw good (good, token_chars-All s)
    | inr bad ↦ rw bad (unfold is_token_char is_ascii_alphanumeric in refl, token_chars-All s)
  ])
]

token_char_alone : (c : ℕ) → IsTokenChar c → is_continuation c ≡ false
unfolding is_token_char is_ascii_alphanumeric is_continuation
token_char_alone c h = ground arith

token_chars_kept : (s : Bytes) → All IsTokenChar s → token_chars s ≡ s
unfolding token_chars
token_chars_kept [] h = refl
token_chars_kept (c ∷ s) (good, h) =
    rw (token_char_alone c good, good) (ap (◌∷◌ c) (token_chars_kept s h))

sanitize_kept : (c : ℕ) (s : Bytes) → All IsTokenChar (c ∷ s) → sanitize_token (c ∷ s) ≡ c ∷ s
unfolding sanitize_token
sanitize_kept c s h = rw (sanitize_token, token_chars_kept (c ∷ s) h) refl

-- A sanitized text is a token: letters, digits, `-` and `_`, one at least; and a token stays as it is.
pub sanitize_token-All :
    (text : Bytes)
    → All IsTokenChar (sanitize_token text)
      × (1 ≤ length (sanitize_token text))
      × (sanitize_token (sanitize_token text) ≡ sanitize_token text)
sanitize_token-All text =
    unfold sanitize_token in of_chars (token_chars text) (token_chars-All text)
  where
    of_chars :
        (t : Bytes)
        → All IsTokenChar t
        → All IsTokenChar (elim t as (λ _. Bytes) [ [] ↦ b'_' ∷ [] | c ∷ s ↦ c ∷ s ])
          × (1 ≤ length (elim t as (λ _. Bytes) [ [] ↦ b'_' ∷ [] | c ∷ s ↦ c ∷ s ]))
          × (sanitize_token (elim t as (λ _. Bytes) [ [] ↦ b'_' ∷ [] | c ∷ s ↦ c ∷ s ])
              ≡ elim t as (λ _. Bytes) [ [] ↦ b'_' ∷ [] | c ∷ s ↦ c ∷ s ])
    of_chars [] h =
        let low : IsTokenChar b'_' = unfold is_token_char is_ascii_alphanumeric in refl in
        ((low, tt), omega arith, sanitize_kept b'_' [] (low, tt))
    of_chars (c ∷ s) h = (h, omega arith, sanitize_kept c s h)

dotted-append : (s t : Bytes) → dotted (s ++ t) ≡ dotted s ++ dotted t
unfolding dotted
dotted-append [] t = refl
dotted-append (c ∷ s) t = elim (Bool-cases (is_continuation c)) [
  | inl more ↦ rw more (ap (◌∷◌ c) (dotted-append s t))
  | inr one ↦ rw one (ap (λ r. b'.' ∷ c ∷ r) (dotted-append s t))
]

-- The subject of a cell begins with the tokens of each prefix of the cell, and goes on with the others;
-- the pattern of the prefix is those tokens, and a last `>` when the prefix has fewer than four bytes.
pub decoded-decoded_pattern :
    (c : ℕ) (prefix rest : Bytes)
    → (stem : Bytes) × (decoded (c ∷ prefix ++ rest) ≡ stem ++ dotted rest)
      × (decoded_pattern (c ∷ prefix)
          ≡ stem ++ (if ltb (length (c ∷ prefix)) 4 then codes ".>" else []))
unfolding decoded decoded_pattern
decoded-decoded_pattern c prefix rest =
    let start = codes "ais.decoded" in
    (
      start ++ dotted (c ∷ prefix),
      ap (◌++◌ start) (dotted-append (c ∷ prefix) rest)
          ∙ sym (append_assoc start (dotted (c ∷ prefix)) (dotted rest)),
      sym (append_assoc start (dotted (c ∷ prefix)) _),
    )
