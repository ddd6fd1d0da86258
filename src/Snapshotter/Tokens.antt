-- ===== src/Snapshotter/Tokens.antt =====
-- `internal_token_ok` against the plain comparison.
use openseafeed.Base.{
  ℕ, ◌<◌, ◌≡◌, refl, sym, arith, ap, suc, ◌∙◌, [], ◌∷◌, length, Bytes, bytes_eq, Bool, true, false,
  ◌==◌, ◌&&◌, All, Option, bit_or, bit_xor, Bool-cases, inl, inr,
}
use openseafeed.Base.Tokens.{bit_or-eq_zero, bit_or-lt, bit_xor-eq_zero, bit_xor-lt}
use openseafeed.Snapshotter.Serve.{differences, internal_token_ok, or_empty}

abbrev pub IsByte : ℕ → Type 0
IsByte b = b < 256

differences-bytes_eq :
    (acc : ℕ) (s t : Bytes)
    → IsByte acc
    → All IsByte s
    → All IsByte t
    → length s ≡ length t
    → (differences acc s t == 0) ≡ (acc == 0 && bytes_eq s t)
unfolding differences
differences-bytes_eq acc [] [] ha hs ht same = ground arith
differences-bytes_eq acc [] (b ∷ t) ha hs ht same = absurd (omega arith)
differences-bytes_eq acc (a ∷ s) [] ha hs ht same = absurd (omega arith)
differences-bytes_eq acc (a ∷ s) (b ∷ t) ha (hb, hs) (hc, ht) same =
    let low = bit_xor-lt a b hb hc in
    let rest =
      differences-bytes_eq (bit_or acc (bit_xor a b)) s t (bit_or-lt acc (bit_xor a b) ha low) hs ht
        (omega arith) in
    let zero = bit_or-eq_zero acc (bit_xor a b) ha low in
    let same = bit_xor-eq_zero a b hb hc in
    rest ∙ rw (zero, same) (and_assoc (acc == 0) (a == b) (bytes_eq s t))
  where
    and_assoc : (x y z : Bool) → ((x && y) && z) ≡ (x && (y && z))
    and_assoc true y z = refl
    and_assoc false y z = refl

bytes_eq-length : (s t : Bytes) → bytes_eq s t ≡ true → length s ≡ length t
bytes_eq-length [] [] h = refl
bytes_eq-length [] (b ∷ t) h = cc
bytes_eq-length (a ∷ s) [] h = cc
bytes_eq-length (a ∷ s) (b ∷ t) h = ap suc (bytes_eq-length s t (ground arith))

bytes_eq_other : (s t : Bytes) → (length s == length t) ≡ false → bytes_eq s t ≡ false
bytes_eq_other s t h = elim (Bool-cases (bytes_eq s t)) [
  | inl same ↦ absurd (ground (arith, bytes_eq-length s t same))
  | inr other ↦ other
]

-- A request passes exactly when the text of its header, or none, is the token that is expected: the comparison that
-- looks at every byte is that of the texts.
pub internal_token_ok-bytes_eq :
    (expected : Bytes) (header : Option Bytes)
    → All IsByte expected
    → All IsByte (or_empty header)
    → internal_token_ok expected header ≡ bytes_eq (or_empty header) expected
unfolding internal_token_ok
internal_token_ok-bytes_eq expected header he hh =
    let provided = or_empty header in
    elim (Bool-cases (length provided == length expected)) [
      | inl same ↦
          rw same (differences-bytes_eq 0 provided expected (omega arith) hh he (ground arith))
      | inr other ↦ rw other (sym (bytes_eq_other provided expected other))
    ]
