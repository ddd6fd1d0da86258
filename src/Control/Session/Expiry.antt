-- ===== src/Control/Session/Expiry.antt =====
-- What `verify` makes of a value of `issue`.
use openseafeed.Base.{
  ℕ, zero, suc, ◌+◌, ◌-◌, ◌*◌, ◌/◌, ◌%◌, ◌^◌, ◌≤◌, ◌<◌, ◌≡◌, refl, sym, ap, ◌∙◌, arith, [], ◌∷◌,
  ◌++◌, length, append_assoc, Bytes, bytes_eq, bytes_eq_iff, true, false, ◌==◌, ==_iff, ltb,
  if◌then◌else◌, Lacks, All, none, some, Bool-cases, inl, inr,
}
use openseafeed.Base.Int.{pos}
use openseafeed.Nmea.Number.{decimal, decimal_loop, to_digit}
use openseafeed.Control.Session.{
  Signer, cut, digits_below, some_digits, parse_i64, is_past, expiry_of, issue, three_parts,
  verify_parts, verify,
}

cut-append : (mark : ℕ) (s t : Bytes) → Lacks mark s → cut mark (s ++ mark ∷ t) ≡ some (s, t)
unfolding cut
cut-append mark [] t h = ground arith
cut-append mark (c ∷ s) t (other, h) = elim (Bool-cases (c == mark)) [
  | inl same ↦ absurd (other ((==_iff c mark).0 same))
  | inr no_mark ↦ rw (no_mark, cut-append mark s t h) refl
]

digits_below-digit :
    (limit acc d : ℕ) (s : Bytes)
    → d < 10
    → acc * 10 + d ≤ limit
    → digits_below limit acc ((b'0' + d) ∷ s) ≡ digits_below limit (acc * 10 + d) s
unfolding digits_below to_digit
digits_below-digit limit acc d s h few = ground arith

digits_below-decimal_loop :
    (limit fuel n : ℕ) (s : Bytes)
    → n < fuel
    → n ≤ limit
    → digits_below limit 0 (decimal_loop fuel n s) ≡ digits_below limit n s
unfolding decimal_loop
digits_below-decimal_loop limit zero n s h few = absurd (omega arith)
digits_below-decimal_loop limit (suc fuel) n s h few = elim (Bool-cases (ltb n 10)) [
  | inl one ↦
      let whole : 0 * 10 + n ≡ n = omega arith in
      rw (one, decimal_loop)
        (digits_below-digit limit 0 n s (ground arith) (omega arith)
          ∙ ap (λ v. digits_below limit v s) whole)
  | inr more ↦
      let whole : n / 10 * 10 + n % 10 ≡ n = omega arith in
      rw (more, decimal_loop)
        (digits_below-decimal_loop limit fuel (n / 10) ((b'0' + n % 10) ∷ s) (ground arith)
            (omega arith)
          ∙ digits_below-digit limit (n / 10) (n % 10) s (omega arith) (omega arith)
          ∙ ap (λ v. digits_below limit v s) whole)
]

abbrev IsDigit : ℕ → Type 0
IsDigit c = (b'0' ≤ c) × (c ≤ b'9')

decimal_loop-All :
    (fuel n : ℕ) (s : Bytes) → n < fuel → All IsDigit s → All IsDigit (decimal_loop fuel n s)
unfolding decimal_loop
decimal_loop-All zero n s h digits = digits
decimal_loop-All (suc fuel) n s h digits = elim (Bool-cases (ltb n 10)) [
  | inl one ↦ rw (one, decimal_loop) ((omega arith, ground arith), digits)
  | inr more ↦
      rw (more, decimal_loop)
        (decimal_loop-All fuel (n / 10) ((b'0' + n % 10) ∷ s) (ground arith)
          ((omega arith, omega arith), digits))
]

length-decimal_loop : (fuel n : ℕ) (s : Bytes) → length s ≤ length (decimal_loop fuel n s)
unfolding decimal_loop
length-decimal_loop zero n s = omega arith
length-decimal_loop (suc fuel) n s = elim (Bool-cases (ltb n 10)) [
  | inl one ↦ rw (one, decimal_loop) (omega arith)
  | inr more ↦
      rw (more, decimal_loop)
        (omega (arith, length-decimal_loop fuel (n / 10) ((b'0' + n % 10) ∷ s)))
]

length-decimal : (n : ℕ) → 1 ≤ length (decimal n)
unfolding decimal decimal_loop
length-decimal n =
    let fuel : n + 1 ≡ suc n = omega arith in
    elim (Bool-cases (ltb n 10)) [
      | inl one ↦ rw (fuel, one, decimal_loop) (omega arith)
      | inr more ↦
          rw (fuel, more, decimal_loop)
            (omega (arith, length-decimal_loop n (n / 10) ((b'0' + n % 10) ∷ [])))
    ]

parse_i64-digits :
    (n : ℕ) (t : Bytes)
    → All IsDigit t
    → 1 ≤ length t
    → digits_below (2 ^ 63 - 1) 0 t ≡ some n
    → parse_i64 t ≡ some (pos n)
unfolding parse_i64 some_digits
parse_i64-digits n [] digits some_digit h = absurd (omega arith)
parse_i64-digits n (c ∷ t) ((low, high), digits) some_digit h =
    let no_minus : (c == b'-') ≡ false = ground arith in
    let no_plus : (c == b'+') ≡ false = ground arith in rw (no_minus, no_plus, h, parse_i64) refl

parse_i64-decimal : (n : ℕ) → n < 2 ^ 63 → parse_i64 (decimal n) ≡ some (pos n)
unfolding decimal
parse_i64-decimal n small =
    parse_i64-digits n (decimal n) (decimal_loop-All (n + 1) n [] (omega arith) tt)
      (length-decimal n)
      (digits_below-decimal_loop (2 ^ 63 - 1) (n + 1) n [] (omega arith) (omega arith)
        ∙ unfold digits_below in refl)

digits-Lacks : (t : Bytes) → All IsDigit t → Lacks b'|' t
digits-Lacks [] h = tt
digits-Lacks (c ∷ t) ((low, high), h) = (λ e. absurd (omega arith), digits-Lacks t h)

three_parts-issue :
    (signer : Signer) (now : ℕ) (secret user_id : Bytes)
    → Lacks b'|' user_id
    → three_parts (issue signer now secret user_id)
      ≡ some (
        user_id,
        decimal (expiry_of now),
        signer.hex_encode (signer.mac secret (user_id ++ b'|' ∷ decimal (expiry_of now))),
      )
unfolding issue three_parts
three_parts-issue signer now secret user_id plain =
    let n = expiry_of now in
    let expiry = decimal n in
    let sig = signer.hex_encode (signer.mac secret (user_id ++ b'|' ∷ expiry)) in
    let digits : Lacks b'|' expiry =
      digits-Lacks expiry (unfold decimal in decimal_loop-All (n + 1) n [] (omega arith) tt) in
    rw
      (
        append_assoc user_id (b'|' ∷ expiry) (b'|' ∷ sig),
        cut-append b'|' user_id (expiry ++ b'|' ∷ sig) plain,
        cut-append b'|' expiry sig digits,
      )
      refl

verify_parts-issue :
    (signer : Signer) (n later : ℕ) (secret user_id mac : Bytes)
    → signer.hex_decode (signer.hex_encode mac) ≡ some mac
    → mac ≡ signer.mac secret (user_id ++ b'|' ∷ decimal n)
    → n < 2 ^ 63
    → verify_parts signer later secret (user_id, decimal n, signer.hex_encode mac)
      ≡ (if ltb n later then none else some user_id)
unfolding verify_parts is_past
verify_parts-issue signer n later secret user_id mac back same small =
    let good : bytes_eq (signer.mac secret (user_id ++ b'|' ∷ decimal n)) mac ≡ true =
      (bytes_eq_iff _ mac).1 (sym same) in
    rw (back, good, parse_i64-decimal n small) refl

-- A value that was issued for a user id without `|` gives the user id back under the same secret until the
-- 30 days are over, and nothing after them, when the digits of a hash can be read back and the end fits an i64.
pub verify-issue :
    (signer : Signer) (now later : ℕ) (secret user_id : Bytes)
    → ((b : Bytes) → signer.hex_decode (signer.hex_encode b) ≡ some b)
    → Lacks b'|' user_id
    → expiry_of now < 2 ^ 63
    → verify signer later secret (issue signer now secret user_id)
      ≡ (if ltb (expiry_of now) later then none else some user_id)
unfolding verify
verify-issue signer now later secret user_id back plain small =
    rw (three_parts-issue signer now secret user_id plain)
      (verify_parts-issue signer (expiry_of now) later secret user_id _ (back _) refl small)
