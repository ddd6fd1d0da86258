-- ===== src/Geo/Encode.antt =====
-- The loop of `encode`, a character at a time.
use openseafeed.Base.{
  any, ◌==◌, subst, ℕ, zero, suc, ◌+◌, ◌*◌, ◌<◌, ◌≡◌, refl, ap, sym, ◌∙◌, arith, Bool, true, false,
  not, ◌&&◌, ltb, lt→ltb, if◌then◌else◌, [], ◌∷◌, ◌++◌, length, length-append, get_or, append-nil,
  append_assoc, Bytes, All, All-append,
}
use openseafeed.Base.Octet.{same, same→eq, test_bit, every_below, every_below_at}
use openseafeed.Ais.Float.{Floats}
use openseafeed.Geo.{
  base32, BBox, Encoder, world, halve, is_upper, encode_step, encode_loop, encode,
}

abbrev bit : Bool → ℕ
bit b = if b then 1 else 0

-- The number of a character, from its five bits.
abbrev pub index : (s t u v w : Bool) → ℕ
index s t u v w = ((((0 * 2 + bit s) * 2 + bit t) * 2 + bit u) * 2 + bit v) * 2 + bit w

abbrev every_bool : (Bool → Bool) → Bool
every_bool p = p true && p false

every_bool_at : (p : Bool → Bool) (b : Bool) → every_bool p ≡ true → p b ≡ true
every_bool_at p true h = ground arith
every_bool_at p false h = ground arith

abbrev pub has_bits : (s t u v w : Bool) → Bool
has_bits s t u v w =
    same (test_bit (index s t u v w) 4) s
    && same (test_bit (index s t u v w) 3) t
    && same (test_bit (index s t u v w) 2) u
    && same (test_bit (index s t u v w) 1) v
    && same (test_bit (index s t u v w) 0) w
    && ltb (index s t u v w) 32

table :
    every_bool (λ s.
      every_bool (λ t. every_bool (λ u. every_bool (λ v. every_bool (λ w. has_bits s t u v w)))))
    ≡ true
unfolding test_bit
table = refl

pub has_bits_lem : (s t u v w : Bool) → has_bits s t u v w ≡ true
has_bits_lem s t u v w =
    every_bool_at (λ w. has_bits s t u v w) w
      (every_bool_at (λ v. every_bool (λ w. has_bits s t u v w)) v
        (every_bool_at (λ u. every_bool (λ v. every_bool (λ w. has_bits s t u v w))) u
          (every_bool_at
            (λ t. every_bool (λ u. every_bool (λ v. every_bool (λ w. has_bits s t u v w)))) t
            (every_bool_at
              (λ s.
                every_bool
                  (λ t. every_bool (λ u. every_bool (λ v. every_bool (λ w. has_bits s t u v w)))))
              s table))))

abbrev is_base32 : ℕ → Bool
is_base32 c = any (λ d. c == d) base32

abbrev pub IsBase32 : ℕ → Type 0
IsBase32 c = is_base32 c ≡ true

base32_table : every_below 32 (λ i. is_base32 (get_or base32 i 0)) ≡ true
unfolding every_below
base32_table = refl

pub index_bits :
    (s t u v w : Bool)
    → (test_bit (index s t u v w) 4 ≡ s)
      × (test_bit (index s t u v w) 3 ≡ t)
      × (test_bit (index s t u v w) 2 ≡ u)
      × (test_bit (index s t u v w) 1 ≡ v)
      × (test_bit (index s t u v w) 0 ≡ w)
index_bits s t u v w =
    let bits = has_bits_lem s t u v w in
    (
      same→eq _ s (ground (arith, bits)),
      same→eq _ t (ground (arith, bits)),
      same→eq _ u (ground (arith, bits)),
      same→eq _ v (ground (arith, bits)),
      same→eq _ w (ground (arith, bits)),
    )

pub index-lt : (s t u v w : Bool) → index s t u v w < 32
index-lt s t u v w = ground (arith, has_bits_lem s t u v w)

index-IsBase32 : (s t u v w : Bool) → IsBase32 (get_or base32 (index s t u v w) 0)
index-IsBase32 s t u v w =
    every_below_at 32 (λ i. is_base32 (get_or base32 i 0)) (index s t u v w) base32_table
      (index-lt s t u v w)

module _ (fl : Floats) (lat lon : fl.F) where
  open fl use {F}

  abbrev step : Encoder F → Encoder F
  step s = encode_step fl lat lon s

  -- The halves that the rounds of a character choose, and what is left of the bounds.
  abbrev pub narrow : Bool → BBox F → BBox F
  narrow even b = halve fl even (is_upper fl even b lat lon) b

  abbrev pub upper : ℕ → Bool → BBox F → Bool
  upper zero even b = is_upper fl even b lat lon
  upper (suc n) even b = upper n (not even) (narrow even b)

  abbrev pub narrowed : ℕ → Bool → BBox F → BBox F
  narrowed zero even b = b
  narrowed (suc n) even b = narrowed n (not even) (narrow even b)

  abbrev pub letter : Bool → BBox F → ℕ
  letter even b =
      get_or base32
        (index (upper 0 even b) (upper 1 even b) (upper 2 even b) (upper 3 even b) (upper 4 even b))
        0

  -- The state between two characters, and that after `n` of them.
  abbrev pub between : BBox F → Bool → Bytes → Encoder F
  between b even hash = record { bounds = b; even = even; bit = 0; ch = 0; hash = hash }

  abbrev pub even_at : ℕ → Bool
  even_at zero = true
  even_at (suc n) = not (not (not (not (not (even_at n)))))

  abbrev pub bounds_at : ℕ → BBox F
  bounds_at zero = world fl
  bounds_at (suc n) = narrowed 5 (even_at n) (bounds_at n)

  abbrev pub hash_at : ℕ → Bytes
  hash_at zero = []
  hash_at (suc n) = hash_at n ++ letter (even_at n) (bounds_at n) ∷ []

  loop_step :
      (fuel precision : ℕ) (s : Encoder F)
      → length s.hash < precision
      → encode_loop fl (suc fuel) lat lon precision s
        ≡ encode_loop fl fuel lat lon precision (step s)
  unfolding encode_loop
  loop_step fuel precision s h = rw (lt→ltb _ _ h) refl

  char_loop :
      (fuel precision : ℕ) (b : BBox F) (even : Bool) (hash : Bytes)
      → length hash < precision
      → encode_loop fl (suc (suc (suc (suc (suc fuel))))) lat lon precision (between b even hash)
        ≡ encode_loop fl fuel lat lon precision (
            between
              (narrowed 5 even b)
              (not (not (not (not (not even)))))
              (hash ++ letter even b ∷ []))
  unfolding encode_step
  char_loop fuel precision b even hash h =
      let s₀ = between b even hash in
      let s₁ = step s₀ in
      let s₂ = step s₁ in
      let s₃ = step s₂ in
      loop_step _ precision s₀ h
      ∙ loop_step _ precision s₁ h
      ∙ loop_step _ precision s₂ h
      ∙ loop_step _ precision s₃ h
      ∙ loop_step fuel precision (step s₃) h

  pub length-hash_at : (n : ℕ) → length (hash_at n) ≡ n
  length-hash_at zero = refl
  length-hash_at (suc n) = length-append (hash_at n) _ ∙ omega (arith, length-hash_at n)

  loop-hash_at :
      (rounds n : ℕ)
      → (encode_loop fl
          (5 * rounds)
          lat
          lon
          (n + rounds)
          (between (bounds_at n) (even_at n) (hash_at n))).hash
        ≡ hash_at (n + rounds)
  loop-hash_at zero n =
      let none_left : n + 0 ≡ n = omega arith in rw none_left (unfold encode_loop in refl)
  loop-hash_at (suc rounds) n =
      let fuel : 5 * suc rounds ≡ suc (suc (suc (suc (suc (5 * rounds))))) = omega arith in
      let one_less : n + suc rounds ≡ suc n + rounds = omega arith in
      rw (fuel, one_less)
        (ap (λ s. s.hash)
            (char_loop (5 * rounds) (suc n + rounds) (bounds_at n) (even_at n) (hash_at n)
              (omega (arith, length-hash_at n)))
          ∙ loop-hash_at rounds (suc n))

  pub encode-hash_at : (precision : ℕ) → encode fl lat lon precision ≡ hash_at precision
  unfolding encode
  encode-hash_at precision =
      let whole : 0 + precision ≡ precision = omega arith in
      subst
        (λ p.
          (encode_loop fl (5 * precision) lat lon p (between (world fl) true [])).hash ≡ hash_at p)
        whole (loop-hash_at precision 0)

  letter-IsBase32 : (even : Bool) (b : BBox F) → IsBase32 (letter even b)
  letter-IsBase32 even b =
      index-IsBase32 (upper 0 even b) (upper 1 even b) (upper 2 even b) (upper 3 even b)
        (upper 4 even b)

  hash_at-All : (n : ℕ) → All IsBase32 (hash_at n)
  hash_at-All zero = tt
  hash_at-All (suc n) =
      All-append IsBase32 (hash_at n) _ (hash_at-All n)
        (letter-IsBase32 (even_at n) (bounds_at n), tt)

  -- The geohash of a shorter precision is a prefix.
  pub hash_at-append :
      (m n : ℕ) → (rest : Bytes) × (hash_at (m + n) ≡ hash_at n ++ rest) × (length rest ≡ m)
  hash_at-append zero n =
      let whole : 0 + n ≡ n = omega arith in
      ([], ap hash_at whole ∙ sym (append-nil (hash_at n)), refl)
  hash_at-append (suc m) n =
      let (rest, same, long) = hash_at-append m n in
      let more : suc m + n ≡ suc (m + n) = omega arith in
      let last = letter (even_at (m + n)) (bounds_at (m + n)) ∷ [] in
      (
        rest ++ last,
        ap hash_at more ∙ ap (λ s. s ++ last) same ∙ append_assoc (hash_at n) rest last,
        length-append rest last ∙ omega (arith, long),
      )

  -- Whatever the position, the loop of encode ends with as many characters as were asked for, and each is
  -- one of the 32 of base32.
  pub length-encode :
      (precision : ℕ)
      → (length (encode fl lat lon precision) ≡ precision)
        × All IsBase32 (encode fl lat lon precision)
  length-encode precision =
      rw (encode-hash_at precision) (length-hash_at precision, hash_at-All precision)
