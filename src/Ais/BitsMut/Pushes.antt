-- ===== src/Ais/BitsMut/Pushes.antt =====
-- What the pushes append, as lists of bits.
use openseafeed.Base.{
  ℕ, zero, suc, ◌+◌, ◌*◌, ◌/◌, ◌%◌, ◌^◌, ◌≡◌, refl, sym, subst, arith, List, [], ◌∷◌, ◌++◌, length,
  Bytes, Bool, ◌==◌, if◌then◌else◌, append_assoc, append-nil, length-append, Bool-cases, inl, inr,
}
use openseafeed.Ais.Bits.{set_at}
use openseafeed.Ais.Bits.Reads.{Holds, Holds-append_zero, write_bit, length-set_at, bit_at-nil}
use openseafeed.Ais.BitList.{to_bits, length-to_bits}
use openseafeed.Ais.BitsMut.{BitsMut, new, grow, push_bit, push_uint, push_chars, six_bit}

-- The accumulator holds the bits `l`, in as few bytes as they need.
pub record IsBits (m : BitsMut) (l : List Bool) : Type 0 where
  pub holds : Holds m.b l
  pub count : m.n ≡ length l
  pub size : length m.b ≡ (m.n + 7) / 8

pub new-IsBits : IsBits new []
new-IsBits = record { holds = record { bits = bit_at-nil; octets = tt }; count = refl; size = refl }

grow-Holds : (m : BitsMut) (l : List Bool) → IsBits m l → Holds (grow m) l
unfolding grow
grow-Holds m l h = elim (Bool-cases (m.n % 8 == 0)) [
  | inl e ↦ rw e (Holds-append_zero m.b l h.holds)
  | inr e ↦ rw e h.holds
]

length-grow : (m : BitsMut) (l : List Bool) → IsBits m l → length (grow m) ≡ m.n / 8 + 1
unfolding grow
length-grow m l h = ground (arith, h.size, length-append m.b (0 ∷ []))

push_bit-IsBits :
    (m : BitsMut) (l : List Bool) (x : Bool) → IsBits m l → IsBits (push_bit m x) (l ++ x ∷ [])
unfolding push_bit
push_bit-IsBits m l x h = record {
  holds =
      subst (λ k. Holds (if x then set_at (grow m) k else grow m) (l ++ x ∷ [])) (sym h.count)
        (write_bit (grow m) l x (grow-Holds m l h) (omega (arith, length-grow m l h, h.count)));
  count = rw (length-append l (x ∷ []), h.count);
  size = ground (arith, length-grow m l h, length-set_at (grow m) m.n);
}

-- `push_uint` appends the low bits of its argument.
pub push_uint-IsBits :
    (m : BitsMut) (l : List Bool) (v k : ℕ)
    → IsBits m l
    → IsBits (push_uint m v k) (l ++ to_bits k v)
unfolding push_uint to_bits
push_uint-IsBits m l v zero h = rw append-nil h
push_uint-IsBits m l v (suc k) h =
    let x = v / 2 ^ k % 2 == 1 in
    rw (← append_assoc l (x ∷ []) (to_bits k v))
      (push_uint-IsBits (push_bit m x) (l ++ x ∷ []) v k (push_bit-IsBits m l x h))

-- The bits of a text field: one character after the other, then zeros.
unfoldable pub text_bits : Bytes → ℕ → List Bool
text_bits s zero = []
text_bits [] (suc left) = to_bits 6 0 ++ text_bits [] left
text_bits (c ∷ s) (suc left) = to_bits 6 (six_bit c) ++ text_bits s left

pub push_chars-IsBits :
    (m : BitsMut) (l : List Bool) (s : Bytes) (left : ℕ)
    → IsBits m l
    → IsBits (push_chars m s left) (l ++ text_bits s left)
unfolding push_chars text_bits
push_chars-IsBits m l s zero h = rw append-nil h
push_chars-IsBits m l [] (suc left) h =
    rw (← append_assoc l (to_bits 6 0) (text_bits [] left))
      (push_chars-IsBits (push_uint m 0 6) _ [] left (push_uint-IsBits m l 0 6 h))
push_chars-IsBits m l (c ∷ s) (suc left) h =
    rw (← append_assoc l (to_bits 6 (six_bit c)) (text_bits s left)) (
      push_chars-IsBits (push_uint m (six_bit c) 6) _ s left (push_uint-IsBits m l (six_bit c) 6 h))

pub length-text_bits : (s : Bytes) (left : ℕ) → length (text_bits s left) ≡ 6 * left
unfolding text_bits
length-text_bits s zero = refl
length-text_bits [] (suc left) = omega (
  arith,
  length-append (to_bits 6 0) (text_bits [] left),
  length-to_bits 6 0,
  length-text_bits [] left,
)
length-text_bits (c ∷ s) (suc left) = omega (
  arith,
  length-append (to_bits 6 (six_bit c)) (text_bits s left),
  length-to_bits 6 (six_bit c),
  length-text_bits s left,
)
