-- ===== src/Ais/Armor.antt =====
-- The armored text between `BitsMut::to_payload` and `Bits::from_payload`, as bits.
pub mod Back
use openseafeed.Base.{
  ℕ, zero, suc, ◌+◌, ◌-◌, ◌*◌, ◌/◌, ◌%◌, ◌^◌, ◌≤◌, ◌<◌, ◌≡◌, ◌⊎◌, refl, sym, ap, subst, ◌∙◌, arith,
  List, [], ◌∷◌, ◌++◌, length, Bytes, Bool, true, false, ◌==◌, ltb, if◌then◌else◌, append_assoc,
  append-nil, length-append, get_or, replicate, length-replicate, All, Bool-cases, inl, inr, Option,
  none, some,
}
use native.Mathlib.Decide.{dec_le}
use openseafeed.Base.Octet.{every_below, every_below_at, same, same→eq, test_bit}
use openseafeed.Base.Result.{ok, err}
use openseafeed.Ais.Bits.{
  Bits, armoring, bit_at, set_at, dearmor, write_char, write_chars, from_payload,
}
use openseafeed.Ais.Bits.Reads.{Holds, Holds-replicate, write_bit, length-set_at}
use openseafeed.Ais.BitList.{to_bits, length-to_bits}

-- The characters that carry six bits: `0` to `w`.
abbrev pub IsArmored : ℕ → Type 0
IsArmored c = (48 ≤ c) × (c ≤ 119)

unfoldable pub char_value : ℕ → ℕ
char_value c = if ltb 88 c then c - 56 else c - 48

-- The bits that a payload carries, fill bits included.
unfoldable pub payload_bits : Bytes → List Bool
payload_bits [] = []
payload_bits (c ∷ cs) = to_bits 6 (char_value c) ++ payload_bits cs

pub length-payload_bits : (cs : Bytes) → length (payload_bits cs) ≡ length cs * 6
unfolding payload_bits
length-payload_bits [] = refl
length-payload_bits (c ∷ cs) = omega (
  arith,
  length-append (to_bits 6 (char_value c)) (payload_bits cs),
  length-to_bits 6 (char_value c),
  length-payload_bits cs,
)

dearmor-some : (c : ℕ) → IsArmored c → (dearmor c ≡ some (char_value c)) × (char_value c < 64)
unfolding dearmor char_value
dearmor-some c h = ground arith

dearmor-none : (c : ℕ) → ¬ IsArmored c → dearmor c ≡ none
unfolding dearmor
dearmor-none c h = ground arith

IsArmored-dec : (c : ℕ) → Dec (IsArmored c)
IsArmored-dec c = elim (dec_le 48 c) [
  | yes p ↦ elim (dec_le c 119) [ yes q ↦ yes (p, q) | no q ↦ no (λ h. q h.1) ]
  | no p ↦ no (λ h. p h.0)
]

All-IsArmored-dec : (cs : Bytes) → Dec (All IsArmored cs)
All-IsArmored-dec [] = yes tt
All-IsArmored-dec (c ∷ cs) = elim (IsArmored-dec c) [
  | yes p ↦ elim (All-IsArmored-dec cs) [ yes q ↦ yes (p, q) | no q ↦ no (λ h. q h.1) ]
  | no p ↦ no (λ h. p h.0)
]

-- On a number of six bits the test `v & (1 << k)` is the digit of `to_bits`.
digit_table :
    every_below 64 (λ v. every_below 6 (λ k. same (test_bit v k) (v / 2 ^ k % 2 == 1))) ≡ true
unfolding every_below test_bit
digit_table = refl

digit : (v k : ℕ) → v < 64 → k < 6 → test_bit v k ≡ (v / 2 ^ k % 2 == 1)
digit v k hv hk = same→eq _ _ (
    every_below_at 6 (λ k. same (test_bit v k) (v / 2 ^ k % 2 == 1)) k
      (every_below_at 64 _ v digit_table hv) hk)

char_bits : (left j v : ℕ) → List Bool
char_bits zero j v = []
char_bits (suc left) j v = test_bit v (5 - j) ∷ char_bits left (suc j) v

char_bits-six : (v : ℕ) → v < 64 → char_bits 6 0 v ≡ to_bits 6 v
unfolding char_bits to_bits
char_bits-six v h = cc (
  digit v 5 h (omega arith),
  digit v 4 h (omega arith),
  digit v 3 h (omega arith),
  digit v 2 h (omega arith),
  digit v 1 h (omega arith),
  digit v 0 h (omega arith),
)

-- `left` rounds of the loop append as many bits, and keep the vector's length.
write_char-Holds :
    (left j off v : ℕ) (b : List ℕ) (l : List Bool)
    → Holds b l
    → length l ≡ off + j
    → off + j + left ≤ 8 * length b
    → Holds (write_char left j off v b) (l ++ char_bits left j v)
      × (length (write_char left j off v b) ≡ length b)
unfolding write_char char_bits
write_char-Holds zero j off v b l h len room = (rw append-nil h, refl)
write_char-Holds (suc left) j off v b l h len room =
    let x = test_bit v (5 - j) in
    let b' = if x then set_at b (off + j) else b in
    let held : Holds b' (l ++ x ∷ []) =
      subst (λ k. Holds (if x then set_at b k else b) (l ++ x ∷ [])) len
        (write_bit b l x h (omega arith)) in
    let kept : length b' ≡ length b = ground (arith, length-set_at b (off + j)) in
    let longer : length (l ++ x ∷ []) ≡ off + suc j = omega (arith, length-append l (x ∷ [])) in
    let (rest, same_length) =
      write_char-Holds left (suc j) off v b' (l ++ x ∷ []) held longer (omega arith) in
    (rw (← append_assoc l (x ∷ []) (char_bits left (suc j) v)) rest, same_length ∙ kept)

write_chars_step :
    (c : ℕ) (cs : Bytes) (i : ℕ) (b : List ℕ) (v : ℕ)
    → dearmor c ≡ some v
    → write_chars (c ∷ cs) i b ≡ write_chars cs (suc i) (write_char 6 0 (i * 6) v b)
unfolding write_chars
write_chars_step c cs i b v e = rw (e, write_chars)

write_chars_stop :
    (c : ℕ) (cs : Bytes) (i : ℕ) (b : List ℕ)
    → dearmor c ≡ none
    → write_chars (c ∷ cs) i b ≡ err armoring
unfolding write_chars
write_chars_stop c cs i b e = rw (e, write_chars)

write_chars-Holds :
    (cs : Bytes) (i : ℕ) (b : List ℕ) (l : List Bool)
    → All IsArmored cs
    → Holds b l
    → length l ≡ i * 6
    → i * 6 + length cs * 6 ≤ 8 * length b
    → (b' : List ℕ) × (write_chars cs i b ≡ ok b') × Holds b' (l ++ payload_bits cs)
unfolding payload_bits
write_chars-Holds [] i b l hs h len room = (b, unfold write_chars in refl, rw append-nil h)
write_chars-Holds (c ∷ cs) i b l (hc, hs) h len room =
    let (value, small) = dearmor-some c hc in
    let v = char_value c in
    let (held, kept) = write_char-Holds 6 0 (i * 6) v b l h (omega arith) (omega arith) in
    let longer : length (l ++ to_bits 6 v) ≡ suc i * 6 =
      omega (arith, length-append l (to_bits 6 v), length-to_bits 6 v) in
    let (b', done, all) =
      write_chars-Holds cs (suc i) (write_char 6 0 (i * 6) v b) (l ++ to_bits 6 v) hs
        (rw (char_bits-six v small) at held) longer (omega arith) in
    (
      b',
      write_chars_step c cs i b v value ∙ done,
      rw (← append_assoc l (to_bits 6 v) (payload_bits cs)) all,
    )

abbrev zeros_for : Bytes → List ℕ
zeros_for payload = replicate ((length payload * 6 + 7) / 8) 0

write_chars_accepts :
    (payload : Bytes)
    → All IsArmored payload
    → (b : List ℕ) × (write_chars payload 0 (zeros_for payload) ≡ ok b)
      × Holds b (payload_bits payload)
write_chars_accepts payload hs =
    let z : ℕ = 0 in
    write_chars-Holds payload 0 (zeros_for payload) [] hs (Holds-replicate _) refl
      (omega (arith, length-replicate ((length payload * 6 + 7) / 8) z))

-- A payload of armored characters, with at most five fill bits and no more than it has, is accepted:
-- the stream holds the six bits of each character in turn, and its length leaves the fill bits out.
pub from_payload_accepts :
    (payload : Bytes) (fill : ℕ)
    → All IsArmored payload
    → fill ≤ 5
    → fill ≤ length payload * 6
    → (bs : Bits) × (from_payload payload fill ≡ ok bs)
      × (bs.n ≡ length payload * 6 - fill)
      × Holds bs.b (payload_bits payload)
unfolding from_payload
from_payload_accepts payload fill hs small fits =
    let (b, done, held) = write_chars_accepts payload hs in
    (record { b = b; n = length payload * 6 - fill }, rw done (ground arith), refl, held)

write_chars_rejects :
    (cs : Bytes) (i : ℕ) (b : List ℕ) → ¬ All IsArmored cs → write_chars cs i b ≡ err armoring
write_chars_rejects [] i b h = absurd (h tt)
write_chars_rejects (c ∷ cs) i b h = elim (IsArmored-dec c) [
  | yes hc ↦
      let (value, _) = dearmor-some c hc in
      write_chars_step c cs i b (char_value c) value
      ∙ write_chars_rejects cs (suc i) _ (λ t. h (hc, t))
  | no hc ↦ write_chars_stop c cs i b (dearmor-none c hc)
]

-- Any other payload, and more than five fill bits, is an armoring error.
pub from_payload_rejects :
    (payload : Bytes) (fill : ℕ)
    → (5 < fill) ⊎ (¬ All IsArmored payload) ⊎ (length payload * 6 < fill)
    → from_payload payload fill ≡ err armoring
unfolding from_payload
from_payload_rejects payload fill (inl h) = ground arith
from_payload_rejects payload fill (inr (inl h)) =
    rw (write_chars_rejects payload 0 (zeros_for payload) h) (ground arith)
from_payload_rejects payload fill (inr (inr h)) = elim (All-IsArmored-dec payload) [
  | yes hs ↦ let (b, done, _) = write_chars_accepts payload hs in rw done (ground arith)
  | no hs ↦ rw (write_chars_rejects payload 0 (zeros_for payload) hs) (ground arith)
]
