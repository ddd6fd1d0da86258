-- ===== src/Ais/Armor/Back.antt =====
-- `Bits::from_payload` on what `BitsMut::to_payload` wrote.
use openseafeed.Base.{
  ℕ, zero, suc, ◌+◌, ◌*◌, ◌/◌, ◌%◌, ◌^◌, ◌≤◌, ◌<◌, ◌≡◌, refl, ap, ◌∙◌, arith, List, [], ◌∷◌, ◌++◌,
  length, Bool, false, ◌&&◌, ltb, get_or, All, if◌then◌else◌,
}
use openseafeed.Base.Result.{ok}
use openseafeed.Ais.Bits.{Bits, bit_at, from_payload}
use openseafeed.Ais.Bits.Reads.{Holds}
use openseafeed.Ais.BitList.{bit_value, value, value-lt, double-lt, to_bits-value}
use openseafeed.Ais.BitsMut.{BitsMut, fill_of, gather, armor, armor_from, to_payload}
use openseafeed.Ais.BitsMut.Pushes.{IsBits}
use openseafeed.Ais.Armor.{IsArmored, char_value, payload_bits, from_payload_accepts}
use native.Mathlib.Nat.{add-zero, le_trans, pow-le-pow_right}

-- `left` bits of `l` from position `i` on, with zeros behind its end.
abbrev pub window : (left i : ℕ) → List Bool → List Bool
window zero i l = []
window (suc left) i l = get_or l i false ∷ window left (suc i) l

length-window : (left i : ℕ) (l : List Bool) → length (window left i l) ≡ left
length-window zero i l = refl
length-window (suc left) i l = ap suc (length-window left (suc i) l)

get_or-past : (l : List Bool) (i : ℕ) → length l ≤ i → get_or l i false ≡ false
get_or-past [] i h = refl
get_or-past (x ∷ l) zero h = absurd (omega arith)
get_or-past (x ∷ l) (suc i) h = get_or-past l i (omega arith)

get_or-window :
    (k i j : ℕ) (l : List Bool)
    → get_or (window k i l) j false ≡ (if ltb j k then get_or l (i + j) false else false)
get_or-window zero i j l = ground arith
get_or-window (suc k) i zero l = rw add-zero (ground arith)
get_or-window (suc k) i (suc j) l =
    let shift : suc i + j ≡ i + suc j = omega arith in
    get_or-window k (suc i) j l ∙ rw shift (ground arith)

window_add : (j k i : ℕ) (l : List Bool) → window (j + k) i l ≡ window j i l ++ window k (i + j) l
window_add zero k i l =
    let none_before : 0 + k ≡ k = omega arith in
    let same : i + 0 ≡ i = omega arith in rw (none_before, same)
window_add (suc j) k i l =
    let one_more : suc j + k ≡ suc (j + k) = omega arith in
    let shift : i + suc j ≡ suc i + j = omega arith in
    rw (one_more, shift, window_add j k (suc i) l)

masked_bit :
    (m : BitsMut) (l : List Bool) (p : ℕ)
    → IsBits m l
    → (ltb p m.n && bit_at m.b p) ≡ get_or l p false
masked_bit m l p h = ground (arith, h.holds.bits p, get_or-past l p, h.count)

gather-suc :
    (left p : ℕ) (m : BitsMut) (v : ℕ)
    → gather (suc left) p m v
      ≡ gather left (suc p) m (v * 2 % 2 ^ 8 + bit_value (ltb p m.n && bit_at m.b p))
unfolding gather
gather-suc left p m v = refl

pub gather-value :
    (left p : ℕ) (m : BitsMut) (l : List Bool) (k v : ℕ)
    → IsBits m l
    → v < 2 ^ k
    → k + left ≤ 8
    → gather left p m v ≡ value v (window left p l)
unfolding value
gather-value zero p m l k v h lt fits = unfold gather in refl
gather-value (suc left) p m l k v h lt fits =
    let x = get_or l p false in
    let small : v * 2 + bit_value x < 2 ^ 8 =
      le_trans (double-lt k v x lt)
        (pow-le-pow_right {n = 2} (omega arith) {j = 8} (omega arith)) in
    let step : v * 2 % 2 ^ 8 + bit_value x ≡ v * 2 + bit_value x = omega arith in
    rw (gather-suc, masked_bit m l p h, step)
      (gather-value left (suc p) m l (suc k) (v * 2 + bit_value x) h (double-lt k v x lt)
        (omega arith))

armor-IsArmored : (v : ℕ) → v < 64 → IsArmored (armor v) × (char_value (armor v) ≡ v)
unfolding armor char_value
armor-IsArmored v h = ground arith

pub armor_from-window :
    (left i : ℕ) (m : BitsMut) (l : List Bool)
    → IsBits m l
    → All IsArmored (armor_from left i m)
      × (length (armor_from left i m) ≡ left)
      × (payload_bits (armor_from left i m) ≡ window (left * 6) i l)
unfolding armor_from payload_bits
armor_from-window zero i m l h = (tt, refl, refl)
armor_from-window (suc left) i m l h =
    let w = window 6 i l in
    let six : gather 6 i m 0 ≡ value 0 w = gather-value 6 i m l 0 0 h (omega arith) (omega arith) in
    let (printable, back) = armor-IsArmored (value 0 w) (value-lt w 0 0 (omega arith)) in
    let (rest, count, spelled) = armor_from-window left (i + 6) m l h in
    let grouped : suc left * 6 ≡ 6 + left * 6 = omega arith in
    (
      (rw six printable, rest),
      ap suc count,
      rw (six, back, spelled, grouped, window_add 6 (left * 6) i l)
          (ap (λ t. t ++ window (left * 6) (i + 6) l) (to_bits-value w 0)),
    )

Holds-window :
    (b : List ℕ) (l : List Bool) (k : ℕ) → length l ≤ k → Holds b (window k 0 l) → Holds b l
Holds-window b l k h held = record {
  bits = λ j. ground (arith, held.bits j, get_or-window k 0 j l, get_or-past l j);
  octets = held.octets;
}

-- De-armoring what was armored gives a stream of the same length that holds the same bits.
pub from_payload-to_payload :
    (m : BitsMut) (l : List Bool)
    → IsBits m l
    → (bs : Bits) × (from_payload (to_payload m).0 (to_payload m).1 ≡ ok bs)
      × (bs.n ≡ m.n)
      × Holds bs.b l
unfolding to_payload
from_payload-to_payload m l h =
    let fill = fill_of m.n in
    let chars = (m.n + fill) / 6 in
    let (printable, count, spelled) = armor_from-window chars 0 m l h in
    let (bs, done, n, held) =
      from_payload_accepts (armor_from chars 0 m) fill printable (omega arith)
        (omega (arith, count)) in
    (
      bs,
      done,
      omega (arith, n, count),
      Holds-window bs.b l (chars * 6) (omega (arith, h.count)) (rw spelled at held),
    )
