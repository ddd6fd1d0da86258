-- ===== src/Ais/Encode/Segments.antt =====
-- A message as the list of its bit fields, and what a reader finds at the position of each.
use openseafeed.Base.{
  ℕ, zero, suc, ◌+◌, ◌*◌, ◌%◌, ◌^◌, ◌≤◌, ◌<◌, ◌≡◌, refl, subst, ◌∙◌, arith, List, [], ◌∷◌, ◌++◌,
  length, Bytes, Bool, some, get_elem?, append_assoc, append-nil, length-append,
}
use openseafeed.Base.Result.{ok}
use openseafeed.Ais.Bits.{Bits, from_payload, uint}
use openseafeed.Ais.Bits.Reads.{Holds, Reads, Reads-middle, uint-value}
use openseafeed.Ais.BitList.{to_bits, length-to_bits, to_bits_mod}
use openseafeed.Ais.BitsMut.{BitsMut, new, push_uint, push_chars, to_payload}
use openseafeed.Ais.BitsMut.Pushes.{
  IsBits, new-IsBits, push_uint-IsBits, push_chars-IsBits, text_bits, length-text_bits,
}
use openseafeed.Ais.Armor.Back.{from_payload-to_payload}

pub data Seg : Type 0 where
  number : (width value : ℕ) → Seg
  text : (chars : ℕ) → Bytes → Seg

abbrev pub width : Seg → ℕ
width (number w v) = w
width (text chars s) = 6 * chars

abbrev pub total : List Seg → ℕ
total [] = 0
total (s ∷ ss) = width s + total ss

abbrev pub seg_bits : Seg → List Bool
seg_bits (number w v) = to_bits w v
seg_bits (text chars s) = text_bits s chars

abbrev pub all_bits : List Seg → List Bool
all_bits [] = []
all_bits (s ∷ ss) = seg_bits s ++ all_bits ss

abbrev push_seg : BitsMut → Seg → BitsMut
push_seg m (number w v) = push_uint m v w
push_seg m (text chars s) = push_chars m s chars

abbrev pub push_all : BitsMut → List Seg → BitsMut
push_all m [] = m
push_all m (s ∷ ss) = push_all (push_seg m s) ss

length-seg_bits : (s : Seg) → length (seg_bits s) ≡ width s
length-seg_bits (number w v) = length-to_bits w v
length-seg_bits (text chars s) = length-text_bits s chars

pub length-all_bits : (ss : List Seg) → length (all_bits ss) ≡ total ss
length-all_bits [] = refl
length-all_bits (s ∷ ss) =
    omega (arith, length-append (seg_bits s) (all_bits ss), length-seg_bits s, length-all_bits ss)

push_seg-IsBits :
    (m : BitsMut) (l : List Bool) (s : Seg) → IsBits m l → IsBits (push_seg m s) (l ++ seg_bits s)
push_seg-IsBits m l (number w v) h = push_uint-IsBits m l v w h
push_seg-IsBits m l (text chars s) h = push_chars-IsBits m l s chars h

pub push_all-IsBits :
    (ss : List Seg) (m : BitsMut) (l : List Bool)
    → IsBits m l
    → IsBits (push_all m ss) (l ++ all_bits ss)
push_all-IsBits [] m l h = rw append-nil h
push_all-IsBits (s ∷ ss) m l h =
    rw (← append_assoc l (seg_bits s) (all_bits ss))
      (push_all-IsBits ss (push_seg m s) (l ++ seg_bits s) (push_seg-IsBits m l s h))

-- The stream holds the fields, and nothing behind them.
pub record Carries (bs : Bits) (ss : List Seg) : Type 0 where
  pub holds : Holds bs.b (all_bits ss)
  pub n : bs.n ≡ total ss

-- What is pushed, armored and de-armored again is a stream that carries the pushed fields.
pub transfer :
    (ss : List Seg)
    → (bs : Bits) × (from_payload (to_payload (push_all new ss)).0 (to_payload (push_all new ss)).1
        ≡ ok bs)
      × Carries bs ss
transfer ss =
    let pushed = push_all-IsBits ss new [] new-IsBits in
    let (bs, done, n, held) = from_payload-to_payload (push_all new ss) (all_bits ss) pushed in
    (bs, done, record { holds = held; n = n ∙ pushed.count ∙ length-all_bits ss })

-- The position of the `k`-th field.
abbrev pub offset : ℕ → List Seg → ℕ
offset zero ss = 0
offset (suc k) [] = 0
offset (suc k) (s ∷ ss) = width s + offset k ss

pub Reads-seg :
    (b : List ℕ) (pre : List Bool) (ss : List Seg) (k : ℕ) {s : Seg}
    → get_elem? ss k ≡ some s
    → Holds b (pre ++ all_bits ss)
    → Reads b (length pre + offset k ss) (seg_bits s)
Reads-seg b pre [] k e h = cc
Reads-seg b pre (t ∷ ss) zero {s} e h =
    let same : t ≡ s = cc in
    let start : length pre ≡ length pre + 0 = omega arith in
    rw (← same, ← start) (Reads-middle b pre (seg_bits t) (all_bits ss) h)
Reads-seg b pre (t ∷ ss) (suc k) {s} e h =
    let start : length (pre ++ seg_bits t) + offset k ss ≡ length pre + (width t + offset k ss) =
      omega (arith, length-append pre (seg_bits t), length-seg_bits t) in
    subst (λ i. Reads b i (seg_bits s)) start
      (Reads-seg b (pre ++ seg_bits t) ss k e (rw (append_assoc pre (seg_bits t) (all_bits ss)) h))

pub offset_within :
    (ss : List Seg) (k : ℕ) {s : Seg} → get_elem? ss k ≡ some s → offset k ss + width s ≤ total ss
offset_within [] k e = cc
offset_within (t ∷ ss) zero {s} e = let same : t ≡ s = cc in rw same (omega arith)
offset_within (t ∷ ss) (suc k) e = omega (arith, offset_within ss k e)

module _ (bs : Bits) (ss : List Seg) (c : Carries bs ss) where
  pub Reads-field :
      (k : ℕ) {s : Seg} → get_elem? ss k ≡ some s → Reads bs.b (offset k ss) (seg_bits s)
  Reads-field k {s} e =
      let start : 0 + offset k ss ≡ offset k ss = omega arith in
      subst (λ i. Reads bs.b i (seg_bits s)) start (Reads-seg bs.b [] ss k e c.holds)

  pub uint_field :
      (k w v : ℕ)
      → get_elem? ss k ≡ some (number w v)
      → 0 < w
      → w ≤ 64
      → uint bs (offset k ss) w ≡ v % 2 ^ w
  uint_field k w v e some_bits narrow =
      uint-value bs (offset k ss) w (to_bits w v) (Reads-field k e) (length-to_bits w v) some_bits
        narrow (omega (arith, c.n, offset_within ss k e))
      ∙ to_bits_mod w v
