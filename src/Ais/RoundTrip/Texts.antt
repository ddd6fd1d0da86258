-- ===== src/Ais/RoundTrip/Texts.antt =====
-- `Bits::string` on a text field that `BitsMut::push_str` wrote.
use openseafeed.Base.{
  ℕ, zero, suc, ◌+◌, ◌*◌, ◌/◌, ◌%◌, ◌≤◌, ◌<◌, ◌≡◌, ◌≢◌, refl, ap, ap₂, ◌∙◌, arith, List, [], ◌∷◌,
  ◌++◌, length, Bytes, Bool, ltb, some, get_elem?, if◌then◌else◌, All, take,
}
use openseafeed.Ais.Bits.{Bits, uint, string_loop, string, trim_end}
use openseafeed.Ais.Bits.Reads.{Reads, uint-value}
use openseafeed.Ais.BitList.{to_bits, length-to_bits, to_bits_mod}
use openseafeed.Ais.BitsMut.{to_ascii_uppercase, six_bit}
use openseafeed.Ais.BitsMut.Pushes.{text_bits}
use openseafeed.Ais.Encode.Segments.{Seg, text, Carries, offset, offset_within, Reads-field}

-- The characters that a text field keeps: space to `_`, but for `@`, which ends the text.
abbrev pub IsPlain : ℕ → Type 0
IsPlain c = (32 ≤ c) × (c ≤ 95) × (c ≢ 64)

pub Reads-append :
    (b : List ℕ) (i : ℕ) (x y : List Bool)
    → Reads b i (x ++ y)
    → Reads b i x × Reads b (i + length x) y
Reads-append b i [] y h = let e : i ≡ i + 0 = omega arith in (tt, rw (← e) h)
Reads-append b i (t ∷ x) y (ht, h) =
    let (left, right) = Reads-append b (suc i) x y h in
    let e : suc i + length x ≡ i + suc (length x) = omega arith in ((ht, left), rw e at right)

-- A character that was written is read back as its six bits.
read_char :
    (bs : Bits) (off v : ℕ) → Reads bs.b off (to_bits 6 v) → off + 6 ≤ bs.n → uint bs off 6 ≡ v % 64
read_char bs off v h inside =
    uint-value bs off 6 (to_bits 6 v) h (length-to_bits 6 v) (omega arith) (omega arith) inside
    ∙ to_bits_mod 6 v

abbrev decoded : ℕ → ℕ
decoded c = if ltb c 32 then c + 64 else c

plain_back : (c : ℕ) → IsPlain c → (decoded (six_bit c % 64) ≡ c) × (six_bit c % 64 ≢ 0)
unfolding six_bit to_ascii_uppercase
plain_back c (low, high, at) = ground arith

string_loop_end :
    (fuel : ℕ) (bs : Bits) (off stop : ℕ) → stop ≡ off → string_loop fuel bs off stop ≡ []
unfolding string_loop
string_loop_end zero bs off stop e = refl
string_loop_end (suc fuel) bs off stop e = ground arith

string_loop_stop :
    (fuel : ℕ) (bs : Bits) (off stop : ℕ) → uint bs off 6 ≡ 0 → string_loop fuel bs off stop ≡ []
unfolding string_loop
string_loop_stop zero bs off stop e = refl
string_loop_stop (suc fuel) bs off stop e = ground arith

string_loop_char :
    (fuel : ℕ) (bs : Bits) (off stop : ℕ)
    → off + 6 ≤ stop
    → uint bs off 6 ≢ 0
    → string_loop (suc fuel) bs off stop
      ≡ decoded (uint bs off 6) ∷ string_loop fuel bs (off + 6) stop
unfolding string_loop
string_loop_char fuel bs off stop h e = ground arith

string_loop-text :
    (k : ℕ) (s : Bytes) (bs : Bits) (fuel off stop : ℕ)
    → Reads bs.b off (text_bits s k)
    → All IsPlain s
    → stop ≡ off + 6 * k
    → stop ≤ bs.n
    → k < fuel
    → string_loop fuel bs off stop ≡ take k s
string_loop-text zero s bs fuel off stop h plain e inside enough =
    string_loop_end fuel bs off stop (omega arith)
string_loop-text (suc k) s bs zero off stop h plain e inside enough = absurd (omega arith)
string_loop-text (suc k) [] bs (suc fuel) off stop h plain e inside enough =
    let (first, _) = Reads-append bs.b off (to_bits 6 0) (text_bits [] k) (unfold text_bits in h) in
    string_loop_stop (suc fuel) bs off stop (read_char bs off 0 first (omega arith))
string_loop-text (suc k) (c ∷ s) bs (suc fuel) off stop h (hc, plain) e inside enough =
    let (first, rest) =
      Reads-append bs.b off (to_bits 6 (six_bit c)) (text_bits s k) (unfold text_bits in h) in
    let (back, some_char) = plain_back c hc in
    let char : uint bs off 6 ≡ six_bit c % 64 = read_char bs off (six_bit c) first (omega arith) in
    let ne : uint bs off 6 ≢ 0 = rw char some_char in
    string_loop_char fuel bs off stop (omega arith) ne
    ∙ ap₂ ◌∷◌ (ap decoded char ∙ back) (
        string_loop-text k s bs fuel (off + 6) stop (rw (length-to_bits 6 (six_bit c)) at rest)
          plain (omega arith) inside (omega arith))

module _ (bs : Bits) (ss : List Seg) (c : Carries bs ss) where
  -- A text field of plain characters is read back, cut to the field and without trailing spaces.
  pub text_field :
      (i k : ℕ) (s : Bytes)
      → get_elem? ss i ≡ some (text k s)
      → 0 < k
      → All IsPlain s
      → string bs (offset i ss) (6 * k) ≡ trim_end (take k s)
  unfolding string
  text_field i k s e some_chars plain =
      let off = offset i ss in
      let within : off + 6 * k ≤ bs.n = omega (arith, c.n, offset_within ss i e) in
      let loop : string_loop (6 * k / 6 + 1) bs off (off + 6 * k) ≡ take k s =
        string_loop-text k s bs (6 * k / 6 + 1) off (off + 6 * k) (Reads-field bs ss c i e) plain
          refl within (omega arith) in
      ground (arith, ap trim_end loop)
