-- ===== src/Ais/Bits/Reads.antt =====
-- The byte vector as a list of bits: what `bit_at`, `set_at` and `uint` do to it.
use openseafeed.Base.{
  ℕ, zero, suc, ◌+◌, ◌-◌, ◌*◌, ◌/◌, ◌%◌, ◌^◌, ◌≤◌, ◌<◌, ◌≡◌, ◌≢◌, refl, ◌∙◌, arith, List, [], ◌∷◌,
  ◌++◌, length, get_or, set, replicate, Bool, true, false, ◌||◌, ◌==◌, if◌then◌else◌, All,
  Bool-cases, inl, inr, All-append, append_assoc, subst, ==_iff, get_or-set_self, get_or-set_ne,
  length-set, length-append,
}
use openseafeed.Base.Octet.{test_bit-set_bit, set_bit-lt, test_bit-zero}
use openseafeed.Ais.Bits.{Bits, bit_at, set_at, uint_loop, uint}
use openseafeed.Ais.BitList.{bit_value, value, double-lt}
use native.Mathlib.Nat.{pow-le-pow_right, le_trans}

abbrev pub Octets : List ℕ → Type 0
Octets = All (λ x. x < 256)

pub Octets-get_or : (b : List ℕ) (i : ℕ) → Octets b → get_or b i 0 < 256
Octets-get_or [] i h = omega arith
Octets-get_or (x ∷ b) zero (hx, h) = hx
Octets-get_or (x ∷ b) (suc i) (hx, h) = Octets-get_or b i h

pub Octets-set : (b : List ℕ) (i v : ℕ) → Octets b → v < 256 → Octets (set b i v)
Octets-set [] i v h hv = tt
Octets-set (x ∷ b) zero v (hx, h) hv = (hv, h)
Octets-set (x ∷ b) (suc i) v (hx, h) hv = (hx, Octets-set b i v h hv)

pub set_at-Octets : (b : List ℕ) (i : ℕ) → Octets b → Octets (set_at b i)
unfolding set_at
set_at-Octets b i h =
    Octets-set b (i / 8) _ h (set_bit-lt _ _ (Octets-get_or b (i / 8) h) (omega arith))

pub length-set_at : (b : List ℕ) (i : ℕ) → length (set_at b i) ≡ length b
unfolding set_at
length-set_at b i = length-set b (i / 8) _

-- Two positions of one byte.
same_place : (i j : ℕ) → i / 8 ≡ j / 8 → (7 - i % 8 == 7 - j % 8) ≡ (i == j)
same_place i j e = ground arith

pub bit_at-set_at :
    (b : List ℕ) (i j : ℕ)
    → Octets b
    → i / 8 < length b
    → bit_at (set_at b i) j ≡ (i == j || bit_at b j)
unfolding bit_at set_at
bit_at-set_at b i j h hi = elim (Bool-cases (i / 8 == j / 8)) [
  | inl e ↦
      let p : i / 8 ≡ j / 8 = (==_iff _ _).0 e in
      rw (
        ← p,
        get_or-set_self b (i / 8) _ 0 hi,
        test_bit-set_bit (get_or b (i / 8) 0) (7 - i % 8) (7 - j % 8) (Octets-get_or b (i / 8) h)
            (omega arith) (omega arith),
        same_place i j p,
      )
  | inr e ↦
      let ne : i / 8 ≢ j / 8 = ground arith in
      rw (get_or-set_ne b (i / 8) (j / 8) _ 0 ne) (ground arith)
]

bit_at-append_zero : (b : List ℕ) (j : ℕ) → bit_at (b ++ 0 ∷ []) j ≡ bit_at b j
unfolding bit_at
bit_at-append_zero b j = rw (get_or-append_default b (j / 8))
  where
    get_or-append_default : (b : List ℕ) (i : ℕ) → get_or (b ++ 0 ∷ []) i 0 ≡ get_or b i 0
    get_or-append_default [] zero = refl
    get_or-append_default [] (suc i) = refl
    get_or-append_default (x ∷ b) zero = refl
    get_or-append_default (x ∷ b) (suc i) = get_or-append_default b i

pub bit_at-nil : (i : ℕ) → bit_at [] i ≡ false
unfolding bit_at
bit_at-nil i = test_bit-zero _ (omega arith)

bit_at-replicate : (k i : ℕ) → bit_at (replicate k 0) i ≡ false
unfolding bit_at
bit_at-replicate k i = rw (get_or-replicate k (i / 8)) (test_bit-zero _ (omega arith))
  where
    get_or-replicate : (k i : ℕ) → ◌≡◌ {A = ℕ} (get_or (replicate k 0) i 0) 0
    get_or-replicate zero i = refl
    get_or-replicate (suc k) zero = refl
    get_or-replicate (suc k) (suc i) = get_or-replicate k i

-- The vector's bits are `l`, and no bit behind them is set.
pub record Holds (b : List ℕ) (l : List Bool) : Type 0 where
  pub bits : (i : ℕ) → bit_at b i ≡ get_or l i false
  pub octets : Octets b

pub Holds-append_zero : (b : List ℕ) (l : List Bool) → Holds b l → Holds (b ++ 0 ∷ []) l
Holds-append_zero b l h = record {
  bits = λ i. bit_at-append_zero b i ∙ h.bits i;
  octets = All-append _ b (0 ∷ []) h.octets (omega arith, tt);
}

pub Holds-replicate : (k : ℕ) → Holds (replicate k 0) []
Holds-replicate k = record { bits = bit_at-replicate k; octets = zeros k }
  where
    zeros : (k : ℕ) → Octets (replicate k 0)
    zeros zero = tt
    zeros (suc k) = (omega arith, zeros k)

get_or-append_one :
    (l : List Bool) (x : Bool) (i : ℕ)
    → get_or (l ++ x ∷ []) i false ≡ (if i == length l then x else get_or l i false)
get_or-append_one [] x zero = refl
get_or-append_one [] x (suc i) = ground arith
get_or-append_one (y ∷ l) x zero = ground arith
get_or-append_one (y ∷ l) x (suc i) = ground (arith, get_or-append_one l x i)

get_or-past_end : (l : List Bool) (i : ℕ) → length l ≤ i → get_or l i false ≡ false
get_or-past_end [] i h = refl
get_or-past_end (x ∷ l) zero h = absurd (omega arith)
get_or-past_end (x ∷ l) (suc i) h = get_or-past_end l i (omega arith)

-- The one step of all loops that write: the next bit is set, or left clear.
pub write_bit :
    (b : List ℕ) (l : List Bool) (x : Bool)
    → Holds b l
    → length l / 8 < length b
    → Holds (if x then set_at b (length l) else b) (l ++ x ∷ [])
write_bit b l false h room = record {
  bits = λ i. ground (arith, h.bits i, get_or-append_one l false i, get_or-past_end l i);
  octets = h.octets;
}
write_bit b l true h room = record {
  bits = λ i.
      ground
        (arith, h.bits i, get_or-append_one l true i, bit_at-set_at b (length l) i h.octets room);
  octets = set_at-Octets b (length l) h.octets;
}

-- From position `i` on the vector reads `seg`.
abbrev pub Reads : List ℕ → ℕ → List Bool → Type 0
Reads b i [] = Unit
Reads b i (x ∷ seg) = (bit_at b i ≡ x) × Reads b (suc i) seg

get_or-middle : (pre post : List Bool) (x : Bool) → get_or (pre ++ x ∷ post) (length pre) false ≡ x
get_or-middle [] post x = refl
get_or-middle (y ∷ pre) post x = get_or-middle pre post x

pub Reads-middle :
    (b : List ℕ) (pre seg post : List Bool)
    → Holds b (pre ++ (seg ++ post))
    → Reads b (length pre) seg
Reads-middle b pre [] post h = tt
Reads-middle b pre (x ∷ seg) post h = (
  h.bits (length pre) ∙ get_or-middle pre (seg ++ post) x,
  subst (λ k. Reads b k seg) (length-append pre (x ∷ []) ∙ omega arith)
      (Reads-middle b (pre ++ x ∷ []) seg post (rw (append_assoc pre (x ∷ []) (seg ++ post)) h)),
)

uint_loop-suc :
    (left i : ℕ) (b : List ℕ) (v : ℕ)
    → uint_loop (suc left) i b v
      ≡ uint_loop left (suc i) b (v * 2 % 2 ^ 64 + bit_value (bit_at b i))
unfolding uint_loop
uint_loop-suc left i b v = refl

pub uint_loop-value :
    (seg : List Bool) (i : ℕ) (b : List ℕ) (k v : ℕ)
    → Reads b i seg
    → v < 2 ^ k
    → k + length seg ≤ 64
    → uint_loop (length seg) i b v ≡ value v seg
unfolding value
uint_loop-value [] i b k v h lt fits = unfold uint_loop in refl
uint_loop-value (x ∷ seg) i b k v (hx, h) lt fits =
    let small : v * 2 + bit_value x < 2 ^ 64 =
      le_trans (double-lt k v x lt)
        (pow-le-pow_right {n = 2} (omega arith) {j = 64} (omega arith)) in
    let step : v * 2 % 2 ^ 64 + bit_value x ≡ v * 2 + bit_value x = omega arith in
    rw (uint_loop-suc, hx, step)
      (uint_loop-value seg (suc i) b (suc k) (v * 2 + bit_value x) h (double-lt k v x lt)
        (omega arith))

-- A read of a field that lies within the valid bits gives the field's number.
pub uint-value :
    (bs : Bits) (start width : ℕ) (seg : List Bool)
    → Reads bs.b start seg
    → length seg ≡ width
    → 0 < width
    → width ≤ 64
    → start + width ≤ bs.n
    → uint bs start width ≡ value 0 seg
unfolding uint
uint-value bs start width seg h len some_bits narrow inside =
    ground (arith, rw len at (uint_loop-value seg start bs.b 0 0 h (omega arith) (omega arith)))
