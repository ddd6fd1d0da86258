-- ===== src/Nmea/Sentence/Pieces.antt =====
-- `split`, `rfind` and the checksum on texts that are put together from pieces.
use openseafeed.Base.{
  ℕ, ◌<◌, ◌≡◌, refl, arith, [], ◌∷◌, ◌++◌, length, Bytes, Lacks, All, true, none, some, bit_xor,
  ltb, ltb→lt,
}
use openseafeed.Base.Octet.{every_below, every_below_at}
use openseafeed.Nmea.Sentence.{split, rfind, xor_fold}

pub split-last : (c : ℕ) (s : Bytes) → Lacks c s → split c s ≡ s ∷ []
unfolding split
split-last c [] h = refl
split-last c (a ∷ s) (ha, h) = ground (arith, split-last c s h)

pub split-piece : (c : ℕ) (s rest : Bytes) → Lacks c s → split c (s ++ c ∷ rest) ≡ s ∷ split c rest
unfolding split
split-piece c [] rest h = ground arith
split-piece c (a ∷ s) rest (ha, h) = ground (arith, split-piece c s rest h)

rfind-none : (c : ℕ) (s : Bytes) → Lacks c s → rfind c s ≡ none
unfolding rfind
rfind-none c [] h = refl
rfind-none c (a ∷ s) (ha, h) = ground (arith, rfind-none c s h)

pub rfind-last : (c : ℕ) (s t : Bytes) → Lacks c t → rfind c (s ++ c ∷ t) ≡ some (length s)
unfolding rfind
rfind-last c [] t h = ground (arith, rfind-none c t h)
rfind-last c (a ∷ s) t h = rw (rfind-last c s t h)

xor_table : every_below 256 (λ a. every_below 256 (λ b. ltb (bit_xor a b) 256)) ≡ true
unfolding every_below
xor_table = refl

bit_xor-lt : (a b : ℕ) → a < 256 → b < 256 → bit_xor a b < 256
bit_xor-lt a b ha hb = ltb→lt _ _ (
    every_below_at 256 (λ b. ltb (bit_xor a b) 256) b
      (every_below_at 256 (λ a. every_below 256 (λ b. ltb (bit_xor a b) 256)) a xor_table ha) hb)

-- The checksum of bytes is a byte.
pub xor_fold-lt : (s : Bytes) (acc : ℕ) → All (λ c. c < 256) s → acc < 256 → xor_fold acc s < 256
unfolding xor_fold
xor_fold-lt [] acc h ha = ha
xor_fold-lt (c ∷ s) acc (hc, h) ha = xor_fold-lt s (bit_xor acc c) h (bit_xor-lt acc c ha hc)
