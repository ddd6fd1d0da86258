-- ===== src/Nmea/Encode/Chunks.antt =====
-- `chunks(60)`: the pieces of a payload.
use openseafeed.Base.{
  ℕ, zero, suc, ◌+◌, ◌*◌, ◌≤◌, max, ◌≡◌, refl, arith, List, [], ◌∷◌, ◌++◌, length, drop, Bytes, All,
  All-take, All-drop, length-drop, take-append-drop,
}
use openseafeed.Nmea.Encode.{chunks, chunks_loop}

abbrev pub concat : List Bytes → Bytes
concat [] = []
concat (c ∷ cs) = c ++ concat cs

concat-chunks_loop : (fuel : ℕ) (s : Bytes) → length s ≤ fuel → concat (chunks_loop fuel s) ≡ s
unfolding chunks_loop
concat-chunks_loop zero [] h = refl
concat-chunks_loop zero (c ∷ s) h = absurd (omega arith)
concat-chunks_loop (suc fuel) [] h = refl
concat-chunks_loop (suc fuel) (c ∷ s) h =
    let rest = concat-chunks_loop fuel (drop 60 (c ∷ s)) (omega (arith, length-drop 60 (c ∷ s))) in
    rw rest (take-append-drop 60 (c ∷ s))

-- The pieces, one behind the other, are the payload.
pub concat-chunks : (s : Bytes) → concat (chunks s) ≡ s
unfolding chunks
concat-chunks [] = refl
concat-chunks (c ∷ s) = concat-chunks_loop (length (c ∷ s)) (c ∷ s) (omega arith)

length-chunks_loop : (fuel : ℕ) (s : Bytes) → length (chunks_loop fuel s) * 60 ≤ length s + 59
unfolding chunks_loop
length-chunks_loop zero s = omega arith
length-chunks_loop (suc fuel) [] = omega arith
length-chunks_loop (suc fuel) (c ∷ s) =
    omega (arith, length-chunks_loop fuel (drop 60 (c ∷ s)), length-drop 60 (c ∷ s))

-- There is a piece, and no more pieces than sixty characters each take.
pub length-chunks :
    (s : Bytes) → (1 ≤ length (chunks s)) × (length (chunks s) * 60 ≤ max 1 (length s) + 59)
unfolding chunks
length-chunks [] = omega arith
length-chunks (c ∷ s) =
    (unfold chunks_loop in omega arith, omega (arith, length-chunks_loop (length (c ∷ s)) (c ∷ s)))

module _ (P : ℕ → Type 0) where
  All-chunks_loop : (fuel : ℕ) (s : Bytes) → All P s → All (All P) (chunks_loop fuel s)
  unfolding chunks_loop
  All-chunks_loop zero s h = tt
  All-chunks_loop (suc fuel) [] h = tt
  All-chunks_loop (suc fuel) (c ∷ s) h =
      (All-take P 60 (c ∷ s) h, All-chunks_loop fuel (drop 60 (c ∷ s)) (All-drop P 60 (c ∷ s) h))

  pub All-chunks : (s : Bytes) → All P s → All (All P) (chunks s)
  unfolding chunks
  All-chunks [] h = (tt, tt)
  All-chunks (c ∷ s) h = All-chunks_loop (length (c ∷ s)) (c ∷ s) h
