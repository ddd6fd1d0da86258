-- ===== src/Fanout/Heard.antt =====
-- The subscriptions of a client against the subjects of the pipeline.
use mathlib.Core.List.{Memᴰ}
use mathlib.Core.List.Memᴰ.{head, tail, map as Mem-map}
use openseafeed.Base.{
  ◌≤◌, ◌≡◌, refl, ap, sym, ◌∙◌, subst, arith, Bool, true, false, any, All, All-append_right, List,
  [], ◌∷◌, ◌++◌, map, Bytes, codes, Bool-cases, ◌⊎◌, inl, inr, ltb, append_assoc, length,
  length-append,
}
use openseafeed.Ais.Float.{Floats}
use openseafeed.Geo.{contains, world, encode}
use openseafeed.Geo.Order.{IsOrdered}
use openseafeed.Geo.Encode.{IsBase32, length-encode}
use openseafeed.Geo.Covered.{cover-encode}
use openseafeed.Feed.{dotted, decoded, decoded_pattern}
use openseafeed.Feed.Subjects.{decoded-decoded_pattern}
use openseafeed.Fanout.{ClientFilter, in_boxes, filter_cover, cover_precision, max_cells_per_client}
use openseafeed.Fanout.Shadows.{filter_cover-IsUnder}

-- A pattern against a subject: the same tokens, or fewer and a `>` in the place of one or more.
abbrev pub IsMatch : Bytes → Bytes → Type 0
IsMatch pattern subject =
    (pattern ≡ subject)
    ⊎ ((stem rest : Bytes) × (pattern ≡ stem ++ codes ".>")
        × (subject ≡ stem ++ dotted rest)
        × (1 ≤ length rest)
        × All IsBase32 rest)

any-Mem :
    {A : Type 0} (p : A → Bool) (list : List A)
    → any p list ≡ true
    → (a : A) × Memᴰ a list × (p a ≡ true)
any-Mem p [] h = absurd (ground arith)
any-Mem p (x ∷ list) h = elim (Bool-cases (p x)) [
  | inl good ↦ (x, head refl, good)
  | inr bad ↦ let (a, m, good) = any-Mem p list (ground arith) in (a, tail m, good)
]

pattern-IsMatch :
    (q rest : Bytes)
    → length (q ++ rest) ≡ 4
    → All IsBase32 rest
    → IsMatch (decoded_pattern q) (decoded (q ++ rest))
pattern-IsMatch [] [] long h = absurd (omega arith)
pattern-IsMatch [] (c ∷ rest) long h = inr (
  codes "ais.decoded",
  c ∷ rest,
  unfold decoded_pattern in refl,
  unfold decoded in refl,
  omega arith,
  h,
)
pattern-IsMatch (c ∷ q) [] long h =
    let (stem, subject, pattern) = decoded-decoded_pattern c q [] in
    let full : ltb (length (c ∷ q)) 4 ≡ false = ground (arith, length-append (c ∷ q) []) in
    let whole : decoded_pattern (c ∷ q) ≡ stem ++ [] = pattern ∙ rw full refl in
    inl (whole ∙ sym (unfold dotted in subject))
pattern-IsMatch (c ∷ q) (d ∷ rest) long h =
    let (stem, subject, pattern) = decoded-decoded_pattern c q (d ∷ rest) in
    let short : ltb (length (c ∷ q)) 4 ≡ true = ground (arith, length-append (c ∷ q) (d ∷ rest)) in
    let wild : decoded_pattern (c ∷ q) ≡ stem ++ codes ".>" = pattern ∙ rw short refl in
    inr (stem, d ∷ rest, wild, subject, omega arith, h)

module _ (fl : Floats) (o : IsOrdered fl) where
  open fl use {F}

  -- A position of the globe in a box of a client's filter: the client has subscribed to a pattern that matches the
  -- subject of the position's cell.
  pub filter_cover-IsMatch :
      (filter : ClientFilter F) (lat lon : F)
      → contains fl (world fl) lat lon ≡ true
      → in_boxes fl filter lat lon ≡ true
      → (pattern : Bytes) × Memᴰ pattern (map decoded_pattern (filter_cover fl filter))
        × IsMatch pattern (decoded (encode fl lat lon 4))
  unfolding in_boxes
  filter_cover-IsMatch filter lat lon known inside =
      let (b, m, held) = any-Mem (λ b. contains fl b lat lon) filter.boxes inside in
      let (p, rest, covered, same) =
        cover-encode fl o lat lon b cover_precision max_cells_per_client 4 known held
          (omega arith) in
      let (q, more, under, split) = (filter_cover-IsUnder fl filter).0 b p m covered in
      let cell : encode fl lat lon 4 ≡ q ++ (more ++ rest) =
        same ∙ ap (λ p. p ++ rest) split ∙ append_assoc q more rest in
      let (long, chars) = length-encode fl lat lon 4 in
      let chars : All IsBase32 (q ++ (more ++ rest)) = subst (All IsBase32) cell chars in
      (
        decoded_pattern q,
        Mem-map decoded_pattern under,
        subst (λ s. IsMatch (decoded_pattern q) (decoded s)) (sym cell)
            (pattern-IsMatch q (more ++ rest) (ap length (sym cell) ∙ long)
              (All-append_right IsBase32 q (more ++ rest) chars)),
      )
