-- ===== src/Base/Trim.antt =====
-- `str::trim` and `str::is_char_boundary` of Rust, over UTF-8 bytes.
use openseafeed.Base.{
  ℕ, zero, suc, ◌+◌, ◌-◌, ◌≤◌, ◌≡◌, refl, arith, [], ◌∷◌, ◌++◌, length, Bytes, Bool, ◌==◌, ◌||◌,
  ◌&&◌, leb, ltb, if◌then◌else◌, drop, get_or, length-append, drop-append_of_length, append_assoc,
}

unfoldable pub wide_space : ℕ → ℕ → ℕ → ℕ
wide_space a b c =
    if a == 0xc2 && (b == 0x85 || b == 0xa0)
    then 2
    else if a == 0xe1 && b == 0x9a && c == 0x80
        || a == 0xe2
          && b == 0x80
          && (leb 0x80 c && leb c 0x8a || c == 0xa8 || c == 0xa9 || c == 0xaf)
        || a == 0xe2 && b == 0x81 && c == 0x9f
        || a == 0xe3 && b == 0x80 && c == 0x80
    then 3
    else 0

-- The bytes of the white space character that the text begins with; 0 if it begins with another.
unfoldable pub space_width : Bytes → ℕ
space_width [] = 0
space_width (a ∷ s) =
    if a == 32 || leb 9 a && leb a 13 then 1 else wide_space a (get_or s 0 0) (get_or s 1 0)

-- Each round takes a character off, so the text's length is enough fuel.
unfoldable pub trim_start_loop : ℕ → Bytes → Bytes
trim_start_loop zero s = s
trim_start_loop (suc fuel) s =
    let w = space_width s in
    let rest = trim_start_loop fuel (drop w s) in if w == 0 then s else rest

-- The bytes of the white space character that the text ends with.
unfoldable pub last_space : Bytes → ℕ
last_space s =
    let n = length s in
    if space_width (drop (n - 1) s) == 1
    then 1
    else if space_width (drop (n - 2) s) == 2
    then 2
    else if space_width (drop (n - 3) s) == 3
    then 3
    else 0

abbrev drop_end : ℕ → Bytes → Bytes
drop_end w [] = []
drop_end w (a ∷ s) = if ltb (length s) w then [] else a ∷ drop_end w s

unfoldable pub trim_end_loop : ℕ → Bytes → Bytes
trim_end_loop zero s = s
trim_end_loop (suc fuel) s =
    let w = last_space s in
    let rest = trim_end_loop fuel (drop_end w s) in if w == 0 then s else rest

unfoldable pub trim : Bytes → Bytes
trim s = let t = trim_start_loop (length s) s in trim_end_loop (length t) t

-- A byte that no other continues: ASCII, or the first of several.
unfoldable pub is_char_boundary : Bytes → ℕ → Bool
is_char_boundary s i =
    i == 0
    || i == length s
    || ltb i (length s) && (ltb (get_or s i 0) 128 || leb 192 (get_or s i 0))

-- Printable ASCII, space left out.
abbrev pub IsGraphic : ℕ → Type 0
IsGraphic c = (33 ≤ c) × (c ≤ 126)

space_width_graphic : (a : ℕ) (s : Bytes) → IsGraphic a → space_width (a ∷ s) ≡ 0
unfolding space_width wide_space
space_width_graphic a s h = ground arith

trim_start_graphic : (n a : ℕ) (s : Bytes) → IsGraphic a → trim_start_loop n (a ∷ s) ≡ a ∷ s
unfolding trim_start_loop
trim_start_graphic zero a s h = refl
trim_start_graphic (suc n) a s h = rw (space_width_graphic a s h)

pub drop_front : (s u t : Bytes) (n : ℕ) → length (s ++ u) ≡ n → drop n (s ++ (u ++ t)) ≡ t
drop_front s u t n e = rw (← append_assoc s u t) (drop-append_of_length n (s ++ u) t e)

last_space_graphic :
    (s : Bytes) (a b c : ℕ)
    → IsGraphic a
    → IsGraphic b
    → IsGraphic c
    → last_space (s ++ a ∷ b ∷ c ∷ []) ≡ 0
unfolding last_space
last_space_graphic s a b c ha hb hc =
    let t : Bytes = a ∷ b ∷ c ∷ [] in
    let n = length (s ++ t) in
    let whole : n ≡ length s + 3 = length-append s t in
    let three : drop (n - 3) (s ++ t) ≡ t =
      drop_front s [] t (n - 3) (omega (arith, whole, length-append s [])) in
    let two : drop (n - 2) (s ++ t) ≡ b ∷ c ∷ [] =
      drop_front s (a ∷ []) (b ∷ c ∷ []) (n - 2) (omega (arith, whole, length-append s (a ∷ []))) in
    let one : drop (n - 1) (s ++ t) ≡ c ∷ [] =
      drop_front s (a ∷ b ∷ []) (c ∷ []) (n - 1)
        (omega (arith, whole, length-append s (a ∷ b ∷ []))) in
    rw (
      one,
      two,
      three,
      space_width_graphic a (b ∷ c ∷ []) ha,
      space_width_graphic b (c ∷ []) hb,
      space_width_graphic c [] hc,
    )

trim_end_graphic : (fuel : ℕ) (s : Bytes) → last_space s ≡ 0 → trim_end_loop fuel s ≡ s
unfolding trim_end_loop
trim_end_graphic zero s h = refl
trim_end_graphic (suc fuel) s h = rw h

-- A text that begins with a printable character and ends with three has nothing to trim.
pub trim_graphic :
    (x : ℕ) (s : Bytes) (a b c : ℕ)
    → IsGraphic x
    → IsGraphic a
    → IsGraphic b
    → IsGraphic c
    → trim (x ∷ (s ++ a ∷ b ∷ c ∷ [])) ≡ x ∷ (s ++ a ∷ b ∷ c ∷ [])
unfolding trim
trim_graphic x s a b c hx ha hb hc =
    rw (trim_start_graphic _ x (s ++ a ∷ b ∷ c ∷ []) hx)
      (trim_end_graphic _ _ (last_space_graphic (x ∷ s) a b c ha hb hc))
