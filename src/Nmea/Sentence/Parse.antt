-- ===== src/Nmea/Sentence/Parse.antt =====
-- What `parse` returns: the form of an accepted sentence, and where it panics.
use openseafeed.Base.{
  ℕ, ◌+◌, ◌*◌, ◌≤◌, ◌<◌, ◌≡◌, ◌≢◌, ◌↔◌, ◌⊎◌, refl, arith, List, [], ◌∷◌, length, get_or, take, drop,
  Bytes, false, any, All, Option, none, some, Option-cases, inl, inr,
}
use openseafeed.Base.Trim.{trim, is_char_boundary}
use openseafeed.Nmea.Number.{parse_u8, digits_u8, to_digit}
use openseafeed.Nmea.Sentence.{
  Sentence, ParseError, Outcome, ok, err, panic, malformed, ◌>>=◌, ok_or, rfind, split,
  strip_tag_block, checksum_field, checked_body, parse_fill, parse_fields, is_bad_char, parse,
}

-- The characters that a payload may hold.
abbrev pub IsPayloadChar : ℕ → Type 0
IsPayloadChar c = is_bad_char c ≡ false

-- What every accepted sentence satisfies.
pub record IsWellFormed (s : Sentence) : Type 0 where
  pub first : 1 ≤ s.fragment
  pub within : s.fragment ≤ s.fragments
  pub count : s.fragments < 256
  pub fill : s.fill_bits ≤ 5
  pub chars : All IsPayloadChar s.payload

digits_u8-lt : (s : Bytes) (radix acc n : ℕ) → acc < 256 → digits_u8 radix acc s ≡ some n → n < 256
unfolding digits_u8
digits_u8-lt [] radix acc n small e = ground arith
digits_u8-lt (c ∷ s) radix acc n small e = elim (Option-cases (to_digit radix c)) [
  | inl h ↦ cc
  | inr (d, h) ↦ ground (arith, digits_u8-lt s radix (acc * radix + d) n)
]

pub parse_u8-lt : (radix : ℕ) (s : Bytes) (n : ℕ) → parse_u8 radix s ≡ some n → n < 256
unfolding parse_u8
parse_u8-lt radix [] n e = cc
parse_u8-lt radix (c ∷ []) n e = ground (arith, digits_u8-lt (c ∷ []) radix 0 n)
parse_u8-lt radix (c ∷ d ∷ s) n e =
    ground (arith, digits_u8-lt (d ∷ s) radix 0 n, digits_u8-lt (c ∷ d ∷ s) radix 0 n)

any-false : (s : Bytes) → any is_bad_char s ≡ false → All IsPayloadChar s
any-false [] h = tt
any-false (c ∷ s) h = (ground arith, any-false s (ground arith))

-- Inversion of the steps of a `do` block that returned.
bind-ok :
    {A B : Type 0} {out : B} (first : Outcome A) (next : A → Outcome B)
    → (first >>= next) ≡ ok out
    → (got : A) × (next got ≡ ok out) × (first ≡ ok got)
bind-ok (ok got) next done = (got, done, refl)
bind-ok panic next done = cc
bind-ok (err e) next done = cc

parse_fields-IsWellFormed :
    (line : Bytes) (tag : Option Bytes) (fields : List Bytes) (s : Sentence)
    → parse_fields line tag fields ≡ ok s
    → IsWellFormed s
unfolding parse_fields
parse_fields-IsWellFormed line tag (head ∷ f1 ∷ f2 ∷ f3 ∷ f4 ∷ f5 ∷ f6 ∷ []) s e =
    elim (Option-cases (parse_u8 10 f1)) [
      | inl none1 ↦ absurd (ground arith)
      | inr (fragments, h1) ↦ elim (Option-cases (parse_u8 10 f2)) [
        | inl none2 ↦ absurd (ground arith)
        | inr (fragment, h2) ↦ ground (arith, any-false f5, parse_u8-lt 10 f1 fragments h1)
      ]
    ]
parse_fields-IsWellFormed line tag _ s e = cc

-- An accepted sentence has a fragment number from 1 to its count, which is a `u8`, at most five fill
-- bits, and a payload of armoring characters.
pub parse-IsWellFormed : (text : Bytes) (s : Sentence) → parse text ≡ ok s → IsWellFormed s
unfolding parse
parse-IsWellFormed text s e =
    let ((tag, line), e1, _) =
      bind-ok {A = Option Bytes × Bytes} (strip_tag_block (trim text))
        (λ (tag, line). checked_body line >>= λ body. parse_fields line tag (split b',' body)) e in
    let (body, e2, _) =
      bind-ok (checked_body line) (λ body. parse_fields line tag (split b',' body)) e1 in
    parse_fields-IsWellFormed line tag (split b',' body) s e2

strip_tag_block-ne-panic : (s : Bytes) → strip_tag_block s ≢ panic
unfolding strip_tag_block
strip_tag_block-ne-panic [] h = cc
strip_tag_block-ne-panic (a ∷ s) h = ground arith

ok_or-ne-panic : {A : Type 0} (o : Option A) (e : ParseError) → ok_or o e ≢ panic
ok_or-ne-panic none e h = cc
ok_or-ne-panic (some a) e h = cc

parse_fill-ne-panic : (s : Bytes) → parse_fill s ≢ panic
unfolding parse_fill
parse_fill-ne-panic [] h = cc
parse_fill-ne-panic (c ∷ s) h = ok_or-ne-panic (parse_u8 10 (c ∷ s)) malformed h

-- A bind panics where its first step does, or its second.
bind-panic :
    {A B : Type 0} (m : Outcome A) (f : A → Outcome B)
    → (m >>= f) ≡ panic
    → (m ≡ panic) ⊎ ((a : A) × (m ≡ ok a) × (f a ≡ panic))
bind-panic (ok a) f h = inr (a, refl, h)
bind-panic (err e) f h = cc
bind-panic panic f h = inl refl

parse_fields-ne-panic :
    (line : Bytes) (tag : Option Bytes) (fields : List Bytes) → parse_fields line tag fields ≢ panic
unfolding parse_fields
parse_fields-ne-panic line tag (head ∷ f1 ∷ f2 ∷ f3 ∷ f4 ∷ f5 ∷ f6 ∷ []) h =
    ground (arith, parse_fill-ne-panic f6)
parse_fields-ne-panic line tag _ h = cc

-- The slice of the checksum digits ends inside a character.
abbrev pub SplitsCharacter : Bytes → Type 0
SplitsCharacter line =
    (10 ≤ length line)
    × ((get_or line 0 0 ≡ b'!') ⊎ (get_or line 0 0 ≡ b'$'))
    × ((star : ℕ) × (rfind b'*' line ≡ some star)
        × (star + 3 ≤ length line)
        × (is_char_boundary line (star + 3) ≡ false))

checked_body-panic : (line : Bytes) → checked_body line ≡ panic → SplitsCharacter line
unfolding checked_body checksum_field
checked_body-panic line h = elim (Option-cases (rfind b'*' line)) [
  | inl e ↦ absurd (ground arith)
  | inr (star, e) ↦ elim (Option-cases (parse_u8 16 (take 2 (drop (star + 1) line)))) [
    | inl e' ↦ (ground arith, ground arith, (star, e, ground arith, ground arith))
    | inr (want, e') ↦ (ground arith, ground arith, (star, e, ground arith, ground arith))
  ]
]

checked_body-panics : (line : Bytes) → SplitsCharacter line → checked_body line ≡ panic
unfolding checked_body checksum_field
checked_body-panics line (long, mark, (star, e, room, inside)) = rw e (ground arith)

-- `parse` panics on a text exactly when, behind the TAG block, the line has ten bytes, begins with `!`
-- or `$`, has two bytes behind its last `*`, and a character that goes on past the second of them.
pub parse-panic_iff :
    (text : Bytes)
    → (parse text ≡ panic) ↔ (
        (tag : Option Bytes) × (line : Bytes) × (strip_tag_block (trim text) ≡ ok (tag, line))
        × SplitsCharacter line)
unfolding parse
parse-panic_iff text = (there, back)
  where
    there :
        parse text ≡ panic
        → (tag : Option Bytes) × (line : Bytes) × (strip_tag_block (trim text) ≡ ok (tag, line))
          × SplitsCharacter line
    there h =
        elim (bind-panic {A = Option Bytes × Bytes} (strip_tag_block (trim text))
          (λ (tag, line). checked_body line >>= λ body. parse_fields line tag (split b',' body))
          h) [
            | inl e ↦ absurd (strip_tag_block-ne-panic (trim text) e)
            | inr ((tag, line), e, h1) ↦
                elim (bind-panic (checked_body line)
                  (λ body. parse_fields line tag (split b',' body)) h1) [
                    | inl e1 ↦ (tag, line, e, checked_body-panic line e1)
                    | inr (body, e1, h2) ↦
                        absurd (parse_fields-ne-panic line tag (split b',' body) h2)
                  ]
          ]

    back :
        (tag : Option Bytes) × (line : Bytes) × (strip_tag_block (trim text) ≡ ok (tag, line))
          × SplitsCharacter line
        → parse text ≡ panic
    back (tag, line, e, splits) = rw (e, checked_body-panics line splits)
