-- ===== src/Ais/Decode/Lengths.antt =====
-- How many bits each message needs.
use openseafeed.Base.{
  ℕ, ◌≤◌, ◌<◌, ◌≡◌, ◌⊎◌, refl, arith, Bool, true, false, ◌==◌, ◌||◌, if◌then◌else◌, ltb, Bool-cases,
  inl, inr,
}
use openseafeed.Base.Result.{Result, ok, err, ◌>>=◌}
use openseafeed.Ais.Bits.{Bits, DecodeError, too_short, len, uint}
use openseafeed.Ais.Float.{Floats}
use openseafeed.Ais.Fields.{u8, need, decode_header}
use openseafeed.Ais.Types.{Header}
use openseafeed.Ais.Decode.{static_report_arm, decode_body, decode_bits}

-- The least length of a message of type `id`, whose part is `part` when the type is 24.
unfoldable pub required : (id part : ℕ) → ℕ
required id part =
    if id == 1 || id == 2 || id == 3
    then 168
    else if id == 4 || id == 11
    then 168
    else if id == 5
    then 420
    else if id == 9
    then 168
    else if id == 18
    then 168
    else if id == 19
    then 312
    else if id == 21
    then 272
    else if id == 24
    then (if part == 1 then 168 else 160)
    else if id == 27
    then 96
    else 38

-- A result where `n` bits or more are decoded, and fewer are an error that names a length not above `n`.
abbrev pub Needs : {A : Type 0} → Bits → ℕ → Result DecodeError A → Type 0
Needs {A} bs n r =
    ((n ≤ bs.n) × ((a : A) × (r ≡ ok a)))
    ⊎ ((bs.n < n) × ((m : ℕ) × (m ≤ n) × (bs.n < m) × (r ≡ err (too_short bs.n m))))

choose :
    {A : Type 0} (bs : Bits) (n m : ℕ) (x y : Result DecodeError A) (b : Bool)
    → Needs bs n x
    → Needs bs m y
    → Needs bs (if b then n else m) (if b then x else y)
choose bs n m x y true hx hy = hx
choose bs n m x y false hx hy = hy

need-stop :
    {A : Type 0} (bs : Bits) (m : ℕ) (rest : Result DecodeError A)
    → bs.n < m
    → need bs m rest ≡ err (too_short bs.n m)
unfolding need len
need-stop bs m rest h = ground (arith, h)

need-pass :
    {A : Type 0} (bs : Bits) (m : ℕ) (rest : Result DecodeError A)
    → m ≤ bs.n
    → need bs m rest ≡ rest
unfolding need len
need-pass bs m rest h = ground (arith, h)

-- A check of `m` bits before a result that needs `n`.
need-Needs :
    {A : Type 0} (bs : Bits) (m n : ℕ) (rest : Result DecodeError A)
    → m ≤ n
    → (m ≤ bs.n → Needs bs n rest)
    → Needs bs n (need bs m rest)
need-Needs bs m n rest low h = elim (Bool-cases (ltb bs.n m)) [
  | inl short ↦
      let few : bs.n < m = ground (arith, short) in
      inr (omega arith, (m, low, few, need-stop bs m rest few))
  | inr long ↦
      let enough : m ≤ bs.n = ground (arith, long) in rw (need-pass bs m rest enough) (h enough)
]

ok-Needs : {A : Type 0} (bs : Bits) (n : ℕ) (a : A) → n ≤ bs.n → Needs bs n (ok a)
ok-Needs bs n a h = inl (h, (a, refl))

need_ok-Needs : {A : Type 0} (bs : Bits) (n : ℕ) (a : A) → Needs bs n (need bs n (ok a))
need_ok-Needs bs n a = need-Needs bs n n (ok a) (omega arith) (ok-Needs bs n a)

bind-Needs :
    {A B : Type 0} (bs : Bits) (n : ℕ) (r : Result DecodeError A) (f : A → B)
    → Needs bs n r
    → Needs bs n (r >>= λ a. ok (f a))
bind-Needs bs n r f (inl (long, (a, e))) = rw e (inl (long, (f a, refl)))
bind-Needs bs n r f (inr (short, (m, low, few, e))) = rw e (inr (short, (m, low, few, refl)))

module _ (fl : Floats) where
  static_report-Needs :
      (bs : Bits) (h : Header)
      → 160 ≤ bs.n
      → Needs bs (if u8 (uint bs 38 2) == 1 then 168 else 160) (static_report_arm fl bs h)
  unfolding static_report_arm
  static_report-Needs bs h long = elim (Bool-cases (u8 (uint bs 38 2) == 1)) [
    | inl second ↦
        let not_first : (u8 (uint bs 38 2) == 0) ≡ false = ground (arith, second) in
        rw (static_report_arm, second, not_first) (need_ok-Needs bs 168 _)
    | inr other ↦ elim (Bool-cases (u8 (uint bs 38 2) == 0)) [
      | inl first ↦ rw (static_report_arm, other, first) (ok-Needs bs 160 _ long)
      | inr third ↦ rw (static_report_arm, other, third) (ok-Needs bs 160 _ long)
    ]
  ]

  decode_body-Needs :
      (id : ℕ) (bs : Bits) (h : Header)
      → 38 ≤ bs.n
      → Needs bs (required id (u8 (uint bs 38 2))) (decode_body fl id bs h)
  unfolding decode_body required
  decode_body-Needs id bs h long =
      choose bs 168 _ _ _ (id == 1 || id == 2 || id == 3) (need_ok-Needs bs 168 _) (
        choose bs 168 _ _ _ (id == 4 || id == 11) (need_ok-Needs bs 168 _) (
          choose bs 420 _ _ _ (id == 5) (need_ok-Needs bs 420 _) (
            choose bs 168 _ _ _ (id == 9) (need_ok-Needs bs 168 _) (
              choose bs 168 _ _ _ (id == 18) (need_ok-Needs bs 168 _) (
                choose bs 312 _ _ _ (id == 19) (need_ok-Needs bs 312 _) (
                  choose bs 272 _ _ _ (id == 21) (need_ok-Needs bs 272 _) (
                    choose bs _ _ _ _ (id == 24)
                      (need-Needs bs 160 _ _ (ground arith) (static_report-Needs bs h))
                      (choose bs 96 38 _ _ (id == 27) (need_ok-Needs bs 96 _)
                        (ok-Needs bs 38 _ long)))))))))

required-le : (id part : ℕ) → 38 ≤ required id part
unfolding required
required-le id part = ground arith

-- A bitstream is decoded exactly when it has the bits that a message of its type needs, for type 24 of
-- its part; a shorter one is an error that says how many bits there are and names a length that was missed.
pub decode_bits-Needs :
    (fl : Floats) (bs : Bits)
    → Needs bs (required (decode_header bs).message_id (u8 (uint bs 38 2))) (decode_bits fl bs)
unfolding decode_bits
decode_bits-Needs fl bs =
    let h = decode_header bs in
    need-Needs bs 38 (required h.message_id (u8 (uint bs 38 2))) _ (required-le h.message_id _)
      (λ long.
        bind-Needs bs (required h.message_id (u8 (uint bs 38 2))) (decode_body fl h.message_id bs h)
          _ (decode_body-Needs fl h.message_id bs h long))
