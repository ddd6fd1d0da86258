-- ===== src/Base/Result.antt =====
-- `Result<A, E>` of Rust, and the `?` operator on it.
pub data Result {ℓ} (E : Type 0) (A : Type ℓ) : Type ℓ where
  ok : A → Result E A
  err : E → Result E A

infixl 5 ◌>>=◌
abbrev pub ◌>>=◌ {ℓ κ} :
    {E : Type 0} {A : Type ℓ} {B : Type κ} → Result E A → (A → Result E B) → Result E B
ok a >>= f = f a
err e >>= f = err e

-- What holds of a value, where there is one.
abbrev pub Succeeds {ℓ} : {E : Type 0} {A : Type ℓ} → (A → Type 0) → Result E A → Type 0
Succeeds P (ok a) = P a
Succeeds P (err e) = Unit

-- A chain gives a good value when each step does.
pub Succeeds-chain {ℓ κ} :
    {E : Type 0} {A : Type ℓ} {B : Type κ} (Q : A → Type 0) (P : B → Type 0) (r : Result E A)
    (f : A → Result E B)
    → Succeeds Q r
    → ((a : A) → Q a → Succeeds P (f a))
    → Succeeds P (r >>= f)
Succeeds-chain Q P (ok a) f h step = step a h
Succeeds-chain Q P (err e) f h step = tt

pub Succeeds-any {ℓ} : {E : Type 0} {A : Type ℓ} (r : Result E A) → Succeeds (λ _. Unit) r
Succeeds-any (ok a) = tt
Succeeds-any (err e) = tt
