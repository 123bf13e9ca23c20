-- ===== src/Prelude/Results.antt =====
-- Errors as values, and what a Rust program does where it neither returns nor fails: it panics.
-- A debug build panics on an overflow of `+`, `-` and `*`; a release build wraps around.
use mathlib.Core.Option.{Option, none, some}
use mathlib.Core.Path.{◌≡◌, refl}
use mathlib.Core.Logic.{◌⊎◌, inl, inr}

pub data Build : Type 0 where
  debug release : Build

-- A call that returns, or panics.
pub data Outcome {ℓ} (A : Type ℓ) : Type ℓ where
  returns : A → Outcome A
  panics : Outcome A

-- A call that returns a `Result`, or panics.
pub data Result {ℓ κ} (E : Type ℓ) (A : Type κ) : Type (ℓ ⊔ κ) where
  ok : A → Result E A
  err : E → Result E A
  aborts : Result E A

infixl 5 ◌>>=◌ ◌>>◌
abbrev pub ◌>>=◌ {ℓ κ μ} :
    {E : Type ℓ} {A : Type κ} {B : Type μ} → Result E A → (A → Result E B) → Result E B
ok a >>= f = f a
err e >>= f = err e
aborts >>= f = aborts

abbrev pub ◌>>◌ {ℓ κ μ} :
    {E : Type ℓ} {A : Type κ} {B : Type μ} → Result E A → Result E B → Result E B
m >> k = m >>= λ _. k

-- `Option::ok_or`
abbrev pub ok_or {ℓ κ} : {E : Type ℓ} {A : Type κ} → E → Option A → Result E A
ok_or e none = err e
ok_or e (some a) = ok a

-- `Result::map_err`
abbrev pub map_err {ℓ κ μ} :
    {E : Type ℓ} {F : Type κ} {A : Type μ} → (E → F) → Result E A → Result F A
map_err f (ok a) = ok a
map_err f (err e) = err (f e)
map_err f aborts = aborts

-- `Option::ok_or` on a call that may panic.
abbrev pub ok_or_outcome {ℓ κ} : {E : Type ℓ} {A : Type κ} → E → Outcome (Option A) → Result E A
ok_or_outcome e (returns o) = ok_or e o
ok_or_outcome e panics = aborts

abbrev pub bind_option {ℓ κ} : {A : Type ℓ} {B : Type κ} → Option A → (A → Option B) → Option B
bind_option none f = none
bind_option (some a) f = f a

abbrev pub or_default {ℓ} : {A : Type ℓ} → A → Option A → A
or_default d none = d
or_default d (some a) = a

-- The ways in which a fallible call can end.
pub Outcome-cases {ℓ} :
    {A : Type ℓ} (o : Outcome (Option A))
    → ((a : A) × (o ≡ returns (some a))) ⊎ ((o ≡ returns none) ⊎ (o ≡ panics))
Outcome-cases (returns none) = inr (inl refl)
Outcome-cases (returns (some a)) = inl (a, refl)
Outcome-cases panics = inr (inr refl)

pub Result-cases {ℓ κ} :
    {E : Type ℓ} {A : Type κ} (r : Result E A)
    → ((a : A) × (r ≡ ok a)) ⊎ (((e : E) × (r ≡ err e)) ⊎ (r ≡ aborts))
Result-cases (ok a) = inl (a, refl)
Result-cases (err e) = inr (inl (e, refl))
Result-cases aborts = inr (inr refl)
