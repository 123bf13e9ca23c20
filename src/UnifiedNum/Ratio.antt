-- ===== src/UnifiedNum/Ratio.antt =====
-- The products and quotients of `UnifiedNum`, which go through `Ratio<u64>` of the `num` crate.
-- That crate is a parameter: a record of the operations that the source calls, with the documented
-- behaviour that it relies on (exact values, `none` only on an overflow, floor, and rounding to the
-- nearest integer with halves away from zero).
use adex_validator_stack_rus.Prelude.{
  ℕ, suc, ◌+◌, ◌*◌, ◌/◌, ◌≤◌, ◌<◌, ◌≡◌, refl, sym, ap, ◌∙◌, ◌≢◌, inl, inr, Option, none, some,
  arith, ◌==◌, if◌then◌else◌, Bool-cases, Option-cases, Outcome, returns, panics,
}
use adex_validator_stack_rus.Prelude.U64
use adex_validator_stack_rus.UnifiedNum.Defs.{UnifiedNum, multiplier, one}

-- A fraction as `Ratio::numer` and `Ratio::denom` show it.
pub record Ratio : Type 0 where
  pub numer : ℕ
  pub denom : ℕ

-- `r` has the value `a / b`.
abbrev pub HasValue : Ratio → ℕ → ℕ → Type 0
HasValue r a b = (0 < r.denom) × (r.numer * b ≡ a * r.denom)

-- `num::rational::Ratio<u64>`
pub record RatioOps : Type 0 where
  pub new : ℕ → ℕ → Ratio
  pub checked_mul : Ratio → Ratio → Option Ratio
  pub floor : Ratio → ℕ
  pub round : Ratio → ℕ
  pub new_value : (a b : ℕ) → 0 < b → HasValue (new a b) a b
  pub checked_mul_value :
      (x y r : Ratio)
      → checked_mul x y ≡ some r
      → HasValue r (x.numer * y.numer) (x.denom * y.denom)
  pub checked_mul_total :
      (x y : Ratio)
      → 0 < x.denom
      → 0 < y.denom
      → x.numer * y.numer ≤ U64.max_value
      → x.denom * y.denom ≤ U64.max_value
      → checked_mul x y ≢ none
  pub floor_value : (r : Ratio) → floor r ≡ r.numer / r.denom
  pub round_value : (r : Ratio) → round r ≡ (2 * r.numer + r.denom) / (2 * r.denom)

le-of-mul_le : (x y d : ℕ) → 0 < d → x * d ≤ y * d → x ≤ y
le-of-mul_le x y d h p = grind arith

eq-of-mul_eq : (x y d : ℕ) → 0 < d → x * d ≡ y * d → x ≡ y
eq-of-mul_eq x y d h p = grind arith

lt-of-mul_lt : (x y d : ℕ) → x * d < y * d → x < y
lt-of-mul_lt x y d p = grind arith

div-eq-of-bounds : (a b q : ℕ) → q * b ≤ a → a < q * b + b → a / b ≡ q
div-eq-of-bounds a b q h k = grind arith

div-bounds : (a b : ℕ) → 0 < b → (a / b * b ≤ a) × (a < a / b * b + b)
div-bounds a b h = grind arith

mul_mono : (x y d : ℕ) → x ≤ y → x * d ≤ y * d
mul_mono x y d h = grind arith

cross-le : (n d a b q : ℕ) → 0 < d → n * b ≡ a * d → q * d ≤ n → q * b ≤ a
cross-le n d a b q hd e h = le-of-mul_le (q * b) a d hd (omega (arith, mul_mono (q * d) n b h, e))

cross-lt : (n d a b q : ℕ) → n * b ≡ a * d → 0 < b → n < q * d + d → a < q * b + b
cross-lt n d a b q e hb h =
    lt-of-mul_lt a (q * b + b) d (omega (arith, mul_mono (suc n) (q * d + d) b h, e))

-- Fractions of one value have one floor.
div-eq-of-cross : (n d a b : ℕ) → 0 < d → 0 < b → n * b ≡ a * d → n / d ≡ a / b
div-eq-of-cross n d a b hd hb e =
    let q : ℕ = n / d in
    let bounds = div-bounds n d hd in
    sym
      (div-eq-of-bounds a b q (cross-le n d a b q hd e bounds.0) (cross-lt n d a b q e hb bounds.1))

mul_pos : (a b : ℕ) → 0 < a → 0 < b → 0 < a * b
mul_pos a b h k = grind arith

-- The value of a product of two fractions.
product_value :
    (x y r : Ratio) (a b c d : ℕ)
    → 0 < b
    → 0 < d
    → HasValue x a b
    → HasValue y c d
    → HasValue r (x.numer * y.numer) (x.denom * y.denom)
    → HasValue r (a * c) (b * d)
product_value x y r a b c d hb hd hx hy hr = (
  hr.0,
  eq-of-mul_eq (r.numer * (b * d)) (a * c * r.denom) (x.denom * y.denom)
      (mul_pos x.denom y.denom hx.0 hy.0)
      (omega (
        arith,
        ap (λ (t : ℕ). t * (b * d)) hr.1,
        ap (λ (t : ℕ). t * (y.numer * d * r.denom)) hx.1,
        ap (λ (t : ℕ). t * (a * x.denom * r.denom)) hy.1,
      )),
)

-- An amount over one whole, at eight decimals.
value_at_one :
    (a b : ℕ) (x r : Ratio)
    → b ≡ one
    → x ≡ r
    → HasValue x a 1
    → (b ≢ 0) × HasValue r (a * multiplier) b
value_at_one a b x r e p h = rw e (rw (← p) (omega arith, (h.0, omega (arith, h.1))))

module _ (num : RatioOps) where
  -- `CheckedMul for UnifiedNum`
  unfoldable pub checked_mul : UnifiedNum → UnifiedNum → Option UnifiedNum
  checked_mul a b = elim (num.checked_mul (num.new a 1) (num.new b multiplier)) [
    | none ↦ none
    | some ratio ↦ some (num.round ratio)
  ]

  -- `div_unified_num_to_ratio`
  unfoldable pub div_unified_num_to_ratio : UnifiedNum → UnifiedNum → Option Ratio
  div_unified_num_to_ratio lhs rhs =
      if rhs == one
      then some (num.new lhs 1)
      else if rhs == 0
      then none
      else num.checked_mul (num.new lhs rhs) (num.new multiplier 1)

  -- `CheckedDiv for UnifiedNum`
  unfoldable pub checked_div : UnifiedNum → UnifiedNum → Option UnifiedNum
  unfolding div_unified_num_to_ratio
  checked_div lhs rhs = elim (div_unified_num_to_ratio lhs rhs) [
    | none ↦ none
    | some ratio ↦ some (num.floor ratio)
  ]

  -- `Div for UnifiedNum`: `expect("Division by 0")`
  unfoldable pub div : UnifiedNum → UnifiedNum → Outcome UnifiedNum
  unfolding checked_div
  div lhs rhs = elim (checked_div lhs rhs) [ none ↦ panics | some q ↦ returns q ]

  product :
      (a b c d : ℕ) {r : Ratio}
      → 0 < b
      → 0 < d
      → num.checked_mul (num.new a b) (num.new c d) ≡ some r
      → HasValue r (a * c) (b * d)
  product a b c d {r} hb hd h =
      product_value (num.new a b) (num.new c d) r a b c d hb hd (num.new_value a b hb)
        (num.new_value c d hd) (num.checked_mul_value (num.new a b) (num.new c d) r h)

  round_value_of :
      (r : Ratio) (a b : ℕ) → 0 < b → HasValue r a b → num.round r ≡ (2 * a + b) / (2 * b)
  round_value_of r a b hb h =
      num.round_value r
      ∙ div-eq-of-cross (2 * r.numer + r.denom) (2 * r.denom) (2 * a + b) (2 * b)
          (omega (arith, h.0)) (omega arith) (omega (arith, h.1))

  floor_value_of : (r : Ratio) (a b : ℕ) → 0 < b → HasValue r a b → num.floor r ≡ a / b
  floor_value_of r a b hb h = num.floor_value r ∙ div-eq-of-cross r.numer r.denom a b h.0 hb h.1

  -- What `checked_mul` returns is the product at eight decimals, rounded to the nearest unit with
  -- halves upwards.
  pub checked_mul_rounds :
      (a b m : UnifiedNum)
      → checked_mul a b ≡ some m
      → m ≡ (2 * (a * b) + multiplier) / (2 * multiplier)
  unfolding checked_mul
  checked_mul_rounds a b m h =
      elim (Option-cases (num.checked_mul (num.new a 1) (num.new b multiplier))) [
        | inl overflow ↦ ground arith
        | inr (r, e) ↦ ground (
          arith,
          round_value_of r (a * b) (1 * multiplier) (omega arith)
              (product a 1 b multiplier (omega arith) (omega arith) e),
        )
      ]

  ratio_of_div :
      (a b : UnifiedNum) {r : Ratio}
      → div_unified_num_to_ratio a b ≡ some r
      → (b ≢ 0) × HasValue r (a * multiplier) b
  unfolding div_unified_num_to_ratio
  ratio_of_div a b {r} h = elim (Bool-cases (b == one)) [
    | inl whole ↦ ground (arith, value_at_one a b (num.new a 1) r, num.new_value a 1 (omega arith))
    | inr part ↦ elim (Bool-cases (b == 0)) [
      | inl absent ↦ ground arith
      | inr present ↦ ground (arith, product a b multiplier 1 {r = r})
    ]
  ]

  -- The quotient that `checked_div` returns is the quotient at eight decimals, rounded down; the
  -- divisor is not zero.
  pub checked_div_floors :
      (a b q : UnifiedNum) → checked_div a b ≡ some q → (b ≢ 0) × (q ≡ a * multiplier / b)
  unfolding checked_div
  checked_div_floors a b q h = elim (Option-cases (div_unified_num_to_ratio a b)) [
    | inl nothing ↦ ground arith
    | inr (r, e) ↦
        let facts = ratio_of_div a b e in ground (arith, facts, floor_value_of r (a * multiplier) b)
  ]

  -- Division of an amount by zero panics.
  pub div_zero : (a : UnifiedNum) → div a 0 ≡ panics
  unfolding div
  div_zero a = refl
