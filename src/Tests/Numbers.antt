-- ===== src/Tests/Numbers.antt =====
-- Fractions as pairs of numbers: an instance of the operations of `num::Ratio`.
use adex_validator_stack_rus.Prelude.{
  ◌+◌, ◌*◌, ◌/◌, ◌≤◌, ◌<◌, ◌≡◌, refl, ◌≢◌, ◌&&◌, Option, none, some, arith, ltb, leb, if◌then◌else◌,
}
use adex_validator_stack_rus.Prelude.U64
use adex_validator_stack_rus.UnifiedNum.Ratio.{RatioOps, HasValue}
use adex_validator_stack_rus.Prelude.U64
use adex_validator_stack_rus.UnifiedNum.Ratio.{Ratio}

abbrev pub product_ratio : Ratio → Ratio → Ratio
product_ratio x y = record { numer = x.numer * y.numer; denom = x.denom * y.denom }

abbrev pub checked_product : Ratio → Ratio → Option Ratio
checked_product x y =
    if leb (x.numer * y.numer) U64.max_value
      && leb (x.denom * y.denom) U64.max_value
      && ltb 0 (x.denom * y.denom)
    then some (product_ratio x y)
    else none

pub numbers_value :
    (x y r : Ratio)
    → checked_product x y ≡ some r
    → HasValue r (x.numer * y.numer) (x.denom * y.denom)
numbers_value x y r h = (ground arith, ground arith)

pub numbers_total :
    (x y : Ratio)
    → 0 < x.denom
    → 0 < y.denom
    → x.numer * y.numer ≤ U64.max_value
    → x.denom * y.denom ≤ U64.max_value
    → checked_product x y ≢ none
numbers_total x y a b h k e = let positive : 0 < x.denom * y.denom = grind arith in ground arith

-- The operations on pairs.
abbrev pub numbers : RatioOps
numbers = record {
  new = λ a b. record { numer = a; denom = b };
  checked_mul = checked_product;
  floor = λ r. r.numer / r.denom;
  round = λ r. (2 * r.numer + r.denom) / (2 * r.denom);
  new_value = λ a b h. (h, refl);
  checked_mul_value = numbers_value;
  checked_mul_total = numbers_total;
  floor_value = λ r. refl;
  round_value = λ r. refl;
}
