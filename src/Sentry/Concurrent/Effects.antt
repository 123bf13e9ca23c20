-- ===== src/Sentry/Concurrent/Effects.antt =====
-- What a step does to a budget, and to the sums of what was taken from it.
use adex_validator_stack_rus.Prelude.{
  ℕ, ◌+◌, ◌≤◌, ◌≡◌, refl, ap, ◌∙◌, subst, ◌⊎◌, inl, inr, false, arith, ℤ, pos, negsuc, plus_nat,
  minus_nat, clamp, is_negative,
}

-- An effect on the budget and on the two sums: `d` is taken, and `e` of it covered.
pub record Effect (z z' : ℤ) (t t' v v' : ℕ) : Type 0 where
  pub d : ℕ
  pub e : ℕ
  pub taken_by : z' ≡ minus_nat z d
  pub took_by : t' ≡ t + d
  pub covered_by : v' ≤ v + e
  pub within : e ≤ d
  pub solvent : (e ≡ 0) ⊎ (is_negative z' ≡ false)

-- What holds at every moment, from a budget of `start` on: what is left and what was taken make it
-- up, and what was covered is no more than it.
pub record IsAccounted (start z : ℤ) (t v : ℕ) : Type 0 where
  pub sum_kept : plus_nat z t ≡ start
  pub below : v ≤ t
  pub within : v ≤ clamp start

minus_zero : (z : ℤ) → z ≡ minus_nat z 0
minus_zero (pos n) = ground arith
minus_zero (negsuc n) = ground arith

pub plus_zero : (z : ℤ) → plus_nat z 0 ≡ z
plus_zero (pos n) = ground arith
plus_zero (negsuc n) = ground arith

plus-minus : (z : ℤ) (t d : ℕ) → plus_nat (minus_nat z d) (t + d) ≡ plus_nat z t
plus-minus (pos m) t d = ground arith
plus-minus (negsuc m) t d = ground arith

clamp_of_sum : (z : ℤ) (t : ℕ) → is_negative z ≡ false → t ≤ clamp (plus_nat z t)
clamp_of_sum (pos m) t h = ground arith
clamp_of_sum (negsuc m) t h = absurd (ground arith)

-- Nothing is taken.
pub idle : {z z' : ℤ} {t v v' : ℕ} → z' ≡ z → v' ≤ v → Effect z z' t t v v'
idle {z} h k = record {
  d = 0;
  e = 0;
  taken_by = h ∙ minus_zero z;
  took_by = omega arith;
  covered_by = omega (arith, k);
  within = omega arith;
  solvent = inl refl;
}

pub Effect-IsAccounted :
    (start z z' : ℤ) (t t' v v' : ℕ)
    → IsAccounted start z t v
    → Effect z z' t t' v v'
    → IsAccounted start z' t' v'
Effect-IsAccounted start z z' t t' v v' k f =
    let kept : plus_nat z' t' ≡ start =
      ap (λ x. plus_nat x t') f.taken_by
      ∙ ap (λ n. plus_nat (minus_nat z f.d) n) f.took_by
      ∙ plus-minus z t f.d
      ∙ k.sum_kept in
    record {
      sum_kept = kept;
      below = omega (arith, k.below, f.covered_by, f.within, f.took_by);
      within = elim f.solvent [
        | inl none_covered ↦ omega (arith, k.within, f.covered_by, none_covered)
        | inr whole ↦
            let room : t' ≤ clamp start =
              subst (λ x. t' ≤ clamp x) kept (clamp_of_sum z' t' whole) in
            omega (arith, room, k.below, f.covered_by, f.within, f.took_by)
      ];
    }

-- An effect among other requests.
pub beside :
    {z z' : ℤ} {t t' v v' : ℕ} (m n : ℕ)
    → Effect z z' t t' v v'
    → Effect z z' (t + m) (t' + m) (v + n) (v' + n)
beside m n f = record {
  d = f.d;
  e = f.e;
  taken_by = f.taken_by;
  took_by = omega (arith, f.took_by);
  covered_by = omega (arith, f.covered_by);
  within = f.within;
  solvent = f.solvent;
}

pub behind :
    {z z' : ℤ} {t t' v v' : ℕ} (m n : ℕ)
    → Effect z z' t t' v v'
    → Effect z z' (m + t) (m + t') (n + v) (n + v')
behind m n f = record {
  d = f.d;
  e = f.e;
  taken_by = f.taken_by;
  took_by = omega (arith, f.took_by);
  covered_by = omega (arith, f.covered_by);
  within = f.within;
  solvent = f.solvent;
}
