-- ===== src/Sentry/Routes/Paging.antt =====
-- The pages of the campaigns of a channel are all its campaigns.
use adex_validator_stack_rus.Prelude.{
  ℕ, zero, suc, ◌+◌, ◌-◌, ◌*◌, ◌/◌, ◌≤◌, ◌<◌, ◌≡◌, refl, sym, ap, ◌∙◌, inl, inr, some, List, [],
  ◌∷◌, ◌++◌, arith, ltb, Bool-cases, length, take, ok,
}
use adex_validator_stack_rus.Prelude.U64
use adex_validator_stack_rus.Prelude.U64
use adex_validator_stack_rus.Sentry.Routes.Pages.{drop, total_pages, other_pages, all_pages}

pub take_all : {A : Type 0} → (l : ℕ) (ids : List A) → take l ids ++ drop l ids ≡ ids
take_all zero ids = refl
take_all (suc l) [] = refl
take_all (suc l) (x ∷ ids) = ap (λ xs. x ∷ xs) (take_all l ids)

pub drop_nil : {A : Type 0} → (n : ℕ) → drop {A = A} n [] ≡ []
drop_nil zero = refl
drop_nil (suc n) = refl

pub drop_add : {A : Type 0} → (s l : ℕ) (ids : List A) → drop (s + l) ids ≡ drop l (drop s ids)
drop_add zero l ids = ap (λ (n : ℕ). drop n ids) (omega arith)
drop_add (suc s) l [] = drop_nil (suc s + l) ∙ sym (drop_nil l)
drop_add (suc s) l (x ∷ ids) =
    let e : suc s + l ≡ suc (s + l) = omega arith in
    ap (λ (n : ℕ). drop n (x ∷ ids)) e ∙ drop_add s l ids

pub take-drop :
    {A : Type 0} → (l s : ℕ) (ids : List A) → take l (drop s ids) ++ drop (s + l) ids ≡ drop s ids
take-drop l s ids = grind (arith, take_all l (drop s ids), drop_add s l ids)

pub drop-length : {A : Type 0} → (s : ℕ) (ids : List A) → length ids ≤ s → drop s ids ≡ []
drop-length zero [] h = refl
drop-length zero (x ∷ ids) h = absurd (omega arith)
drop-length (suc s) [] h = refl
drop-length (suc s) (x ∷ ids) h = drop-length s ids (omega arith)

mul_suc : (i n limit : ℕ) → (i + suc n) * limit ≡ (suc i + n) * limit
mul_suc i n limit = omega arith

other_pages_lem :
    (ids : List ℕ) (limit i n : ℕ)
    → length ids ≤ (i + n) * limit
    → (i + n) * limit ≤ U64.max_value
    → other_pages ids limit i n ≡ some (drop (i * limit) ids)
unfolding other_pages
other_pages_lem ids limit i zero h k =
    ap some (sym (drop-length (i * limit) ids (omega (arith, h))))
other_pages_lem ids limit i (suc n) h k =
    let rest = other_pages_lem ids limit (suc i) n (omega (arith, h)) (omega (arith, k)) in
    let fits : i * limit ≤ U64.max_value = grind arith in
    let split = take-drop limit (i * limit) ids in
    let next : i * limit + limit ≡ suc i * limit = omega arith in grind arith

pub ++_nil : {A : Type 0} → (xs : List A) → xs ++ [] ≡ xs
++_nil [] = refl
++_nil (x ∷ xs) = ap (λ ys. x ∷ ys) (++_nil xs)

pub pages_bounds :
    (n limit : ℕ)
    → 0 < n
    → 0 < limit
    → (n ≤ (1 + (n - 1) / limit) * limit) × ((1 + (n - 1) / limit) * limit ≤ n + limit)
pages_bounds n limit h k = grind arith

-- With a limit above zero, and as long as the number of campaigns and the limit together fit 64
-- bits, the pages joined are exactly the campaigns, each once and in order.
pub all_pages_lem :
    (ids : List ℕ) (limit : ℕ)
    → 0 < limit
    → length ids + limit ≤ U64.max_value
    → all_pages ids limit ≡ ok ids
unfolding all_pages total_pages
all_pages_lem [] limit h k = ground (arith, take_all {A = ℕ} limit [])
all_pages_lem (x ∷ ids) limit h k =
    let all : List ℕ = x ∷ ids in
    let n : ℕ = (length all - 1) / limit in
    let bounds = pages_bounds (length all) limit (omega arith) h in
    let joined = take_all limit all in
    elim (Bool-cases (ltb (1 + n) 2)) [
      | inl one ↦ let rest = drop-length limit all (ground (arith, bounds)) in grind (arith, ++_nil)
      | inr more ↦
          let rest =
            other_pages_lem all limit 1 n (omega (arith, bounds)) (omega (arith, bounds, k)) in
          let start : drop (1 * limit) all ≡ drop limit all =
            ap (λ (m : ℕ). drop m all) (omega arith) in
          grind arith
    ]
