-- ===== src/BalancesMap/Defs.antt =====
-- The operations of `Map`, and of `BTreeMap` where it passes them on.
use adex_validator_stack_rus.Prelude.{
  map, ℕ, compare, Ordering, Bool, true, false, Option, none, some, List, [], ◌∷◌, ◌==◌,
  if◌then◌else◌, or_default,
}
use adex_validator_stack_rus.UnifiedNum.{UnifiedNum, BigNum, to_precision}

abbrev pub Address : Type 0
Address = ℕ

-- `Map<K, V>`: the entries, sorted by key.
abbrev pub Map {ℓ} : Type ℓ → Type ℓ
Map V = List (ℕ × V)

abbrev pub UnifiedMap : Type 0
UnifiedMap = Map UnifiedNum

abbrev pub BalancesMap : Type 0
BalancesMap = Map BigNum

module _ {ℓ} {V : Type ℓ} where
  unfoldable pub get : ℕ → Map V → Option V
  get k [] = none
  get k ((j, w) ∷ m) = if k == j then some w else get k m

  abbrev pub contains_key : ℕ → Map V → Bool
  contains_key k m = elim (get k m) [ none ↦ false | some _ ↦ true ]

  -- `insert` replaces the value of a key that is there.
  unfoldable pub insert : ℕ → V → Map V → Map V
  insert k v [] = (k, v) ∷ []
  insert k v ((j, w) ∷ m) = elim (compare k j) [
    | Ordering.lt ↦ (k, v) ∷ (j, w) ∷ m
    | Ordering.eq ↦ (k, v) ∷ m
    | Ordering.gt ↦ (j, w) ∷ insert k v m
  ]

  abbrev pub values : Map V → List V
  values [] = []
  values ((_, v) ∷ m) = v ∷ values m

  abbrev pub is_empty : Map V → Bool
  is_empty [] = true
  is_empty (_ ∷ _) = false

  -- `FromIterator`: a later entry replaces an earlier one with its key.
  unfoldable pub from_iter : List (ℕ × V) → Map V → Map V
  from_iter [] m = m
  from_iter ((k, v) ∷ xs) m = from_iter xs (insert k v m)

-- `*map.entry(key).or_default()` read as a value.
abbrev pub get_or_zero : ℕ → UnifiedMap → UnifiedNum
get_or_zero k m = or_default 0 (get k m)

-- `map.entry(key).or_insert_with(UnifiedNum::default)`
unfoldable pub entry_or_zero : ℕ → UnifiedMap → UnifiedMap
entry_or_zero k m = if contains_key k m then m else insert k 0 m

-- `Map<Address, UnifiedNum>::to_precision`
unfoldable pub to_precision_map : ℕ → UnifiedMap → BalancesMap
unfolding from_iter
to_precision_map p m = from_iter (map (λ e. (e.0, to_precision e.1 p)) m) []
