-- ===== src/BalancesMap/Lookup.antt =====
-- Order of the keys, and lookups after `insert`.
use adex_validator_stack_rus.Prelude.{
  ℕ, ◌≤◌, ◌<◌, ◌≡◌, refl, none, some, List, [], ◌∷◌, arith, ◌==◌, if◌then◌else◌,
}
use adex_validator_stack_rus.BalancesMap.Defs.{
  Map, UnifiedMap, get, insert, entry_or_zero, get_or_zero, from_iter,
}

module _ {ℓ} {V : Type ℓ} where
  -- Every key of the map is above `k`.
  abbrev pub Above : ℕ → Map V → Type 0
  Above k [] = Unit
  Above k ((j, _) ∷ m) = (k < j) × Above k m

  -- The keys ascend, as in every `BTreeMap`.
  abbrev pub IsSorted : Map V → Type 0
  IsSorted [] = Unit
  IsSorted ((k, _) ∷ m) = Above k m × IsSorted m

  pub Above-trans : (i k : ℕ) (m : Map V) → i < k → Above k m → Above i m
  Above-trans i k [] h a = tt
  Above-trans i k ((j, v) ∷ m) h a = (omega arith, Above-trans i k m h a.1)

  pub get-insert :
      (i k : ℕ) (v : V) (m : Map V) → get i (insert k v m) ≡ (if i == k then some v else get i m)
  unfolding get insert
  get-insert i k v [] = refl
  get-insert i k v ((j, w) ∷ m) = ground (arith, get-insert i k v m)

  -- A key below all of the map is not in it.
  pub get-Above : (k i : ℕ) (m : Map V) → i ≤ k → Above k m → get i m ≡ none
  unfolding get
  get-Above k i [] h a = refl
  get-Above k i ((j, v) ∷ m) h a = ground (arith, get-Above k i m h a.1)

  pub Above-insert : (i k : ℕ) (v : V) (m : Map V) → i < k → Above i m → Above i (insert k v m)
  unfolding insert
  Above-insert i k v [] h a = (h, tt)
  Above-insert i k v ((j, w) ∷ m) h a = ground (arith, Above-insert i k v m h a.1)

  -- `insert` keeps the keys in order.
  pub insert-IsSorted : (k : ℕ) (v : V) (m : Map V) → IsSorted m → IsSorted (insert k v m)
  unfolding insert
  insert-IsSorted k v [] s = (tt, tt)
  insert-IsSorted k v ((j, w) ∷ m) s =
      ground (arith, insert-IsSorted k v m s.1, Above-insert j k v m, Above-trans k j m)

  pub from_iter-IsSorted : (xs : List (ℕ × V)) (m : Map V) → IsSorted m → IsSorted (from_iter xs m)
  unfolding from_iter
  from_iter-IsSorted [] m s = s
  from_iter-IsSorted ((k, v) ∷ xs) m s =
      from_iter-IsSorted xs (insert k v m) (insert-IsSorted k v m s)

pub entry_or_zero-IsSorted : (k : ℕ) (m : UnifiedMap) → IsSorted m → IsSorted (entry_or_zero k m)
unfolding entry_or_zero
entry_or_zero-IsSorted k m s = ground (arith, insert-IsSorted k 0 m s)

pub get-entry_or_zero :
    (i k : ℕ) (m : UnifiedMap)
    → get i (entry_or_zero k m) ≡ (if i == k then some (get_or_zero k m) else get i m)
unfolding entry_or_zero
get-entry_or_zero i k m = ground (arith, get-insert i k 0 m)
