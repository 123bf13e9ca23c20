-- ===== src/StateRoot/Leaves.antt =====
-- The tree depends on the set of its leaves only: order and repetition do not matter.
use adex_validator_stack_rus.Prelude.{
  ◌≤◌, ◌<◌, ◌≡◌, refl, sym, ◌∙◌, ◌↔◌, Bool, false, ◌||◌, List, [], ◌∷◌, arith, ◌==◌, All, err,
}
use adex_validator_stack_rus.StateRoot.Defs.{
  zero_leaves, Hash, Hashing, sort, dedup, dedup_from, insert_sorted, merkle_root,
}

-- `a` is one of the leaves.
abbrev pub contains : Hash → List Hash → Bool
contains a [] = false
contains a (x ∷ xs) = a == x || contains a xs

-- Every leaf is above `k`, strictly or not.
abbrev Below : Hash → List Hash → Type 0
Below k xs = All (λ x. k < x) xs

abbrev AtMost : Hash → List Hash → Type 0
AtMost k xs = All (λ x. k ≤ x) xs

abbrev Ascends : List Hash → Type 0
Ascends [] = Unit
Ascends (x ∷ xs) = AtMost x xs × Ascends xs

abbrev StrictlyAscends : List Hash → Type 0
StrictlyAscends [] = Unit
StrictlyAscends (x ∷ xs) = Below x xs × StrictlyAscends xs

contains-insert_sorted :
    (a x : Hash) (xs : List Hash) → contains a (insert_sorted x xs) ≡ (a == x || contains a xs)
unfolding insert_sorted
contains-insert_sorted a x [] = refl
contains-insert_sorted a x (y ∷ ys) = ground (arith, contains-insert_sorted a x ys)

contains-sort : (a : Hash) (xs : List Hash) → contains a (sort xs) ≡ contains a xs
unfolding sort
contains-sort a [] = refl
contains-sort a (x ∷ xs) = ground (arith, contains-insert_sorted a x (sort xs), contains-sort a xs)

AtMost-trans : (j k : Hash) (xs : List Hash) → j ≤ k → AtMost k xs → AtMost j xs
AtMost-trans j k [] h a = tt
AtMost-trans j k (x ∷ xs) h a = (omega arith, AtMost-trans j k xs h a.1)

AtMost-insert_sorted :
    (k x : Hash) (xs : List Hash) → k ≤ x → AtMost k xs → AtMost k (insert_sorted x xs)
unfolding insert_sorted
AtMost-insert_sorted k x [] h a = (h, tt)
AtMost-insert_sorted k x (y ∷ ys) h a = ground (arith, AtMost-insert_sorted k x ys h a.1)

Ascends-insert_sorted : (x : Hash) (xs : List Hash) → Ascends xs → Ascends (insert_sorted x xs)
unfolding insert_sorted
Ascends-insert_sorted x [] a = (tt, tt)
Ascends-insert_sorted x (y ∷ ys) a =
    ground (arith, Ascends-insert_sorted x ys a.1, AtMost-insert_sorted y x ys, AtMost-trans x y ys)

Ascends-sort : (xs : List Hash) → Ascends (sort xs)
unfolding sort
Ascends-sort [] = tt
Ascends-sort (x ∷ xs) = Ascends-insert_sorted x (sort xs) (Ascends-sort xs)

Below-trans : (j k : Hash) (xs : List Hash) → j < k → Below k xs → Below j xs
Below-trans j k [] h a = tt
Below-trans j k (x ∷ xs) h a = (omega arith, Below-trans j k xs h a.1)

-- After `dedup` an ascending list ascends strictly, with the same leaves.
dedup_from-facts :
    (x : Hash) (xs : List Hash)
    → AtMost x xs
    → Ascends xs
    → Below x (dedup_from x xs) × StrictlyAscends (dedup_from x xs)
unfolding dedup_from
dedup_from-facts x [] a s = (tt, tt)
dedup_from-facts x (y ∷ ys) a s =
    ground (arith, dedup_from-facts y ys s.0 s.1, Below-trans x y (dedup_from y ys))

contains-dedup_from :
    (a x : Hash) (xs : List Hash)
    → (a == x || contains a (dedup_from x xs)) ≡ (a == x || contains a xs)
unfolding dedup_from
contains-dedup_from a x [] = refl
contains-dedup_from a x (y ∷ ys) = ground (arith, contains-dedup_from a y ys)

dedup-facts : (xs : List Hash) → Ascends xs → StrictlyAscends (dedup xs)
unfolding dedup
dedup-facts [] s = tt
dedup-facts (x ∷ xs) s = dedup_from-facts x xs s.0 s.1

contains-dedup : (a : Hash) (xs : List Hash) → contains a (dedup xs) ≡ contains a xs
unfolding dedup
contains-dedup a [] = refl
contains-dedup a (x ∷ xs) = contains-dedup_from a x xs

contains-Below : (a k : Hash) (xs : List Hash) → a ≤ k → Below k xs → contains a xs ≡ false
contains-Below a k [] h b = refl
contains-Below a k (x ∷ xs) h b = ground (arith, contains-Below a k xs h b.1)

-- Strictly ascending lists with the same members are one list.
same_heads :
    (x y : Hash) (xs ys : List Hash)
    → Below x xs
    → Below y ys
    → ((a : Hash) → contains a (x ∷ xs) ≡ contains a (y ∷ ys))
    → x ≡ y
same_heads x y xs ys b c h = ground (arith, h x, h y, contains-Below x y ys, contains-Below y x xs)

same_tails :
    (x y : Hash) (xs ys : List Hash)
    → x ≡ y
    → Below x xs
    → Below y ys
    → ((a : Hash) → contains a (x ∷ xs) ≡ contains a (y ∷ ys))
    → (a : Hash) → contains a xs ≡ contains a ys
same_tails x y xs ys e b c h a = ground (arith, h a, contains-Below a x xs, contains-Below a y ys)

unique :
    (xs ys : List Hash)
    → StrictlyAscends xs
    → StrictlyAscends ys
    → ((a : Hash) → contains a xs ≡ contains a ys)
    → xs ≡ ys
unique [] [] s t h = refl
unique [] (y ∷ ys) s t h = ground (arith, h y)
unique (x ∷ xs) [] s t h = ground (arith, h x)
unique (x ∷ xs) (y ∷ ys) s t h =
    let e = same_heads x y xs ys s.0 t.0 h in
    cc (e, unique xs ys s.1 t.1 (same_tails x y xs ys e s.0 t.0 h))

-- Two lists with the same leaves, in any order and repeated or not, have the same tree root, and
-- the tree fails on the one exactly when it fails on the other.
pub merkle_root_same :
    (k : Hashing) (xs ys : List Hash)
    → ((a : Hash) → contains a xs ≡ contains a ys)
    → merkle_root k xs ≡ merkle_root k ys
unfolding merkle_root
merkle_root_same k xs ys h =
    let e =
      unique (dedup (sort xs)) (dedup (sort ys)) (dedup-facts (sort xs) (Ascends-sort xs))
        (dedup-facts (sort ys) (Ascends-sort ys))
        (λ a.
          contains-dedup a (sort xs)
          ∙ contains-sort a xs
          ∙ h a
          ∙ sym (contains-sort a ys)
          ∙ sym (contains-dedup a (sort ys))) in
    rw (e, merkle_root)

-- The tree has a root exactly when there is a leaf.
pub merkle_root-empty :
    (k : Hashing) (xs : List Hash) → (merkle_root k xs ≡ err zero_leaves) ↔ (xs ≡ [])
unfolding merkle_root
merkle_root-empty k [] = (λ h. refl, λ h. refl)
merkle_root-empty k (x ∷ xs) =
    ground (arith, contains-dedup x (sort (x ∷ xs)), contains-sort x (x ∷ xs))
