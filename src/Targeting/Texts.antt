-- ===== src/Targeting/Texts.antt =====
-- The operations of `str` that the rules use.
use adex_validator_stack_rus.Prelude.{
  ℕ, zero, suc, ◌+◌, ◌-◌, ◌≡◌, refl, Bool, true, ◌&&◌, none, some, List, [], ◌∷◌, leb,
  if◌then◌else◌,
}
use Prim.Native.String.{String, [] as empty, ◌∷◌ as ◌∷ˢ◌, len, slice}
use text.Mathlib.Text.{◌==◌ as ◌=ˢ◌, starts_with, find?}

-- `str::ends_with`
unfoldable pub ends_with : String → String → Bool
ends_with s t = leb (len t) (len s) && (slice s (len s - len t) (len s) =ˢ t)

-- The characters, and a last empty piece.
unfoldable pub pieces : String → List String
pieces empty = "" ∷ []
pieces (c ∷ˢ s) = (c ∷ˢ empty) ∷ pieces s

-- The pieces between the matches; there are at most as many matches as bytes.
unfoldable pub split_at : ℕ → String → String → List String
split_at zero s p = s ∷ []
split_at (suc fuel) s p = elim (find? s p) [
  | none ↦ s ∷ []
  | some i ↦ slice s 0 i ∷ split_at fuel (slice s (i + len p) (len s)) p
]

-- `str::split` by a string; the empty one matches at every boundary.
unfoldable pub split : String → String → List String
unfolding pieces split_at
split s p = if p =ˢ "" then "" ∷ pieces s else split_at (suc (len s)) s p

-- `str::trim_start_matches` by a string that is not empty.
unfoldable pub trim_from : ℕ → String → String → String
trim_from zero s p = s
trim_from (suc fuel) s p = if starts_with s p then trim_from fuel (slice s (len p) (len s)) p else s

unfoldable pub trim_start_matches : String → String → String
unfolding trim_from
trim_start_matches s p = trim_from (len s) s p

split_commas : split "a,b,,c" "," ≡ ("a" ∷ "b" ∷ "" ∷ "c" ∷ [])
unfolding split
split_commas = refl

split_empty : split "ab" "" ≡ ("" ∷ "a" ∷ "b" ∷ "" ∷ [])
unfolding split
split_empty = refl

ends : ends_with "example.com" ".com" ≡ true
unfolding ends_with
ends = refl
