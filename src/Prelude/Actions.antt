-- ===== src/Prelude/Actions.antt =====
-- Stateful code that may fail or panic, as a function of its state: what it changed before an
-- error stays changed.
use mathlib.Core.Option.{Option, none, some}
use adex_validator_stack_rus.Prelude.Results.{Result, ok, err, aborts, map_err}

abbrev pub Action : Type 0 → Type 0 → Type 0 → Type 0
Action S E A = S → Result E A × S

module _ {S E A : Type 0} where
  abbrev pub lift : Result E A → Action S E A
  lift r s = (r, s)

  abbrev pub pure : A → Action S E A
  pure a s = (ok a, s)

  -- A call that fails with `e`, leaving the state, or returns and changes it.
  abbrev pub call : E → (S → Option (A × S)) → Action S E A
  call e f s = elim (f s) [ none ↦ (err e, s) | some (a, s') ↦ (ok a, s') ]

infixl 5 ◌>>=◌
abbrev pub ◌>>=◌ : {S E A B : Type 0} → Action S E A → (A → Action S E B) → Action S E B
◌>>=◌ m f s =
    let (r, s') = m s in elim r [ ok a ↦ f a s' | err e ↦ (err e, s') | aborts ↦ (aborts, s') ]

-- `?` on an action with another type of errors.
abbrev pub relabel : {S E F A : Type 0} → (E → F) → Action S E A → Action S F A
relabel f m s = let (r, s') = m s in (map_err f r, s')
