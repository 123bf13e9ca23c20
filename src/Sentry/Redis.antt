-- ===== src/Sentry/Redis.antt =====
-- The Redis server that sentry/src/db/campaign.rs calls, with the behaviour that the documentation
-- of its commands states. `none` is a call that fails and changes nothing.
use adex_validator_stack_rus.Prelude.{
  ℕ, ◌≡◌, Bool, true, false, Option, none, some, List, map, ◌==◌, if◌then◌else◌, ℤ, pos, negsuc,
  plus_nat, minus_nat, or_zero,
}

-- A store, the commands by their names, and the client's conversion of a reply to `u64`.
pub record Redis : Type 1 where
  pub Store : Type 0
  pub setnx : ℕ → ℕ → Store → Option (Bool × Store)
  pub get : ℕ → Store → Option (Option ℤ)
  pub mget : List ℕ → Store → Option (List (Option ℤ))
  pub incrby : ℕ → ℕ → Store → Option (ℤ × Store)
  pub decrby : ℕ → ℕ → Store → Option (ℤ × Store)
  pub getset : ℕ → ℕ → Store → Option (Option ℤ × Store)
  pub parse_u64 : Option ℤ → Option ℕ

-- `SETNX`: the value is set where the key has none.
abbrev pub initial : Option ℤ → ℕ → Option ℤ
initial none n = some (pos n)
initial (some z) n = some z

abbrev pub is_none : Option ℤ → Bool
is_none none = true
is_none (some z) = false

pub record RedisLaws (redis : Redis) : Type 0 where
  -- what a store holds
  pub value : ℕ → redis.Store → Option ℤ
  pub get_value : (k : ℕ) (s : redis.Store) (v : Option ℤ) → redis.get k s ≡ some v → v ≡ value k s
  pub mget_values :
      (ks : List ℕ) (s : redis.Store) (vs : List (Option ℤ))
      → redis.mget ks s ≡ some vs
      → vs ≡ map (λ k. value k s) ks
  pub setnx_value :
      (k n : ℕ) (s s' : redis.Store) (was_set : Bool)
      → redis.setnx k n s ≡ some (was_set, s')
      → (was_set ≡ is_none (value k s))
        × ((j : ℕ) → value j s' ≡ (if j == k then initial (value k s) n else value j s))
  pub incrby_value :
      (k n : ℕ) (s s' : redis.Store) (r : ℤ)
      → redis.incrby k n s ≡ some (r, s')
      → (r ≡ plus_nat (or_zero (value k s)) n)
        × ((j : ℕ) → value j s' ≡ (if j == k then some r else value j s))
  pub decrby_value :
      (k n : ℕ) (s s' : redis.Store) (r : ℤ)
      → redis.decrby k n s ≡ some (r, s')
      → (r ≡ minus_nat (or_zero (value k s)) n)
        × ((j : ℕ) → value j s' ≡ (if j == k then some r else value j s))
  pub getset_value :
      (k n : ℕ) (s s' : redis.Store) (old : Option ℤ)
      → redis.getset k n s ≡ some (old, s')
      → (old ≡ value k s) × ((j : ℕ) → value j s' ≡ (if j == k then some (pos n) else value j s))
  pub parse_absent : redis.parse_u64 none ≡ none
  pub parse_pos : (n : ℕ) → redis.parse_u64 (some (pos n)) ≡ some n
  pub parse_negsuc : (n : ℕ) → redis.parse_u64 (some (negsuc n)) ≡ none
