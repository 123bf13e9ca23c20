-- ===== src/Tests/Memory.antt =====
-- A store in memory: an instance of the commands of Redis.
use adex_validator_stack_rus.Prelude.{
  ℕ, refl, Option, none, some, map, arith, ◌==◌, if◌then◌else◌, ℤ, pos, negsuc, plus_nat, minus_nat,
  or_zero,
}
use adex_validator_stack_rus.Sentry.Redis.{Redis, RedisLaws, initial, is_none}

-- The store: the value of each key.
abbrev pub Store : Type 0
Store = ℕ → Option ℤ

abbrev pub put : ℕ → Option ℤ → Store → Store
put k v s j = if j == k then v else s j

abbrev pub parse : Option ℤ → Option ℕ
parse none = none
parse (some (pos n)) = some n
parse (some (negsuc n)) = none

abbrev pub memory : Redis
memory = record {
  Store = Store;
  setnx = λ k n s. some (is_none (s k), put k (initial (s k) n) s);
  get = λ k s. some (s k);
  mget = λ ks s. some (map s ks);
  incrby = λ k n s. some (plus_nat (or_zero (s k)) n, put k (some (plus_nat (or_zero (s k)) n)) s);
  decrby =
      λ k n s. some (minus_nat (or_zero (s k)) n, put k (some (minus_nat (or_zero (s k)) n)) s);
  getset = λ k n s. some (s k, put k (some (pos n)) s);
  parse_u64 = parse;
}

abbrev pub memory_laws : RedisLaws memory
memory_laws = record {
  value = λ k s. s k;
  get_value = λ k s v h. ground arith;
  mget_values = λ ks s vs h. ground arith;
  setnx_value = λ k n s s' b h. (ground arith, λ j. ground arith);
  incrby_value = λ k n s s' r h. (ground arith, λ j. ground arith);
  decrby_value = λ k n s s' r h. (ground arith, λ j. ground arith);
  getset_value = λ k n s s' old h. (ground arith, λ j. ground arith);
  parse_absent = refl;
  parse_pos = λ n. refl;
  parse_negsuc = λ n. refl;
}
