-- ===== src/StateRoot/Defs.antt =====
-- Leaves, tree and root. A hash of 32 bytes is the number that its bytes spell in big-endian order.
use adex_validator_stack_rus.Prelude.{
  ℕ, ◌^◌, Bool, true, false, List, [], ◌∷◌, ◌++◌, ltb, leb, ◌==◌, if◌then◌else◌, Result, ok, err,
  ◌>>=◌,
}
use Prim.Native.String.{String}
use adex_validator_stack_rus.UnifiedNum.{BigNum, to_precision}
use adex_validator_stack_rus.BalancesMap.{Address, UnifiedMap}
use adex_validator_stack_rus.Balances.{Balances}
use adex_validator_stack_rus.Channel.{Channel}

abbrev pub Hash : Type 0
Hash = ℕ

-- `ethabi::Token`, the constructors that the source encodes.
pub data Token : Type 0 where
  address : Address → Token
  uint : ℕ → Token
  string : String → Token
  fixed_bytes : ℕ → Token

-- What other crates compute: the Keccak digest of ABI-encoded tokens, the root that the
-- `merkletree` crate builds over two or more leaves, and `hex::encode`.
pub record Hashing : Type 0 where
  pub digest : List Token → Hash
  pub tree_root : List Hash → Hash
  pub hex_encode : Hash → String

-- `BalanceLeafError` and `merkle_tree::Error`, joined in `GetStateRootError`.
pub data GetStateRootError : Type 0 where
  balance_leaf zero_leaves : GetStateRootError

-- `sort_unstable`, by insertion.
unfoldable pub insert_sorted : Hash → List Hash → List Hash
insert_sorted x [] = x ∷ []
insert_sorted x (y ∷ ys) = if leb x y then x ∷ y ∷ ys else y ∷ insert_sorted x ys

unfoldable pub sort : List Hash → List Hash
unfolding insert_sorted
sort [] = []
sort (x ∷ xs) = insert_sorted x (sort xs)

-- `dedup_by`: of equal neighbours the first stays.
unfoldable pub dedup_from : Hash → List Hash → List Hash
dedup_from x [] = []
dedup_from x (y ∷ ys) = let rest = dedup_from y ys in if x == y then rest else y ∷ rest

unfoldable pub dedup : List Hash → List Hash
unfolding dedup_from
dedup [] = []
dedup (x ∷ xs) = x ∷ dedup_from x xs

module _ (h : Hashing) where
  -- The root of `MerkleTree::new(data)`.
  unfoldable pub merkle_root : List Hash → Result GetStateRootError Hash
  unfolding sort dedup
  merkle_root xs = elim (dedup (sort xs)) [
    | [] ↦ err zero_leaves
    | x ∷ rest ↦ elim rest [ [] ↦ ok x | y ∷ more ↦ ok (h.tree_root (x ∷ y ∷ more)) ]
  ]

  unfoldable pub get_signable_state_root : Hash → Hash → Hash
  get_signable_state_root channel_id balance_root =
      h.digest (fixed_bytes channel_id ∷ fixed_bytes balance_root ∷ [])

  -- `U256::from_dec_str` fails on a number that does not fit 256 bits.
  unfoldable pub get_balance_leaf : Bool → Address → BigNum → Result GetStateRootError Hash
  get_balance_leaf is_spender acc amnt =
      if ltb amnt (2 ^ 256)
      then ok (
          h.digest (
            if is_spender
            then string "spender" ∷ address acc ∷ uint amnt ∷ []
            else address acc ∷ uint amnt ∷ []))
      else err balance_leaf

  -- `.map(|(acc, amount)| get_balance_leaf(..))`, collected into a `Result`.
  unfoldable pub balance_leaves : Bool → ℕ → UnifiedMap → Result GetStateRootError (List Hash)
  unfolding get_balance_leaf
  balance_leaves is_spender p [] = ok []
  balance_leaves is_spender p ((acc, amount) ∷ m) = do
    leaf ← get_balance_leaf is_spender acc (to_precision amount p)
    rest ← balance_leaves is_spender p m
    ok (leaf ∷ rest)

  -- `Channel::id`
  unfoldable pub channel_id : Channel → Hash
  channel_id c = h.digest (
      address c.leader
      ∷ address c.follower
      ∷ address c.guardian
      ∷ address c.token
      ∷ fixed_bytes c.nonce
      ∷ [])

  -- The earners' leaves come before the spenders'.
  unfoldable pub get_state_root_hash : Hash → Balances → ℕ → Result GetStateRootError Hash
  unfolding balance_leaves merkle_root get_signable_state_root
  get_state_root_hash channel balances token_precision = do
    earners ← balance_leaves false token_precision balances.earners
    spenders ← balance_leaves true token_precision balances.spenders
    root ← merkle_root (earners ++ spenders)
    ok (get_signable_state_root channel root)

  -- `GetStateRoot::encode`
  unfoldable pub encode : Balances → Hash → ℕ → Result GetStateRootError String
  unfolding get_state_root_hash
  encode balances channel token_precision = do
    root ← get_state_root_hash channel balances token_precision
    ok (h.hex_encode root)
