-- ===== src/Sentry/Channels/SpenderLimits.antt =====
-- What the two routes for the limits of spenders report.
use adex_validator_stack_rus.Prelude.U64.{checked_sub}
use adex_validator_stack_rus.Prelude.{
  ℕ, ◌-◌, ◌≤◌, ◌≡◌, refl, ap, ◌∙◌, true, false, Option, some, List, [], ◌∷◌, ◌++◌, arith, ◌==◌,
  if◌then◌else◌, All, total, ok,
}
use adex_validator_stack_rus.Prelude.U64
use Prim.Native.String.{String}
use adex_validator_stack_rus.UnifiedNum.{UnifiedNum}
use adex_validator_stack_rus.BalancesMap.{Address, Map, get, insert}
use adex_validator_stack_rus.BalancesMap.Lookup.{get-insert}
use adex_validator_stack_rus.Channel.{Channel}
use adex_validator_stack_rus.Worker.Messages.{ApproveState, NewState}
use adex_validator_stack_rus.Sentry.Routes.Tables.{Api, Tables}
use adex_validator_stack_rus.Sentry.Channels.Defs.{get_corresponding_states}
use adex_validator_stack_rus.Sentry.Channels.Spenders.{
  SpenderLimits, States, spender_info, limits_of, fetch_spendable_opt, latest_spendable,
  get_spender_limits, get_all_spender_limits,
}

abbrev Entries : Type 0
Entries = List (Address × UnifiedNum)

abbrev IsOther : Address → Address × UnifiedNum → Type 0
IsOther uid q = (uid == q.0) ≡ false

get-insert_other :
    {A : Type 0}
    → (i k : Address) (v : A) (m : Map A) → (i == k) ≡ false
    → get i (insert k v m) ≡ get i m
get-insert_other i k v m h = get-insert i k v m ∙ ap (λ b. if b then some v else get i m) h

get-insert_same : {A : Type 0} → (k : Address) (v : A) (m : Map A) → get k (insert k v m) ≡ some v
get-insert_same k v m =
    get-insert k k v m ∙ ap (λ b. if b then some v else get k m) {y = true} (ground arith)

limits_of_others :
    (states : States) (uid : Address) (page : Entries) (m : Map SpenderLimits)
    → All (IsOther uid) page
    → get uid (limits_of states page m) ≡ get uid m
unfolding limits_of
limits_of_others states uid [] m h = refl
limits_of_others states uid ((k, total) ∷ page) m h =
    limits_of_others states uid page (insert k (spender_info states k total) m) h.1
    ∙ get-insert_other uid k (spender_info states k total) m h.0

limits_of_lem :
    (states : States) (uid : Address) (total : UnifiedNum) (before after : Entries)
    (m : Map SpenderLimits)
    → All (IsOther uid) after
    → get uid (limits_of states (before ++ (uid, total) ∷ after) m)
      ≡ some (spender_info states uid total)
unfolding limits_of
limits_of_lem states uid total [] after m h =
    limits_of_others states uid after (insert uid (spender_info states uid total) m) h
    ∙ get-insert_same uid (spender_info states uid total) m
limits_of_lem states uid total ((k, n) ∷ before) after m h =
    limits_of_lem states uid total before after (insert k (spender_info states k n) m) h

limits_at :
    (limit page : ℕ) (find : ℕ → ℕ → Option Entries) (approval : Option (Option ApproveState))
    (latest_new_state : String → Option (Option NewState)) (states : States) (skip : ℕ)
    (uid : Address) (total : UnifiedNum) (before after : Entries)
    → U64.checked_mul page limit ≡ some skip
    → find skip limit ≡ some (before ++ (uid, total) ∷ after)
    → get_corresponding_states approval latest_new_state ≡ ok states
    → All (IsOther uid) after
    → get_all_spender_limits limit page find approval latest_new_state
      ≡ ok (limits_of states (before ++ (uid, total) ∷ after) [])
unfolding get_all_spender_limits
limits_at limit page find approval latest_new_state states skip uid total before after hs hf hc h =
    ground arith

checked_sub_lem : (a b : UnifiedNum) → b ≤ a → checked_sub a b ≡ some (a - b)
checked_sub_lem a b h = ground arith

-- For a spender with a row in the database, on the page asked for, and an approved state in which
-- it spent at most its deposit: `get_spender_limits` reports the spent amount as `total_spent` and
-- changes nothing, but `get_all_spender_limits` reports what is left of the deposit under the same
-- name. No later row of the page is for the spender.
pub get_all_spender_limits-remaining :
    (api : Api) (channel : Channel) (precision limit page skip : ℕ) (find : ℕ → ℕ → Option Entries)
    (approval : Option (Option ApproveState)) (latest_new_state : String → Option (Option NewState))
    (approved : ApproveState) (proposal : NewState) (uid : Address) (deposit spent : UnifiedNum)
    (before after : Entries) (t : Tables)
    → api.reaches_spendables ≡ true
    → get uid t.spendables ≡ some deposit
    → U64.checked_mul page limit ≡ some skip
    → find skip limit ≡ some (before ++ (uid, deposit) ∷ after)
    → All (IsOther uid) after
    → get_corresponding_states approval latest_new_state ≡ ok (some (approved, proposal))
    → get uid proposal.balances.spenders ≡ some spent
    → spent ≤ deposit
    → (get_spender_limits api channel precision approval latest_new_state uid t
        ≡ (ok (record { total_deposited = deposit; total_spent = some spent }), t))
      × (limits : Map SpenderLimits) × (get_all_spender_limits limit page find approval
            latest_new_state
          ≡ ok limits)
      × (get uid limits
          ≡ some (record { total_deposited = deposit; total_spent = some (deposit - spent) }))
unfolding get_spender_limits latest_spendable fetch_spendable_opt spender_info
get_all_spender_limits-remaining api channel precision limit page skip find approval
      latest_new_state approved proposal uid deposit spent before after t hr hd hs hf ho hc hp hle =
    (
      ground arith,
      limits_of (some (approved, proposal)) (before ++ (uid, deposit) ∷ after) [],
      limits_at limit page find approval latest_new_state (some (approved, proposal)) skip uid
          deposit before after hs hf hc ho,
      rw
          (
            limits_of_lem (some (approved, proposal)) uid deposit before after [] ho,
            hp,
            checked_sub_lem deposit spent hle,
          )
          refl,
    )
