-- ===== src/Worker/Leader/Proposal.antt =====
-- When the leader proposes a state, and that its proposal passes the follower's checks.
use adex_validator_stack_rus.Prelude.{
  ℕ, ◌<◌, Bool, true, none, ◌≢◌, ◌⊎◌, ◌↔◌, IsIn, any, Bool-cases, ◌||◌, subst, ◌≡◌, refl, inl, inr,
  not, ◌&&◌, Option, some, List, [], ◌∷◌, ◌++◌, arith, Option-cases, ok, Result-cases,
}
use adex_validator_stack_rus.BalancesMap.{is_empty, UnifiedMap, get}
use adex_validator_stack_rus.Balances.{Balances, check}
use adex_validator_stack_rus.StateRoot.{encode, channel_id}
use adex_validator_stack_rus.Worker.Messages.{
  MessageTypes, PropagationResult, NewState, new_state, try_new_state_checked, try_checked,
}
use adex_validator_stack_rus.Worker.Sentry.{SentryApi}
use adex_validator_stack_rus.Worker.Leader.Defs.{
  checked_new_state, differs, grown, any_grown, should_generate_new_state, on_new_accounting,
}

-- A balance of an address is new, or larger than the previous one.
abbrev pub Larger : UnifiedMap → ℕ → ℕ → Type 0
Larger prev a v = (get a prev ≡ none) ⊎ ((w : ℕ) × (get a prev ≡ some w) × (w < v))

-- Such is one of the entries.
abbrev pub HasGrown : UnifiedMap → UnifiedMap → Type 0
HasGrown prev accounting = (a v : ℕ) × IsIn (a, v) accounting × Larger prev a v

abbrev pub GrownSince : Balances → Option NewState → Type 0
GrownSince accounting none = Unit {0}
GrownSince accounting (some msg) =
    HasGrown msg.balances.spenders accounting.spenders
    ⊎ HasGrown msg.balances.earners accounting.earners

-- A proposal as the message that Sentry has, and its balances as ones that agree.
abbrev pub message_of : Option NewState → Option MessageTypes
message_of none = none
message_of (some msg) = some (new_state msg)

abbrev pub IsBalanced : Option NewState → Type 0
IsBalanced none = Unit {0}
IsBalanced (some msg) = check msg.balances ≡ ok msg.balances

checked_new_state_lem :
    (latest : Option NewState)
    → IsBalanced latest
    → checked_new_state (message_of latest) ≡ ok latest
unfolding checked_new_state try_new_state_checked try_checked
checked_new_state_lem none h = refl
checked_new_state_lem (some msg) h = ground arith

grown_iff : (prev : UnifiedMap) (a v : ℕ) → (grown prev (a, v) ≡ true) ↔ Larger prev a v
grown_iff prev a v = elim (Option-cases (get a prev)) [
  | inl e ↦ (λ h. inl e, λ h. ground arith)
  | inr (w, e) ↦ (
    λ h. inr (w, e, ground arith),
    λ h. elim h [ inl absent ↦ absurd (ground arith) | inr (u, there, less) ↦ ground arith ],
  )
]

here_or : (a b : Bool) → a ≡ true → (a || b) ≡ true
here_or a b h = ground arith

or_there : (a b : Bool) → b ≡ true → (a || b) ≡ true
or_there a b h = ground arith

all_three : (a b c : Bool) → (((a && b) && c) ≡ true) ↔ ((a ≡ true) × (b ≡ true) × (c ≡ true))
all_three a b c = ground arith

any_grown_iff :
    (prev accounting : UnifiedMap) → (any_grown prev accounting ≡ true) ↔ HasGrown prev accounting
unfolding any_grown
any_grown_iff prev [] = (λ h. absurd (ground arith), λ (a, v, i, l). absurd i)
any_grown_iff prev ((a, v) ∷ es) =
    let rest = any_grown_iff prev es in
    (
      λ h. elim (Bool-cases (grown prev (a, v))) [
        | inl here ↦ (a, v, inl refl, (grown_iff prev a v).0 here)
        | inr not_here ↦ let (x, y, i, l) = rest.0 (ground arith) in (x, y, inr i, l)
      ],
      λ (x, y, i, l). elim i [
        | inl same ↦
            let here = subst (λ e. grown prev e ≡ true) same ((grown_iff prev x y).1 l) in
            here_or (grown prev (a, v)) (any (grown prev) es) here
        | inr there ↦ or_there (grown prev (a, v)) (any (grown prev) es) (rest.1 (x, y, there, l))
      ],
    )

not_empty_iff : (m : UnifiedMap) → (not (is_empty m) ≡ true) ↔ (m ≢ [])
not_empty_iff [] = (λ h. absurd (ground arith), λ h. absurd (h refl))
not_empty_iff (e ∷ m) = (λ h same. ground arith, λ h. refl)

differs_iff :
    (accounting : Balances) (latest : Option NewState)
    → (differs accounting latest ≡ true) ↔ GrownSince accounting latest
unfolding differs
differs_iff accounting none = (λ h. tt, λ h. refl)
differs_iff accounting (some msg) =
    let spenders = any_grown_iff msg.balances.spenders accounting.spenders in
    let earners = any_grown_iff msg.balances.earners accounting.earners in
    let s = any_grown msg.balances.spenders accounting.spenders in
    let e = any_grown msg.balances.earners accounting.earners in
    (
      λ h. elim (Bool-cases s) [
        | inl there ↦ inl (spenders.0 there)
        | inr absent ↦ inr (earners.0 (ground arith))
      ],
      λ h. elim h [
        | inl there ↦ here_or s e (spenders.1 there)
        | inr there ↦ or_there s e (earners.1 there)
      ],
    )

-- Where the leader's own latest proposal is balanced, or it has none: a proposal is generated exactly
-- if neither map of the accounting is empty and, since that proposal, an entry of the spenders or of
-- the earners is new or has grown. Nothing is sent.
pub should_generate_new_state_iff :
    (api : SentryApi) (accounting : Balances) (before : List MessageTypes)
    (latest : Option NewState)
    → api.our_latest_new_state ≡ some (message_of latest)
    → IsBalanced latest
    → (generate : Bool) × (should_generate_new_state api accounting before ≡ (ok generate, before))
      × ((generate ≡ true)
          ↔ ((accounting.earners ≢ []) × (accounting.spenders ≢ []) × GrownSince accounting latest))
unfolding should_generate_new_state
should_generate_new_state_iff api accounting before latest r b =
    let known = checked_new_state_lem latest b in
    let earners = not_empty_iff accounting.earners in
    let spenders = not_empty_iff accounting.spenders in
    let grew = differs_iff accounting latest in
    let (there, back) =
      all_three (not (is_empty accounting.earners)) (not (is_empty accounting.spenders))
        (differs accounting latest) in
    (
      not (is_empty accounting.earners)
          && not (is_empty accounting.spenders)
          && differs accounting latest,
      ground arith,
      (
        (λ h. let (x, y, z) = there h in (earners.0 x, spenders.0 y, grew.0 z)),
        λ (x, y, z). back (earners.1 x, spenders.1 y, grew.1 z),
      ),
    )

-- What the leader proposes has the root of the accounting, signed by the leader, and is handed
-- over exactly once.
pub on_new_accounting_lem :
    (api : SentryApi) (accounting : Balances) (before after : List MessageTypes)
    (results : List PropagationResult)
    → on_new_accounting api accounting before ≡ (ok results, after)
    → (msg : NewState) × (after ≡ before ++ new_state msg ∷ [])
      × (msg.balances ≡ accounting)
      × (encode api.hashing accounting (channel_id api.hashing api.channel) api.token_precision
          ≡ ok msg.state_root)
      × (api.sign msg.state_root ≡ some msg.signature)
unfolding on_new_accounting
on_new_accounting_lem api accounting before after results h =
    elim (Result-cases
      (encode api.hashing accounting (channel_id api.hashing api.channel) api.token_precision)) [
        | inr bad ↦ absurd (ground (arith, bad))
        | inl (root, e) ↦ elim (Option-cases (api.sign root)) [
          | inl refused ↦ absurd (ground arith)
          | inr (signed, s) ↦ (
            record { state_root = root; signature = signed; balances = accounting },
            ground arith,
            refl,
            e,
            s,
          )
        ]
      ]
