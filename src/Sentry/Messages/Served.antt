-- ===== src/Sentry/Messages/Served.antt =====
-- What the lookups of the latest approved state find.
use adex_validator_stack_rus.Prelude.{
  ℕ, ◌≡◌, refl, sym, subst, ◌⊎◌, inl, inr, Bool, true, false, ◌&&◌, Option, none, some, List, [],
  ◌∷◌, ◌++◌, arith, leb, ◌==◌, if◌then◌else◌, ok, or_default,
}
use Prim.Native.String.{String}
use text.Mathlib.Text.{◌==◌ as ◌=ˢ◌}
use text.Mathlib.TextEquality.{eq_iff}
use adex_validator_stack_rus.UnifiedNum.{UnifiedNum}
use adex_validator_stack_rus.Balances.{Balances}
use adex_validator_stack_rus.Channel.{Channel, ValidatorId, find_validator}
use adex_validator_stack_rus.Worker.Messages.{
  MessageTypes, approve_state, new_state, ApproveState, NewState, PropagationResult,
}
use adex_validator_stack_rus.Worker.Sentry.{SentryApi}
use adex_validator_stack_rus.Worker.Follower.{on_new_state, sent}
use adex_validator_stack_rus.Worker.Follower.Approval.{on_new_state_sound}
use adex_validator_stack_rus.Sentry.Routes.Tables.{same_channel}
use adex_validator_stack_rus.Sentry.Channels.{get_corresponding_states}
use adex_validator_stack_rus.Sentry.Messages.Defs.{
  MessageRow, insert_validator_message, insert_all, create_validator_messages, latest_approve_state,
  latest_new_state, latest_heartbeats, last_approved, LastApprovedResponse,
}

-- A row with an approval by the follower of the channel.
abbrev pub is_approval : Channel → MessageRow → Bool
is_approval channel r =
    same_channel r.channel channel
    && (r.sender == channel.follower)
    && elim r.msg [ approve_state m ↦ true | _ ↦ false ]

-- A row with a proposal of the root by the leader of the channel.
abbrev pub is_proposal : Channel → String → MessageRow → Bool
is_proposal channel root r =
    same_channel r.channel channel
    && (r.sender == channel.leader)
    && elim r.msg [ new_state m ↦ m.state_root =ˢ root | _ ↦ false ]

same_channel_refl : (c : Channel) → same_channel c c ≡ true
unfolding same_channel
same_channel_refl c = ground arith

abbrev pub row : Channel → ValidatorId → MessageTypes → MessageRow
row channel sender msg = record { channel = channel; sender = sender; msg = msg }

-- The rows hold the entry, and none before it satisfies the test.
abbrev pub IsLatest : (MessageRow → Bool) → MessageRow → List MessageRow → Type 0
IsLatest p r [] = ⊥
IsLatest p r (q ∷ rs) = (q ≡ r) ⊎ ((p q ≡ false) × IsLatest p r rs)

latest_approve_state_lem :
    (channel : Channel) (m : ApproveState) (rows : List MessageRow)
    → IsLatest (is_approval channel) (row channel channel.follower (approve_state m)) rows
    → latest_approve_state channel rows ≡ some m
unfolding latest_approve_state
latest_approve_state_lem channel m [] h = absurd h
latest_approve_state_lem channel m (q ∷ rs) (inl e) =
    subst (λ (k : MessageRow). latest_approve_state channel (k ∷ rs) ≡ some m) (sym e)
      (ground (arith, same_channel_refl channel))
latest_approve_state_lem channel m (q ∷ rs) (inr (other, h)) =
    let rest = latest_approve_state_lem channel m rs h in ground arith

latest_new_state_lem :
    (channel : Channel) (root : String) (m : NewState) (rows : List MessageRow)
    → m.state_root ≡ root
    → IsLatest (is_proposal channel root) (row channel channel.leader (new_state m)) rows
    → latest_new_state channel root rows ≡ some m
unfolding latest_new_state
latest_new_state_lem channel root m [] t h = absurd h
latest_new_state_lem channel root m (q ∷ rs) t (inl e) =
    subst (λ (k : MessageRow). latest_new_state channel root (k ∷ rs) ≡ some m) (sym e)
      (ground (arith, same_channel_refl channel, eq_iff m.state_root root))
latest_new_state_lem channel root m (q ∷ rs) t (inr (other, h)) =
    let rest = latest_new_state_lem channel root m rs t h in ground arith

-- The answer with the two states.
abbrev pub answer :
    Channel → Option Bool → ApproveState → NewState → List MessageRow → LastApprovedResponse
answer channel with_heartbeat m p rows = record {
  last_approved = some (m, p);
  heartbeats =
      if or_default false with_heartbeat
      then some (
          latest_heartbeats channel channel.leader rows
          ++ latest_heartbeats channel channel.follower rows)
      else none;
}

corresponding :
    (m : ApproveState) (p : NewState) (a : Option ApproveState) (f : String → Option NewState)
    → a ≡ some m
    → f m.state_root ≡ some p
    → get_corresponding_states (some a) (λ root. some (f root)) ≡ ok (some (m, p))
unfolding get_corresponding_states
corresponding m p a f h k = ground arith

-- The message of an approval.
abbrev approval_of : SentryApi → NewState → String → ℕ → ℕ → ApproveState
approval_of api msg signed earners_health spenders_health = record {
  state_root = msg.state_root;
  signature = signed;
  is_healthy =
      leb api.health_threshold_promilles earners_health
      && leb api.health_threshold_promilles spenders_health;
}

-- Once the follower's latest approval is of a root, and the leader's latest proposal of that root is
-- in the table, whatever other messages were posted, `last_approved` answers with the two.
pub last_approved_served :
    (channel : Channel) (with_heartbeat : Option Bool) (m : ApproveState) (p : NewState)
    (rows : List MessageRow)
    → p.state_root ≡ m.state_root
    → IsLatest (is_approval channel) (row channel channel.follower (approve_state m)) rows
    → IsLatest (is_proposal channel m.state_root) (row channel channel.leader (new_state p)) rows
    → last_approved channel with_heartbeat rows ≡ some (answer channel with_heartbeat m p rows)
unfolding last_approved
last_approved_served channel with_heartbeat m p rows t a n =
    let approved = latest_approve_state_lem channel m rows a in
    let proposed = latest_new_state_lem channel m.state_root p rows t n in
    let found =
      corresponding m p (latest_approve_state channel rows)
        (λ root. latest_new_state channel root rows) approved proposed in
    ground arith

-- Posting by a validator of the channel puts the message on top of the rows.
create_validator_messages_one :
    (reaches : MessageTypes → Bool) (channel : Channel) (msg : MessageTypes)
    (rows : List MessageRow)
    → reaches msg ≡ true
    → create_validator_messages reaches channel channel.follower (msg ∷ []) rows
      ≡ (ok true, row channel channel.follower msg ∷ rows)
unfolding create_validator_messages insert_all insert_validator_message find_validator
create_validator_messages_one reaches channel msg rows h = ground arith

-- When the follower approves a proposal whose latest copy by the leader is in the table, and posts
-- what it sends, the server answers that approval with that proposal as the state approved last.
pub on_new_state-last_approved :
    (api : SentryApi) (accounting : Balances) (msg : NewState) (total_deposits : UnifiedNum)
    (results : List PropagationResult) (before after : List MessageTypes)
    (reaches : MessageTypes → Bool) (with_heartbeat : Option Bool) (rows : List MessageRow)
    → on_new_state api accounting msg total_deposits before ≡ (ok (sent (some results)), after)
    → ((m : MessageTypes) → reaches m ≡ true)
    → IsLatest
        (is_proposal api.channel msg.state_root)
        (row api.channel api.channel.leader (new_state msg))
        rows
    → (approved : ApproveState) × (rows' : List MessageRow) × (after
        ≡ before ++ approve_state approved ∷ [])
      × (create_validator_messages reaches api.channel api.channel.follower
            (approve_state approved ∷ [])
            rows
          ≡ (ok true, rows'))
      × (last_approved api.channel with_heartbeat rows'
          ≡ some (answer api.channel with_heartbeat approved msg rows'))
on_new_state-last_approved api accounting msg total_deposits results before after reaches
      with_heartbeat rows h posted n =
    let (last, prev, he, hs, signed, l, p, approves) =
      on_new_state_sound api accounting msg total_deposits results before after h in
    let sent_approval = approval_of api msg signed he hs in
    let top = row api.channel api.channel.follower (approve_state sent_approval) in
    (
      sent_approval,
      top ∷ rows,
      approves.healthy.log,
      create_validator_messages_one reaches api.channel (approve_state sent_approval) rows
          (posted (approve_state sent_approval)),
      last_approved_served api.channel with_heartbeat sent_approval msg (top ∷ rows) refl (inl refl)
          (inr (ground arith, n)),
    )
