-- ===== src/Sentry/Messages/Listing.antt =====
-- Who can post messages, and which messages a request lists.
use adex_validator_stack_rus.Prelude.{
  ℕ, zero, suc, ◌≤◌, min, ◌≡◌, refl, subst, ◌⊎◌, inl, inr, Bool, true, false, ◌&&◌, Option, none,
  some, List, [], ◌∷◌, arith, ◌==◌, Bool-cases, length, all, take, All, IsIn, All-mono,
}
use adex_validator_stack_rus.Channel.{Channel, ValidatorId, find_validator}
use adex_validator_stack_rus.Worker.Messages.{MessageTypes}
use adex_validator_stack_rus.Sentry.Routes.Tables.{same_channel}
use adex_validator_stack_rus.Sentry.Messages.Defs.{
  MessageType, MessageRow, type_of, in_types, is_from, insert_validator_message, insert_all,
  create_validator_messages, rows_where, matches, get_validator_messages, list_limit,
  list_validator_messages,
}

-- The sender is the leader or the follower of the row's channel.
abbrev pub IsOwn : MessageRow → Type 0
IsOwn r = (r.channel.leader ≡ r.sender) ⊎ (r.channel.follower ≡ r.sender)

insert_all-IsOwn :
    (reaches : MessageTypes → Bool) (channel : Channel) (uid : ValidatorId)
    (msgs : List MessageTypes) (rows : List MessageRow)
    → (channel.leader ≡ uid) ⊎ (channel.follower ≡ uid)
    → All IsOwn rows
    → All IsOwn (insert_all reaches channel uid msgs rows).1
unfolding insert_all insert_validator_message
insert_all-IsOwn reaches channel uid [] rows own a = a
insert_all-IsOwn reaches channel uid (msg ∷ msgs) rows own a = elim (Bool-cases (reaches msg)) [
  | inl e ↦
      let top : MessageRow = record { channel = channel; sender = uid; msg = msg } in
      subst (All IsOwn) {x = (insert_all reaches channel uid msgs (top ∷ rows)).1} (ground arith)
        (insert_all-IsOwn reaches channel uid msgs (top ∷ rows) own (own, a))
  | inr lost ↦
      subst (All IsOwn) {x = (insert_all reaches channel uid msgs rows).1} (ground arith)
        (insert_all-IsOwn reaches channel uid msgs rows own a)
]

-- Whoever posts whatever messages to a channel, and whether or not all of them get through, each
-- message in the table is from the leader or the follower of its channel.
pub create_validator_messages-IsOwn :
    (reaches : MessageTypes → Bool) (channel : Channel) (uid : ValidatorId)
    (msgs : List MessageTypes) (rows : List MessageRow)
    → All IsOwn rows
    → All IsOwn (create_validator_messages reaches channel uid msgs rows).1
unfolding create_validator_messages find_validator
create_validator_messages-IsOwn reaches channel uid msgs rows a =
    let posted = insert_all-IsOwn reaches channel uid msgs rows in
    let all = (insert_all reaches channel uid msgs rows).1 in
    elim (Bool-cases (channel.leader == uid)) [
      | inl l ↦ subst (All IsOwn) {x = all} (ground arith) (posted (inl (ground arith)) a)
      | inr n ↦ elim (Bool-cases (channel.follower == uid)) [
        | inl f ↦ subst (All IsOwn) {x = all} (ground arith) (posted (inr (ground arith)) a)
        | inr m ↦ subst (All IsOwn) {x = rows} (ground arith) a
      ]
    ]

rows_where_lem :
    (p : MessageRow → Bool) (rows : List MessageRow)
    → All (λ r. IsIn r rows × (p r ≡ true)) (rows_where p rows)
unfolding rows_where
rows_where_lem p [] = tt
rows_where_lem p (r ∷ rows) =
    let later =
      All-mono (λ q. IsIn q rows × (p q ≡ true)) (λ q. IsIn q (r ∷ rows) × (p q ≡ true))
        (rows_where p rows) (λ q h. (inr h.0, h.1)) (rows_where_lem p rows) in
    elim (Bool-cases (p r)) [
      | inl e ↦
          subst (All (λ q. IsIn q (r ∷ rows) × (p q ≡ true))) {x = r ∷ rows_where p rows}
            (ground arith) ((inl refl, e), later)
      | inr e ↦
          subst (All (λ q. IsIn q (r ∷ rows) × (p q ≡ true))) {x = rows_where p rows} (ground arith)
            later
    ]

take-All :
    (P : MessageRow → Type 0) (n : ℕ) (rows : List MessageRow)
    → All P rows
    → All P (take n rows) × (length (take n rows) ≤ n)
take-All P zero rows a = (tt, omega arith)
take-All P (suc n) [] a = (tt, omega arith)
take-All P (suc n) (r ∷ rows) a = let (b, l) = take-All P n rows a.1 in ((a.0, b), omega (arith, l))

tests : (a b c : Bool) → (a && b && c) ≡ true → (a ≡ true) × (b ≡ true) × (c ≡ true)
tests true true true h = (refl, refl, refl)
tests true true false h = absurd (ground arith)
tests true false c h = absurd (ground arith)
tests false b c h = absurd (ground arith)

-- A row that a request for a channel, a sender and types is for.
pub record IsAskedFor (channel : Channel) (sender : Option ValidatorId) (types : List MessageType)
    (rows : List MessageRow) (r : MessageRow) : Type 0 where
  pub stored : IsIn r rows
  pub of_channel : same_channel r.channel channel ≡ true
  pub from : is_from sender r.sender ≡ true
  pub of_type : in_types types (type_of r.msg) ≡ true

-- The smaller of the configured limit and the one of the request, which counts if it is not 0.
abbrev pub asked_limit : ℕ → Option ℕ → ℕ
asked_limit config_limit none = config_limit
asked_limit config_limit (some zero) = config_limit
asked_limit config_limit (some (suc n)) = min (suc n) config_limit

list_limit_lem :
    (limit : Option ℕ) (config_limit : ℕ)
    → list_limit limit config_limit ≡ asked_limit config_limit limit
unfolding list_limit
list_limit_lem none config_limit = refl
list_limit_lem (some zero) config_limit = refl
list_limit_lem (some (suc n)) config_limit = ground arith

-- The messages that are listed are stored ones of the channel, of the sender and of a type that
-- were asked for, where any were, and no more than the configured limit nor, if it is not 0, that
-- of the request.
pub list_validator_messages_sound :
    (config_limit : ℕ) (channel : Channel) (sender : Option ValidatorId) (types : List MessageType)
    (limit : Option ℕ) (rows : List MessageRow)
    → let listed = list_validator_messages config_limit channel sender types limit rows in
      All (IsAskedFor channel sender types rows) listed
      × (length listed ≤ asked_limit config_limit limit)
unfolding list_validator_messages get_validator_messages matches
list_validator_messages_sound config_limit channel sender types limit rows =
    let chosen = rows_where (matches channel sender types) rows in
    let asked =
      All-mono (λ r. IsIn r rows × (matches channel sender types r ≡ true))
        (IsAskedFor channel sender types rows) chosen
        (λ r h.
          let (a, b, c) =
            tests (same_channel r.channel channel) (is_from sender r.sender)
              (in_types types (type_of r.msg)) h.1 in
          record { stored = h.0; of_channel = a; from = b; of_type = c })
        (rows_where_lem (matches channel sender types) rows) in
    let (all, few) =
      take-All (IsAskedFor channel sender types rows) (list_limit limit config_limit) chosen
        asked in
    (all, omega (arith, few, list_limit_lem limit config_limit))
