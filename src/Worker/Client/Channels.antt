-- ===== src/Worker/Client/Channels.antt =====
-- The channels that `all_channels` of sentry_interface.rs gets from the server.
use adex_validator_stack_rus.Prelude.{
  ℕ, ◌+◌, ◌≤◌, ◌<◌, ◌≡◌, refl, ap, ◌∙◌, subst, ◌⊎◌, inl, inr, Bool, true, false, Option, none, some,
  List, [], ◌∷◌, arith, if◌then◌else◌, Option-cases, length, IsIn, Outcome, returns, panics, Result,
  ok,
}
use adex_validator_stack_rus.Prelude.U64
use mathlib.Core.Path.{fun_ext}
use adex_validator_stack_rus.Channel.{Channel, ValidatorId}
use adex_validator_stack_rus.Sentry.Routes.Tables.{ResponseError}
use adex_validator_stack_rus.Sentry.Channels.Pages.{Page, requested, get_all_spendables_for_channel}
use adex_validator_stack_rus.Sentry.Channels.Listing.{
  ChannelRow, of_validator, channels_where, list_channels, channel_list,
}
use adex_validator_stack_rus.Worker.Client.Pages.{all_items}
use adex_validator_stack_rus.Worker.Client.Paging.{all_items-requested}

-- What a response is read as.
abbrev pub page_of : Result ResponseError (Page Channel) → Option (Page Channel)
page_of (ok p) = some p
page_of _ = none

-- `fetch_page`: the channels in which the worker is a validator, whatever their chain.
unfoldable pub fetch_page : ℕ → List ChannelRow → ValidatorId → ℕ → Option (Page Channel)
unfolding channel_list
fetch_page channels_find rows whoami i = page_of (
    channel_list true channels_find rows
      (record { page = i; validator = some whoami; chains = [] }))

-- `all_channels`
unfoldable pub all_channels : ℕ → List ChannelRow → ValidatorId → Option (List Channel)
unfolding all_items fetch_page
all_channels channels_find rows whoami = all_items (fetch_page channels_find rows whoami)

page_cases : {A : Type 0} → (o : Outcome A) → (o ≡ panics) ⊎ ((p : A) × (o ≡ returns p))
page_cases panics = inl refl
page_cases (returns p) = inr (p, refl)

fetch_page-requested :
    (channels_find : ℕ) (rows : List ChannelRow) (whoami : ValidatorId) (i : ℕ)
    → fetch_page channels_find rows whoami i
      ≡ requested (channels_where (some whoami) [] rows) channels_find i
unfolding fetch_page channel_list list_channels requested
fetch_page-requested channels_find rows whoami i =
    elim (Option-cases (U64.checked_mul i channels_find)) [
      | inl large ↦ ground arith
      | inr (skip, e) ↦
          elim (page_cases (
            get_all_spendables_for_channel (channels_where (some whoami) [] rows) skip
              channels_find)) [ inl panic ↦ ground arith | inr (p, found) ↦ ground arith ]
    ]

taken-IsIn :
    (b : Bool) (c : Channel) (cs : List Channel) → b ≡ true → IsIn c (if b then c ∷ cs else cs)
taken-IsIn true c cs h = inl refl
taken-IsIn false c cs h = absurd (ground arith)

passed-IsIn :
    (b : Bool) (c d : Channel) (cs : List Channel) → IsIn c cs → IsIn c (if b then d ∷ cs else cs)
passed-IsIn true c d cs h = inr h
passed-IsIn false c d cs h = h

of_either :
    (v : ValidatorId) (c : Channel)
    → (c.leader ≡ v) ⊎ (c.follower ≡ v)
    → of_validator (some v) c ≡ true
of_either v c (inl h) = ground arith
of_either v c (inr h) = ground arith

channels_where-IsIn :
    (whoami : ValidatorId) (r : ChannelRow) (rows : List ChannelRow)
    → IsIn r rows
    → (r.channel.leader ≡ whoami) ⊎ (r.channel.follower ≡ whoami)
    → IsIn r.channel (channels_where (some whoami) [] rows)
unfolding channels_where
channels_where-IsIn whoami r [] h w = absurd h
channels_where-IsIn whoami r (x ∷ rows) (inl same) w =
    subst (λ z. IsIn r.channel (channels_where (some whoami) [] (z ∷ rows))) same
      (taken-IsIn (of_validator (some whoami) r.channel) r.channel
        (channels_where (some whoami) [] rows) (of_either whoami r.channel w))
channels_where-IsIn whoami r (x ∷ rows) (inr h) w =
    passed-IsIn (of_validator (some whoami) x.channel) r.channel x.channel
      (channels_where (some whoami) [] rows) (channels_where-IsIn whoami r rows h w)

-- With a limit of the server above zero, and as long as the channels of the worker and the limit
-- together fit 64 bits, the pages that the worker joins hold every channel of the table that it is
-- the leader or the follower of.
pub all_channels-IsIn :
    (channels_find : ℕ) (rows : List ChannelRow) (whoami : ValidatorId) (r : ChannelRow)
    → 0 < channels_find
    → length (channels_where (some whoami) [] rows) + channels_find ≤ U64.max_value
    → IsIn r rows
    → (r.channel.leader ≡ whoami) ⊎ (r.channel.follower ≡ whoami)
    → (channels : List Channel) × (all_channels channels_find rows whoami ≡ some channels)
      × IsIn r.channel channels
unfolding all_channels
all_channels-IsIn channels_find rows whoami r l h k w = (
  channels_where (some whoami) [] rows,
  ap all_items (fun_ext (fetch_page-requested channels_find rows whoami))
      ∙ all_items-requested (channels_where (some whoami) [] rows) channels_find l h,
  channels_where-IsIn whoami r rows k w,
)
