-- ===== src/Tests/Listing.antt =====
-- The theorems on the listing of channels at concrete data.
use adex_validator_stack_rus.Prelude.{
  ℕ, ◌≡◌, refl, sym, ap, ◌≢◌, inl, inr, true, some, List, [], ◌∷◌, ◌++◌, arith, IsIn, ok,
}
use adex_validator_stack_rus.Channel.{Channel}
use adex_validator_stack_rus.Sentry.Channels.Pages.{Page}
use adex_validator_stack_rus.Sentry.Channels.Listing.{
  ChannelRow, insert_listed, channels_where, channel_list,
}
use adex_validator_stack_rus.Sentry.Channels.Skipped.{all_at, channels, channel_list_skips}
use adex_validator_stack_rus.Worker.Client.Channels.{all_channels, all_channels-IsIn}
use adex_validator_stack_rus.Tests.Data.{channel}

-- The channel with another nonce.
abbrev row_at : ℕ → ChannelRow
row_at n = record { channel = record channel { nonce = n }; chain_id = 1 }

abbrev three : List ChannelRow
three = row_at 0 ∷ row_at 1 ∷ row_at 2 ∷ []

all_channels-IsIn_example :
    (channels : List Channel) × (all_channels 2 three 2 ≡ some channels)
    × IsIn (row_at 2).channel channels
unfolding channels_where
all_channels-IsIn_example =
    all_channels-IsIn 2 three 2 (row_at 2) (omega arith) (omega arith) (inr (inr (inl refl)))
      (inr refl)

other_nonce : (n : ℕ) → n ≢ 1 → ¬ ((row_at 1).channel ≡ (row_at n).channel)
other_nonce n h e = h (sym (ap (λ (c : Channel). c.nonce) e))

not_others : ¬ IsIn (row_at 1).channel (channels (row_at 0 ∷ row_at 2 ∷ row_at 0 ∷ []))
not_others (inl e) = other_nonce 0 (λ z. omega (arith, z)) e
not_others (inr (inl e)) = other_nonce 2 (λ z. omega (arith, z)) e
not_others (inr (inr (inl e))) = other_nonce 0 (λ z. omega (arith, z)) e
not_others (inr (inr (inr h))) = h

-- With one channel to a page: the first row is inserted again, and the second is skipped.
channel_list_skips_example :
    (first second : Page Channel) × (channel_list true 1 three (all_at 0) ≡ ok first)
    × (channel_list true 1 (insert_listed (row_at 0) three) (all_at 1) ≡ ok second)
    × (¬ IsIn (row_at 1).channel (first.items ++ second.items))
    × IsIn (row_at 1) (insert_listed (row_at 0) three)
channel_list_skips_example =
    channel_list_skips (row_at 0) (row_at 1) [] (row_at 2 ∷ []) (omega arith) not_others
