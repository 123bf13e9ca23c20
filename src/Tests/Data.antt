-- ===== src/Tests/Data.antt =====
-- The data that the examples share: balances, a channel, and answers of Sentry.
use adex_validator_stack_rus.Prelude.{
  refl, true, none, some, [], ◌∷◌, arith, length, total, release,
}
use adex_validator_stack_rus.Balances.{Balances}
use adex_validator_stack_rus.Balances.Spend.{IsChecked}
use adex_validator_stack_rus.Channel.{Channel}
use adex_validator_stack_rus.StateRoot.{Hashing}
use adex_validator_stack_rus.Worker.Messages.{NewState, new_state}
use adex_validator_stack_rus.Worker.Sentry.{SentryApi}

abbrev pub hashing : Hashing
hashing = record {
  digest = λ tokens. length tokens;
  tree_root = λ leaves. total leaves;
  hex_encode = λ hash. "root";
}

-- Spender 7 has spent 5; 8 and 9 have earned it.
abbrev pub two : Balances
two = record { earners = (8, 3) ∷ (9, 2) ∷ []; spenders = (7, 5) ∷ [] }

abbrev pub two_IsChecked : IsChecked two
two_IsChecked = record {
  ordered = record { earners_sorted = ((omega arith, tt), (tt, tt)); spenders_sorted = (tt, tt) };
  balanced = refl;
}

abbrev pub channel : Channel
channel = record { leader = 1; follower = 2; guardian = 3; token = 4; nonce = 0 }

-- The proposal of the balances, with the root that `hashing` makes.
abbrev pub proposal : NewState
proposal = record { state_root = "root"; signature = "leader"; balances = two }

abbrev pub api : SentryApi
api = record {
  build = release;
  hashing = hashing;
  channel = channel;
  token_precision = 18;
  now = 1000;
  heartbeat_time = 10;
  health_threshold_promilles = 950;
  health_unsignable_promilles = 750;
  latest_new_state = some (some (new_state proposal));
  our_latest_response = some none;
  our_latest_new_state = some none;
  our_latest_heartbeat = some none;
  last_approved = some none;
  verify = λ signer root signature. some true;
  sign = λ root. some "follower";
  propagate = λ message. some [];
}
