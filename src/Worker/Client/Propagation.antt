-- ===== src/Worker/Client/Propagation.antt =====
-- What the worker collects can be propagated on every chain it collected.
use adex_validator_stack_rus.Prelude.{
  map, ℕ, ◌≡◌, refl, ap, subst, ◌↔◌, inl, inr, true, false, not, ◌&&◌, none, some, List, [], ◌∷◌,
  arith, ◌==◌, Bool-cases, Option-cases, length, All, ok, or_default,
}
use adex_validator_stack_rus.BalancesMap.{Map, get, contains_key, insert, from_iter}
use adex_validator_stack_rus.BalancesMap.Lookup.{get-insert}
use adex_validator_stack_rus.Channel.{ValidatorId}
use adex_validator_stack_rus.Campaign.{
  Campaign, ChainInfo, ChainOf, iter, find_token, find_chain_of,
}
use adex_validator_stack_rus.Worker.Messages.{PropagationResult}
use adex_validator_stack_rus.Worker.Client.Defs.{
  ChainValidators, ChainsValidators, Context, Setup, PropagationValidator, or_insert, whoami_of,
  with_propagate, propagate, targets_of, add_validators, insert_context, collect_campaign,
  collect_channels,
}

abbrev Has : {V : Type 0} → ℕ → Map V → Type 0
Has k m = contains_key k m ≡ true

insert-Has : {V : Type 0} → (i k : ℕ) (v : V) (m : Map V) → Has i m → Has i (insert k v m)
insert-Has i k v m h = ground (arith, get-insert i k v m)

insert-Has_same : {V : Type 0} → (k : ℕ) (v : V) (m : Map V) → Has k (insert k v m)
insert-Has_same k v m = ground (arith, get-insert k k v m)

or_insert-Has : {V : Type 0} → (k : ℕ) (v : V) (m : Map V) → Has k (or_insert k v m)
or_insert-Has k v m = ground (arith, insert-Has_same k v m)

-- Every key of the first map is one of the second.
abbrev IsWithin : {V W : Type 0} → Map W → Map V → Type 0
IsWithin w m = All (λ e. Has e.0 w) m

insert-IsWithin :
    {V W : Type 0}
    → (w : Map W) (k : ℕ) (v : V) (m : Map V) → Has k w
    → IsWithin w m
    → IsWithin w (insert k v m)
unfolding insert
insert-IsWithin w k v [] h a = (h, tt)
insert-IsWithin w k v ((j, u) ∷ m) h a = ground (arith, insert-IsWithin w k v m h a.1)

module _ (x : Setup) where
  whoami_of-Has :
      (k : ℕ) (infos : List ChainInfo) (m w : ChainValidators)
      → Has k m
      → whoami_of x infos m ≡ ok w
      → Has k w
  unfolding whoami_of
  whoami_of-Has k [] m w h e = ground arith
  whoami_of-Has k (info ∷ infos) m w h e = elim (Option-cases (x.get_auth info.chain x.me)) [
    | inl missing ↦ absurd (ground arith)
    | inr (token, found) ↦
        let v : PropagationValidator = record { url = x.sentry_url; token = token } in
        whoami_of-Has k infos (insert info.chain v m) w (insert-Has k info.chain v m h)
          (ground arith)
  ]

  -- The chain of a configured token is one of `whoami`.
  whoami_of-chain :
      (token : ℕ) (chain : ChainOf) (infos : List ChainInfo) (m w : ChainValidators)
      → find_chain_of token infos ≡ some chain
      → whoami_of x infos m ≡ ok w
      → Has chain.chain w
  unfolding whoami_of find_chain_of
  whoami_of-chain token chain [] m w f e = absurd (ground arith)
  whoami_of-chain token chain (info ∷ infos) m w f e =
      elim (Option-cases (x.get_auth info.chain x.me)) [
        | inl missing ↦ absurd (ground arith)
        | inr (auth, found) ↦
            let v : PropagationValidator = record { url = x.sentry_url; token = auth } in
            let next : whoami_of x infos (insert info.chain v m) ≡ ok w = ground arith in
            elim (Option-cases (find_token token info.tokens)) [
              | inl none_here ↦
                  whoami_of-chain token chain infos (insert info.chain v m) w (ground arith) next
              | inr (t, here) ↦
                  let shown : some (record { chain = info.chain; token = t }) ≡ some chain =
                    ground arith in
                  let same : info.chain ≡ chain.chain =
                    ap (λ o. elim o [ none ↦ 0 | some c ↦ c.chain ]) shown in
                  subst (λ k. Has k w) same
                    (whoami_of-Has info.chain infos (insert info.chain v m) w
                      (insert-Has_same info.chain v m) next)
            ]
      ]

  -- The chains of the collected channels have validators, and are chains of `whoami`.
  abbrev IsCollected : ChainValidators → ChainsValidators × List Context → Type 0
  IsCollected w (validators, channels) =
      IsWithin w validators × All (λ c. Has c.chain.chain validators) channels

  channels-Has :
      (k : ℕ) (vs : ChainValidators) (validators : ChainsValidators) (channels : List Context)
      → All (λ c. Has c.chain.chain validators) channels
      → All (λ c. Has c.chain.chain (insert k vs validators)) channels
  channels-Has k vs validators [] a = tt
  channels-Has k vs validators (c ∷ channels) a =
      (insert-Has c.chain.chain k vs validators a.0, channels-Has k vs validators channels a.1)

  insert_context-Has :
      (validators : ChainsValidators) (c : Context) (cs : List Context)
      → Has c.chain.chain validators
      → All (λ d. Has d.chain.chain validators) cs
      → All (λ d. Has d.chain.chain validators) (insert_context x c cs)
  unfolding insert_context
  insert_context-Has validators c cs h a = ground arith

  collect_campaign-IsCollected :
      (w : ChainValidators) (c : Campaign) (q : ChainsValidators × List Context)
      → whoami_of x x.chains [] ≡ ok w
      → IsCollected w q
      → IsCollected w (collect_campaign x c q)
  unfolding collect_campaign
  collect_campaign-IsCollected w c (validators, channels) e (a, b) =
      elim (Option-cases (find_chain_of c.channel.token x.chains)) [
        | inl missing ↦ rw (missing, collect_campaign) (a, b)
        | inr (chain, found) ↦
            let vs =
              add_validators x chain.chain (iter c.validators)
                (or_default [] (get chain.chain validators)) in
            rw (found, collect_campaign)
              (
                insert-IsWithin w chain.chain vs validators
                    (whoami_of-chain c.channel.token chain x.chains [] w found e) a,
                insert_context-Has (insert chain.chain vs validators)
                    (record { chain = chain; channel = c.channel }) channels
                    (insert-Has_same chain.chain vs validators)
                    (channels-Has chain.chain vs validators channels b),
              )
      ]

  collect_channels-IsCollected :
      (w : ChainValidators) (cs : List Campaign) (q : ChainsValidators × List Context)
      → whoami_of x x.chains [] ≡ ok w
      → IsCollected w q
      → IsCollected w (collect_channels x cs q)
  unfolding collect_channels
  collect_channels-IsCollected w [] q e a = a
  collect_channels-IsCollected w (c ∷ cs) q e a =
      collect_channels-IsCollected w cs (collect_campaign x c q) e
        (collect_campaign-IsCollected w c q e a)

  -- The validators of a chain, with this one among them.
  abbrev IsReady : ChainsValidators → ℕ → Type 0
  IsReady chains k = (m : ChainValidators) × (get k chains ≡ some m) × Has x.me m

  with_propagate_lem :
      (w : ChainValidators) (validators : ChainsValidators)
      → IsWithin w validators
      → (chains : ChainsValidators) × (with_propagate x w validators ≡ ok chains)
        × ((k : ℕ) → Has k validators → IsReady chains k)
  unfolding with_propagate get
  with_propagate_lem w [] a = ([], refl, λ k h. absurd (ground arith))
  with_propagate_lem w ((chain, vs) ∷ rest) a = elim (Option-cases (get chain w)) [
    | inl missing ↦ absurd (ground arith)
    | inr (v, found) ↦
        let (done, e, ready) = with_propagate_lem w rest a.1 in
        (
          (chain, or_insert x.me v vs) ∷ done,
          ground arith,
          λ k h. elim (Bool-cases (k == chain)) [
            | inl same ↦ (or_insert x.me v vs, ground arith, or_insert-Has x.me v vs)
            | inr other ↦ let (m, g, has) = ready k (ground arith) in (m, ground arith, has)
          ],
        )
  ]

  chains_served :
      (chains validators : ChainsValidators)
      → ((k : ℕ) → Has k validators → IsReady chains k)
      → (channels : List Context) → All (λ c. Has c.chain.chain validators) channels
      → All (λ c. IsReady chains c.chain.chain) channels
  chains_served chains validators ready [] a = tt
  chains_served chains validators ready (c ∷ channels) a =
      (ready c.chain.chain a.0, chains_served chains validators ready channels a.1)

  -- Where this validator has a token for every configured chain: the validators collected from any
  -- campaigns are accepted for propagation, and on the chain of every channel collected with them
  -- there are validators, this one among them.
  pub collect_channels-with_propagate :
      (w : ChainValidators) (campaigns : List Campaign)
      → whoami_of x x.chains [] ≡ ok w
      → let (validators, channels) = collect_channels x campaigns ([], []) in
        (chains : ChainsValidators) × (with_propagate x w validators ≡ ok chains)
        × All (λ c. IsReady chains c.chain.chain) channels
  collect_channels-with_propagate w campaigns e =
      let collected = collect_channels-IsCollected w campaigns ([], []) e (tt, tt) in
      let (chains, done, ready) =
        with_propagate_lem w (collect_channels x campaigns ([], [])).0 collected.0 in
      (
        chains,
        done,
        chains_served chains (collect_channels x campaigns ([], [])).0 ready
            (collect_channels x campaigns ([], [])).1 collected.1,
      )

insert_two :
    {V : Type 0} → (a b : ℕ) (v w : V) → (length (insert b w (insert a v [])) == 2) ≡ not (a == b)
unfolding insert
insert_two a b v w = ground arith

-- Both validators are found exactly if they are there and differ.
found_two :
    (a b : ℕ) (m : ChainValidators)
    → (length (from_iter (targets_of (a ∷ b ∷ []) m) []) == 2)
      ≡ (contains_key a m && contains_key b m && not (a == b))
unfolding targets_of from_iter insert
found_two a b m = elim (Option-cases (get a m)) [
  | inl p ↦ elim (Option-cases (get b m)) [ inl q ↦ ground arith | inr (w, q) ↦ ground arith ]
  | inr (v, p) ↦ elim (Option-cases (get b m)) [
    | inl q ↦ ground arith
    | inr (w, q) ↦ ground (arith, insert_two a b v w)
  ]
]

-- Messages are sent for a channel on a chain with validators exactly if both validators of the
-- channel are among them and differ; otherwise nothing is sent.
pub propagate_iff :
    (send : ValidatorId → PropagationValidator → PropagationResult) (chains : ChainsValidators)
    (c : Context) (m : ChainValidators)
    → get c.chain.chain chains ≡ some m
    → ((results : List PropagationResult) × (propagate send chains c ≡ ok results)) ↔ (
        Has c.channel.leader m
        × Has c.channel.follower m
        × ((c.channel.leader == c.channel.follower) ≡ false))
unfolding propagate
propagate_iff send chains c m h =
    let two = found_two c.channel.leader c.channel.follower m in
    (
      λ (results, e). ground (arith, two),
      λ (l, f, d). (
        map (λ e. send e.0 e.1)
            (from_iter (targets_of (c.channel.leader ∷ c.channel.follower ∷ []) m) []),
        ground (arith, two),
      ),
    )
