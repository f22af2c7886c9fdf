-- ===== src/Bridge/Solana/Cases.antt =====
-- src/smart-contracts/use-cases/bridge/guardian/vaa.ts: the branches of `submitVAAToSolana`, by the kind
-- of the payload and by the owner of the mint.
use kalvora_js.Common.{
  ℕ, ◌≡◌, ◌≢◌, ◌⊎◌, inl, inr, refl, true, Text, text_eq, text_eq_iff, Bool-cases,
}
use kalvora_js.Js.Numerals.{parse_int_10}
use kalvora_js.Bridge.Payload.{
  SolanaRelease, SolanaMint, SolanaContract, SolanaCase, release_payload, mint_payload,
  contract_payload, other_payload, SolanaPayload,
}
use kalvora_js.Bridge.Run.{Answers, by_code, throw, ◌>>=◌, call}
use kalvora_js.Bridge.Solana.{
  Request, build_release_sol, build_release_spl, build_release_2022, build_mint_existing,
  build_mint_wrapped, Operation, release_spl, release_sol, release_2022, unsupported_program,
  unsupported_payload, Call, mint_owner, Reply, SubmitOptions, Programs, Submit, submit_both,
  approval_of, is_native_sol, release_pricing, submit_token_release, submit_release, submit_mint,
  submit_contract, submit_payload,
}

module _ {T E : Type 0} (answer : Answers (Call T) Reply E) (options : SubmitOptions)
    (programs : Programs) (now : ℕ) (p : SolanaPayload) where
  abbrev pub request_2022 : SolanaRelease → Request
  request_2022 r =
      build_release_2022 r.amount r.solana_wallet_address r.solana_mint_address
        (approval_of now p r.txn_hash) (release_pricing r)

  abbrev pub request_spl : SolanaRelease → Request
  request_spl r =
      build_release_spl r.amount r.solana_wallet_address r.solana_mint_address
        (approval_of now p r.txn_hash) (release_pricing r)

  abbrev pub request_sol : SolanaRelease → Request
  request_sol r =
      build_release_sol r.amount r.solana_wallet_address (approval_of now p r.txn_hash) r.usd_amount

  unfoldable pub token_run : SolanaRelease → Text → Submit answer options (Text × Operation)
  token_run r owner = submit_token_release answer options programs now p r owner

  -- The release of a token goes by the owner of its mint.
  pub by_owner :
      (r : SolanaRelease) (owner : Text)
      → ((owner ≡ programs.token_2022)
          × (token_run r owner ≡ submit_both answer options (request_2022 r) release_2022))
        ⊎ ((owner ≡ programs.token)
            × (token_run r owner ≡ submit_both answer options (request_spl r) release_spl))
        ⊎ ((owner ≢ programs.token)
            × (owner ≢ programs.token_2022)
            × (token_run r owner ≡ throw (by_code (unsupported_program owner))))
  unfolding token_run submit_token_release
  by_owner r owner = elim (Bool-cases (text_eq owner programs.token_2022)) [
    | inl newer ↦ inl (
      (text_eq_iff owner programs.token_2022).0 newer,
      elim (Bool-cases (text_eq owner programs.token)) [
        | inl classic ↦ rw (classic, newer) refl
        | inr other ↦ rw (other, newer) refl
      ],
    )
    | inr older ↦ elim (Bool-cases (text_eq owner programs.token)) [
      | inl classic ↦
          inr (inl ((text_eq_iff owner programs.token).0 classic, rw (classic, older) refl))
      | inr neither ↦ inr (
          inr (
            λ e. cc (neither, (text_eq_iff owner programs.token).1 e),
            λ e. cc (older, (text_eq_iff owner programs.token_2022).1 e),
            rw (neither, older) refl,
          ))
    ]
  ]

  pub release_run :
      (r : SolanaRelease)
      → ((is_native_sol r ≡ true)
          × (submit_release answer options programs now p r
              ≡ submit_both answer options (request_sol r) release_sol))
        ⊎ (submit_release answer options programs now p r
            ≡ (call answer (mint_owner r.solana_mint_address) >>= token_run r))
  unfolding submit_release token_run
  release_run r = elim (Bool-cases (is_native_sol r)) [
    | inl native ↦ inl (native, rw native refl)
    | inr token ↦ inr (rw token refl)
  ]

  unfoldable pub request_mint : SolanaMint → Request
  request_mint m =
      build_mint_existing m.amount m.solana_wallet_address m.kal_contract_id
        (approval_of now p m.txn_hash)
        (record {
          usd_price_nano = m.usd_amount;
          liquidity_usd_nano = m.liquidity_usd;
          tier = m.tier;
        })

  unfoldable pub request_contract : SolanaContract → Request
  request_contract c =
      build_mint_wrapped c.amount c.solana_wallet_address c.kal_contract_id
        (record {
          decimals = parse_int_10 c.decimals;
          name = c.name;
          symbol = c.symbol;
          uri = c.uri;
        })
        (approval_of now p c.txn_hash)
        (record {
          usd_price_nano = c.usd_amount;
          liquidity_usd_nano = c.liquidity_usd;
          tier = c.tier;
        })

  unfoldable pub case_run : SolanaCase → Submit answer options (Text × Operation)
  case_run (release_payload r) = submit_release answer options programs now p r
  case_run (mint_payload m) = submit_mint answer options programs now p m
  case_run (contract_payload c) = submit_contract answer options programs now p c
  case_run other_payload = throw (by_code unsupported_payload)

  pub submit_payload-case_run :
      (payload : SolanaCase)
      → p.payload ≡ payload
      → submit_payload answer options programs now p ≡ case_run payload
  unfolding submit_payload case_run
  submit_payload-case_run (release_payload r) is = rw is refl
  submit_payload-case_run (mint_payload m) is = rw is refl
  submit_payload-case_run (contract_payload c) is = rw is refl
  submit_payload-case_run other_payload is = rw is refl
