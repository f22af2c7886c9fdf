-- ===== src/Bridge/Solana/Fails.antt =====
-- src/smart-contracts/use-cases/bridge/guardian/vaa.ts: what `submitVAAToSolana` has done when it throws.
use kalvora_js.Common.{ℕ, ◌≡◌, ◌≢◌, ◌⊎◌, inl, inr, refl, sym, ap, ◌∙◌, List, [], ◌∷◌, ok, err, Text}
use kalvora_js.Bridge.Payload.{
  SolanaRelease, SolanaCase, release_payload, mint_payload, contract_payload, other_payload,
  SolanaPayload,
}
use kalvora_js.Bridge.Run.{Answers, Thrown, by_code, call, bind-err, call-ok}
use kalvora_js.Bridge.Solana.{
  release_spl, release_sol, release_2022, mint_wrapped, SubmitFailure, unsupported_program,
  unsupported_payload, Call, mint_owner, Reply, SubmitOptions, Programs, submit_release,
  submit_mint, submit_contract, submit_payload,
}
use kalvora_js.Bridge.Solana.Order.{LastFailed, submit_both-LastFailed, call-LastFailed}
use kalvora_js.Bridge.Solana.Cases.{
  request_2022, request_spl, request_sol, token_run, by_owner, release_run, request_mint,
  request_contract, case_run, submit_payload-case_run,
}

module _ {T E : Type 0} (answer : Answers (Call T) Reply E) (options : SubmitOptions)
    (programs : Programs) (now : ℕ) (p : SolanaPayload) where
  -- Refused by the code itself: nothing was built or sent.
  abbrev pub Refused : SolanaCase → List (Call T) → Thrown E SubmitFailure → Type 0
  Refused other_payload after t = (after ≡ []) × (t ≡ by_code unsupported_payload)
  Refused (release_payload r) after t =
      (owner : Text) × (after ≡ mint_owner r.solana_mint_address ∷ [])
      × (answer (mint_owner r.solana_mint_address) [] ≡ ok owner)
      × (owner ≢ programs.token)
      × (owner ≢ programs.token_2022)
      × (t ≡ by_code (unsupported_program owner))
  Refused _ after t = ⊥

  release_failed :
      (r : SolanaRelease) (after : List (Call T)) (t : Thrown E SubmitFailure)
      → submit_release answer options programs now p r [] ≡ (after, err t)
      → LastFailed answer options after t ⊎ Refused (release_payload r) after t
  release_failed r after t h = elim (release_run answer options programs now p r) [
    | inl (native, run) ↦ inl (
        submit_both-LastFailed answer options (request_sol answer options programs now p r)
          release_sol [] after t (ap (λ f. f []) (sym run) ∙ h))
    | inr run ↦
        elim (bind-err (call answer (mint_owner r.solana_mint_address))
          (token_run answer options programs now p r) [] after t (ap (λ f. f []) (sym run) ∙ h)) [
            | inl failed ↦ inl (
                call-LastFailed answer options (mint_owner r.solana_mint_address) [] after t failed)
            | inr (owner, calls, owned, h') ↦
                let (answered_ok, made) =
                  call-ok answer (mint_owner r.solana_mint_address) [] calls owner owned in
                elim (by_owner answer options programs now p r owner) [
                  | inl (newer, run') ↦ inl (
                      submit_both-LastFailed answer options
                        (request_2022 answer options programs now p r) release_2022 calls after t
                        (ap (λ f. f calls) (sym run') ∙ h'))
                  | inr (inl (classic, run')) ↦ inl (
                      submit_both-LastFailed answer options
                        (request_spl answer options programs now p r) release_spl calls after t
                        (ap (λ f. f calls) (sym run') ∙ h'))
                  | inr (inr (not_token, not_2022, run')) ↦
                      let thrown = ap (λ f. f calls) (sym run') ∙ h' in
                      inr (
                        owner,
                        sym (ap (λ r. r.0) thrown) ∙ made,
                        answered_ok,
                        not_token,
                        not_2022,
                        cc thrown,
                      )
                ]
          ]
  ]

  case_failed :
      (payload : SolanaCase) (after : List (Call T)) (t : Thrown E SubmitFailure)
      → case_run answer options programs now p payload [] ≡ (after, err t)
      → LastFailed answer options after t ⊎ Refused payload after t
  unfolding case_run submit_mint submit_contract request_mint request_contract
  case_failed (release_payload r) after t h = release_failed r after t h
  case_failed (mint_payload m) after t h = inl (
      submit_both-LastFailed answer options (request_mint answer options programs now p m)
        mint_wrapped [] after t h)
  case_failed (contract_payload c) after t h = inl (
      submit_both-LastFailed answer options (request_contract answer options programs now p c)
        mint_wrapped [] after t h)
  case_failed other_payload after t h = inr (cc h, cc h)

  -- A submission that throws stops there: either the last call made is the one that failed, and its
  -- error is thrown; or the code refused the payload before anything was built, for its kind or for
  -- the owner of its mint.
  pub submit_payload-fails :
      (after : List (Call T)) (t : Thrown E SubmitFailure)
      → submit_payload answer options programs now p [] ≡ (after, err t)
      → LastFailed answer options after t ⊎ Refused p.payload after t
  submit_payload-fails after t h = case_failed p.payload after t (
      ap (λ f. f []) (sym (submit_payload-case_run answer options programs now p p.payload refl))
      ∙ h)
