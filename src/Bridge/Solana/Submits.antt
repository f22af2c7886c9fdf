-- ===== src/Bridge/Solana/Submits.antt =====
-- src/smart-contracts/use-cases/bridge/guardian/vaa.ts: which request `submitVAAToSolana` makes for a
-- payload, and what it has done when it returns or throws.
use kalvora_js.Common.{ℕ, ◌≡◌, ◌⊎◌, true, List, [], ◌∷◌, ok, Text}
use kalvora_js.Bridge.Payload.{
  SolanaCase, release_payload, mint_payload, contract_payload, other_payload, SolanaPayload,
}
use kalvora_js.Bridge.Run.{Answers}
use kalvora_js.Bridge.Solana.{
  Approval, Request, build_release_sol, build_release_spl, build_release_2022, build_mint_existing,
  build_mint_wrapped, Operation, release_spl, release_sol, release_2022, mint_wrapped, Call,
  mint_owner, Reply, SubmitOptions, Programs, guardian_signatures, is_native_sol,
}
use kalvora_js.Bridge.Solana.Order.{Sent}

-- What is moved, to whom, and on whose approval: of a request, and of a payload.
pub record Transfer : Type 0 where
  pub amount : ℕ
  pub recipient : Text
  pub txn_hash : Text
  pub signatures : List (Text × Text)
  pub signed_hash : Text

abbrev transfer : ℕ → Text → Approval → Transfer
transfer amount recipient a = record {
  amount = amount;
  recipient = recipient;
  txn_hash = a.txn_id;
  signatures = a.signatures;
  signed_hash = a.expected_hash;
}

abbrev pub requested : Request → Transfer
requested (build_release_sol amount recipient a usd) = transfer amount recipient a
requested (build_release_spl amount recipient mint a pricing) = transfer amount recipient a
requested (build_release_2022 amount recipient mint a pricing) = transfer amount recipient a
requested (build_mint_existing amount recipient contract a pricing) = transfer amount recipient a
requested (build_mint_wrapped amount recipient contract metadata a pricing) =
    transfer amount recipient a

abbrev approved_with : SolanaPayload → ℕ → Text → Text → Transfer
approved_with p amount recipient txn_hash = record {
  amount = amount;
  recipient = recipient;
  txn_hash = txn_hash;
  signatures = guardian_signatures p.signatures p.public_keys;
  signed_hash = p.signed_hash;
}

-- The transfer that the guardians signed; there is none for the other payloads.
abbrev pub Approves : SolanaPayload → SolanaCase → Transfer → Type 0
Approves p (release_payload r) t = t ≡ approved_with p r.amount r.solana_wallet_address r.txn_hash
Approves p (mint_payload m) t = t ≡ approved_with p m.amount m.solana_wallet_address m.txn_hash
Approves p (contract_payload c) t = t ≡ approved_with p c.amount c.solana_wallet_address c.txn_hash
Approves p other_payload t = ⊥

module _ {T E : Type 0} (answer : Answers (Call T) Reply E) (options : SubmitOptions)
    (programs : Programs) (now : ℕ) (p : SolanaPayload) where
  -- The operation for a payload, with the calls made before the request.
  abbrev pub Chooses : SolanaCase → Operation → List (Call T) → Type 0
  Chooses (release_payload r) op before =
      ((is_native_sol r ≡ true) × (op ≡ release_sol) × (before ≡ []))
      ⊎ ((before ≡ mint_owner r.solana_mint_address ∷ [])
          × (((answer (mint_owner r.solana_mint_address) [] ≡ ok programs.token_2022)
                × (op ≡ release_2022))
              ⊎ ((answer (mint_owner r.solana_mint_address) [] ≡ ok programs.token)
                  × (op ≡ release_spl))))
  Chooses (mint_payload m) op before = (op ≡ mint_wrapped) × (before ≡ [])
  Chooses (contract_payload c) op before = (op ≡ mint_wrapped) × (before ≡ [])
  Chooses other_payload op before = ⊥

  abbrev pub Submitted : SolanaCase → List (Call T) → Text → Operation → Type 0
  Submitted payload after signature op =
      (request : Request) × (before : List (Call T)) × Approves p payload (requested request)
      × Chooses payload op before
      × Sent answer options request before after signature
