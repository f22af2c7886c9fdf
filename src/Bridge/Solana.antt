-- ===== src/Bridge/Solana.antt =====
-- src/smart-contracts/use-cases/bridge/guardian/vaa.ts: `submitVAAToSolana`. The transaction builders,
-- the account look-up and the connection are components that it calls: their answers are a parameter.
pub mod Order
pub mod Cases
pub mod Submits
pub mod Fails
pub mod Signatures
use kalvora_js.Common.{
  ℕ, zero, suc, ◌/◌, Bool, true, false, not, ◌&&◌, ◌||◌, Option, none, some, List, [], ◌∷◌,
  if◌then◌else◌, Text, codes, text_eq,
}
use kalvora_js.Common.Int.{ℤ}
use kalvora_js.Js.Numerals.{parse_int_10}
use kalvora_js.Bridge.Payload.{
  SolanaRelease, SolanaMint, SolanaContract, SolanaCase, release_payload, mint_payload,
  contract_payload, other_payload, SolanaPayload,
}
use kalvora_js.Bridge.Run.{Run, Answers, Thrown, by_code, return, throw, ◌>>=◌, call}

-- What every builder is given of the approval.
pub record Approval : Type 0 where
  pub txn_id : Text
  pub timestamp : ℕ
  -- Signatures with their public keys.
  pub signatures : List (Text × Text)
  pub expected_hash : Text

pub record Pricing : Type 0 where
  pub usd_price_nano : ℕ
  pub liquidity_usd_nano : ℕ
  pub tier : ℕ

-- The metadata of a first mint; `none` is a count of decimals that is not a number.
pub record Metadata : Type 0 where
  pub decimals : Option ℤ
  pub name : Text
  pub symbol : Text
  pub uri : Text

-- A call of a builder: the amount, the recipient, then the mint or the contract.
pub data Request : Type 0 where
  build_release_sol : ℕ → Text → Approval → ℕ → Request
  build_release_spl build_release_2022 build_mint_existing :
      ℕ → Text → Text → Approval → Pricing → Request
  build_mint_wrapped : ℕ → Text → Text → Metadata → Approval → Pricing → Request

-- A Solana transaction: what was built, and the two fields that are set here.
pub record Transaction (T : Type 0) : Type 0 where
  pub content : T
  pub recent_blockhash : Text
  pub signed : Bool

pub data Operation : Type 0 where
  release_spl release_sol release_2022 mint_wrapped : Operation

pub data SubmitFailure : Type 0 where
  unsupported_program : Text → SubmitFailure
  unsupported_payload : SubmitFailure

-- The calls; the last argument of the two ways to send is `skipPreflight`.
pub data Call (T : Type 0) : Type 0 where
  build : Request → Call T
  mint_owner : Text → Call T
  latest_blockhash : Call T
  send_raw send_and_confirm : Transaction T → Bool → Call T

abbrev pub Reply : {T : Type 0} → Call T → Type 0
Reply {T} (build r) = Transaction T × Transaction T
Reply (mint_owner a) = Text
Reply latest_blockhash = Text
Reply (send_raw tx p) = Text
Reply (send_and_confirm tx p) = Text

-- The two program ids of the token package.
pub record Programs : Type 0 where
  pub token : Text
  pub token_2022 : Text

abbrev pub native_sol : Text
native_sol = codes "So11111111111111111111111111111111111111111"

-- Each signature with the key at its index, or the empty text.
unfoldable pub guardian_signatures : List Text → List Text → List (Text × Text)
guardian_signatures [] keys = []
guardian_signatures (sig ∷ sigs) [] = (sig, []) ∷ guardian_signatures sigs []
guardian_signatures (sig ∷ sigs) (key ∷ keys) = (sig, key) ∷ guardian_signatures sigs keys

-- `now` is `Date.now()`, in milliseconds.
unfoldable pub approval_of : ℕ → SolanaPayload → Text → Approval
approval_of now p txn_id = record {
  txn_id = txn_id;
  timestamp = elim p.timestamp [ none ↦ now / 1000 | some seconds ↦ seconds ];
  signatures = guardian_signatures p.signatures p.public_keys;
  expected_hash = p.signed_hash;
}

pub record SubmitOptions : Type 0 where
  pub skip_confirmation : Bool
  pub skip_preflight : Bool

abbrev pub sign : {T : Type 0} → Transaction T → Transaction T
sign tx = record { content = tx.content; recent_blockhash = tx.recent_blockhash; signed = true }

abbrev pub with_blockhash : {T : Type 0} → Text → Transaction T → Transaction T
with_blockhash blockhash tx = record {
  content = tx.content;
  recent_blockhash = blockhash;
  signed = tx.signed;
}

unfoldable pub is_native_sol : SolanaRelease → Bool
is_native_sol r = text_eq r.solana_mint_address [] || text_eq r.solana_mint_address native_sol

abbrev pub release_pricing : SolanaRelease → Pricing
release_pricing r = record {
  usd_price_nano = r.usd_amount;
  liquidity_usd_nano = r.liquidity_usd;
  tier = r.tier;
}

module _ {T E : Type 0} (answer : Answers (Call T) Reply E) (options : SubmitOptions) where
  abbrev pub Submit : Type 0 → Type 0
  Submit A = Run (Call T) (Thrown E SubmitFailure) A

  unfoldable pub send : Transaction T → Submit Text
  send tx =
      if options.skip_confirmation
      then call answer (send_raw tx options.skip_preflight)
      else call answer (send_and_confirm tx options.skip_preflight)

  -- The two transactions of a request: the verification, then the one that it allows, which gets a
  -- fresh blockhash.
  unfoldable pub submit_both : Request → Operation → Submit (Text × Operation)
  submit_both request operation = do
    built ← call answer (build request)
    verified ← send (sign built.0)
    blockhash ← call answer latest_blockhash
    signature ← send (sign (with_blockhash blockhash built.1))
    return (signature, operation)

  module _ (programs : Programs) (now : ℕ) (p : SolanaPayload) where
    -- The release of a token, once the owner of its mint is known.
    unfoldable pub submit_token_release : SolanaRelease → Text → Submit (Text × Operation)
    submit_token_release r owner =
        let approval = approval_of now p r.txn_hash in
        let pricing = release_pricing r in
        if not (text_eq owner programs.token) && not (text_eq owner programs.token_2022)
        then throw (by_code (unsupported_program owner))
        else if text_eq owner programs.token_2022
        then submit_both
            (build_release_2022 r.amount r.solana_wallet_address r.solana_mint_address approval
              pricing)
            release_2022
        else submit_both
            (build_release_spl r.amount r.solana_wallet_address r.solana_mint_address approval
              pricing)
            release_spl

    unfoldable pub submit_release : SolanaRelease → Submit (Text × Operation)
    submit_release r =
        if is_native_sol r
        then submit_both
            (build_release_sol r.amount r.solana_wallet_address (approval_of now p r.txn_hash)
              r.usd_amount)
            release_sol
        else (do
          owner ← call answer (mint_owner r.solana_mint_address)
          submit_token_release r owner)

    -- For a token that exists.
    unfoldable pub submit_mint : SolanaMint → Submit (Text × Operation)
    submit_mint m =
        submit_both
          (build_mint_existing m.amount m.solana_wallet_address m.kal_contract_id
            (approval_of now p m.txn_hash)
            (record {
              usd_price_nano = m.usd_amount;
              liquidity_usd_nano = m.liquidity_usd;
              tier = m.tier;
            }))
          mint_wrapped

    -- For the first mint of a token, with its metadata.
    unfoldable pub submit_contract : SolanaContract → Submit (Text × Operation)
    submit_contract c =
        submit_both
          (build_mint_wrapped c.amount c.solana_wallet_address c.kal_contract_id
            (record {
              decimals = parse_int_10 c.decimals;
              name = c.name;
              symbol = c.symbol;
              uri = c.uri;
            })
            (approval_of now p c.txn_hash)
            (record {
              usd_price_nano = c.usd_amount;
              liquidity_usd_nano = c.liquidity_usd;
              tier = c.tier;
            }))
          mint_wrapped

    -- Everything behind the fetch: the signature and the operation that are returned.
    unfoldable pub submit_payload : Submit (Text × Operation)
    submit_payload = elim p.payload [
      | release_payload r ↦ submit_release r
      | mint_payload m ↦ submit_mint m
      | contract_payload c ↦ submit_contract c
      | other_payload ↦ throw (by_code unsupported_payload)
    ]
