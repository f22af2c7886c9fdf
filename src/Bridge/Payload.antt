-- ===== src/Bridge/Payload.antt =====
-- src/smart-contracts/use-cases/bridge/guardian/vaa.ts: the guardian's messages, and what
-- `fetchSolanaVAA` and `fetchKalvoraVAA` make of a response.
use kalvora_js.Common.{
  ℕ, Bool, Option, none, some, List, map, Result, ok, err, ◌>>=◌, if◌then◌else◌, Text,
}
use kalvora_js.Bridge.Dedup.{VaaError, deduplicate_vaa}
use kalvora_js.Bridge.Retry.{RetryOptions, Attempts, fetch_with_retry}

pub record SolanaRelease : Type 0 where
  pub amount : ℕ
  pub solana_wallet_address : Text
  pub solana_mint_address : Text
  pub txn_hash : Text
  pub usd_amount : ℕ
  pub liquidity_usd : ℕ
  pub tier : ℕ

pub record SolanaMint : Type 0 where
  pub kal_contract_id : Text
  pub solana_wallet_address : Text
  pub amount : ℕ
  pub txn_hash : Text
  pub usd_amount : ℕ
  pub liquidity_usd : ℕ
  pub tier : ℕ

pub record SolanaContract : Type 0 where
  pub kal_contract_id : Text
  pub solana_wallet_address : Text
  pub amount : ℕ
  pub decimals : Text
  pub name : Text
  pub symbol : Text
  pub uri : Text
  pub txn_hash : Text
  pub usd_amount : ℕ
  pub liquidity_usd : ℕ
  pub tier : ℕ

-- The `payload` of a Solana payload; the cases that are not submitted are one here.
pub data SolanaCase : Type 0 where
  release_payload : SolanaRelease → SolanaCase
  mint_payload : SolanaMint → SolanaCase
  contract_payload : SolanaContract → SolanaCase
  other_payload : SolanaCase

pub record SolanaPayload : Type 0 where
  pub payload : SolanaCase
  pub signatures : List Text
  pub public_keys : List Text
  -- The seconds of the timestamp, where it is set.
  pub timestamp : Option ℕ
  pub signed_hash : Text

-- The part of the three messages for Kalvora that is read here, the wallet address.
pub data KalvoraCase : Type 0 where
  kal_release kal_mint kal_contract : Text → KalvoraCase
  kal_other : KalvoraCase

pub record KalvoraPayload : Type 0 where
  pub payload : KalvoraCase
  pub signatures : List Text
  pub public_keys : List Text

pub data Response : Type 0 where
  solana_payload : SolanaPayload → Response
  kalvora_payload : KalvoraPayload → Response
  no_payload : Response

-- `E` is what the gRPC client throws.
pub data FetchError (E : Type 0) : Type 0 where
  client_error : E → FetchError E
  unexpected_payload : FetchError E
  integrity : VaaError → FetchError E

abbrev lift : {A E : Type 0} → Result VaaError A → Result (FetchError E) A
lift (ok a) = ok a
lift (err e) = err (integrity e)

abbrev received : {E : Type 0} → Result E Response → Result (FetchError E) Response
received (ok r) = ok r
received (err e) = err (client_error e)

-- `doFetch` of `fetchSolanaVAA`, on the answer of the client.
unfoldable pub solana_of_response : {E : Type 0} → Response → Result (FetchError E) SolanaPayload
solana_of_response (solana_payload p) = do
  kept ← lift (deduplicate_vaa p.signatures p.public_keys)
  ok (record {
    payload = p.payload;
    signatures = map (λ pair. pair.0) kept;
    public_keys = map (λ pair. pair.1) kept;
    timestamp = p.timestamp;
    signed_hash = p.signed_hash;
  })
solana_of_response _ = err unexpected_payload

unfoldable pub kalvora_of_response : {E : Type 0} → Response → Result (FetchError E) KalvoraPayload
kalvora_of_response (kalvora_payload p) = do
  kept ← lift (deduplicate_vaa p.signatures p.public_keys)
  ok (record {
    payload = p.payload;
    signatures = map (λ pair. pair.0) kept;
    public_keys = map (λ pair. pair.1) kept;
  })
kalvora_of_response _ = err unexpected_payload

-- The client of the guardian service: the answer to each attempt, with the times.
abbrev solana_attempts : {E : Type 0} → Attempts E Response → Attempts (FetchError E) SolanaPayload
solana_attempts client = record {
  outcome = λ k. received (client.outcome k) >>= solana_of_response;
  takes = client.takes;
  sleeps = client.sleeps;
}

abbrev kalvora_attempts :
    {E : Type 0} → Attempts E Response → Attempts (FetchError E) KalvoraPayload
kalvora_attempts client = record {
  outcome = λ k. received (client.outcome k) >>= kalvora_of_response;
  takes = client.takes;
  sleeps = client.sleeps;
}

abbrev result_of : {A B : Type 0} → Option (A × B) → Option B
result_of none = none
result_of (some (a, b)) = some b

-- One attempt, or the loop where the options ask for it; `none` where its fuel runs out.
unfoldable pub fetch_solana_vaa :
    {E : Type 0}
    → ℕ
    → Attempts E Response
    → Bool
    → RetryOptions
    → Option (Result (FetchError E) SolanaPayload)
fetch_solana_vaa fuel client retry options =
    if retry
    then result_of (fetch_with_retry (solana_attempts client) fuel options)
    else some ((solana_attempts client).outcome 1)

unfoldable pub fetch_kalvora_vaa :
    {E : Type 0}
    → ℕ
    → Attempts E Response
    → Bool
    → RetryOptions
    → Option (Result (FetchError E) KalvoraPayload)
fetch_kalvora_vaa fuel client retry options =
    if retry
    then result_of (fetch_with_retry (kalvora_attempts client) fuel options)
    else some ((kalvora_attempts client).outcome 1)
