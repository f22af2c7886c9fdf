-- ===== src/Bridge/Examples.antt =====
-- src/smart-contracts/use-cases/bridge/guardian/vaa.ts: the theorems at concrete inputs.
use mathlib.Core.List.{zip}
use kalvora_js.Common.{
  ℕ, ◌+◌, ◌<◌, ◌≤◌, ◌≡◌, ◌≢◌, ◌⊎◌, refl, true, false, none, some, List, [], ◌∷◌, arith, ok, err,
  ltb, if◌then◌else◌, length, Text, codes,
}
use kalvora_js.Common.Int.{pos_part}
use kalvora_js.Bridge.Dedup.{
  dedup_loop, deduplicate_vaa, deduplicate_vaa-first, count_mismatch, no_signatures, first_key,
  DistinctSignatures,
}
use kalvora_js.Bridge.Retry.{
  RetryOptions, Attempts, fetch_with_retry, AllFailed, fetch_with_retry-ends,
  fetch_with_retry-endless,
}
use kalvora_js.Bridge.Payload.{
  SolanaPayload, mint_payload, other_payload, solana_payload, solana_of_response, KalvoraPayload,
  kal_mint,
}
use kalvora_js.Bridge.Run.{Answers, by_code}
use kalvora_js.Bridge.Solana.{
  Call, build, mint_owner, latest_blockhash, send_raw, send_and_confirm, Reply, SubmitOptions,
  Programs, unsupported_payload, guardian_signatures, submit_payload,
}
use kalvora_js.Bridge.Solana.Order.{LastFailed}
use kalvora_js.Bridge.Solana.Fails.{Refused, submit_payload-fails}
use kalvora_js.Bridge.Solana.Signatures.{solana_of_response-signatures}
use kalvora_js.Bridge.Kalvora.{
  KalvoraOptions, KalvoraCall, TxnHash, submit_kalvora, KalvoraOutcome, submit_kalvora-outcome,
}

abbrev sigs : List Text
sigs = codes "a" ∷ codes "b" ∷ codes "a" ∷ []

abbrev keys : List Text
keys = codes "k" ∷ codes "l" ∷ codes "m" ∷ []

deduplicate_vaa-first_example :
    ((length sigs ≢ length keys) × (deduplicate_vaa sigs keys ≡ err count_mismatch))
    ⊎ ((sigs ≡ []) × (keys ≡ []) × (deduplicate_vaa sigs keys ≡ err no_signatures))
    ⊎ ((length sigs ≡ length keys)
        × (0 < length sigs)
        × ((kept : List (Text × Text)) × (deduplicate_vaa sigs keys ≡ ok kept)
            × DistinctSignatures kept
            × ((s : Text) → first_key s kept ≡ first_key s (zip sigs keys))))
deduplicate_vaa-first_example = deduplicate_vaa-first sigs keys

-- The third attempt succeeds; the clock advances by what the timers are set to.
abbrev third_time : Attempts ℕ ℕ
third_time = record {
  outcome = λ k. if ltb k 3 then err k else ok k;
  takes = λ k. 1;
  sleeps = λ k delay. pos_part delay;
}

abbrev short : RetryOptions
short = record { max_elapsed_ms = some 100; initial_delay_ms = some 10 }

fetch_with_retry-ends_example :
    (last : ℕ) × (fetch_with_retry third_time (100 + 2) short
      ≡ some (last, third_time.outcome last))
    × (1 ≤ last)
    × (last < 1 + (100 + 2))
    × AllFailed third_time 1 last
fetch_with_retry-ends_example = fetch_with_retry-ends third_time (λ k. omega arith) short

-- Every attempt fails at once.
abbrev never : Attempts ℕ ℕ
never = record { outcome = λ k. err k; takes = λ k. 0; sleeps = λ k delay. pos_part delay + 1 }

fetch_with_retry-endless_example : fetch_with_retry never 1_000_000 short ≡ none
fetch_with_retry-endless_example =
    fetch_with_retry-endless never (λ k. refl) (λ k. (k, refl)) 1_000_000 short (omega arith)

-- A chain on which every call is answered.
abbrev answering : Answers (Call ℕ) Reply ℕ
answering (build r) calls = ok (
  record { content = 1; recent_blockhash = codes "old"; signed = false },
  record { content = 2; recent_blockhash = codes "old"; signed = false },
)
answering (mint_owner a) calls = ok a
answering latest_blockhash calls = ok (codes "new")
answering (send_raw tx p) calls = ok (codes "sig")
answering (send_and_confirm tx p) calls = ok (codes "sig")

abbrev confirmed : SubmitOptions
confirmed = record { skip_confirmation = false; skip_preflight = true }

abbrev ids : Programs
ids = record { token = codes "T"; token_2022 = codes "U" }

abbrev mint_message : SolanaPayload
mint_message = record {
  payload = mint_payload (record {
    kal_contract_id = codes "c";
    solana_wallet_address = codes "w";
    amount = 5;
    txn_hash = codes "h";
    usd_amount = 6;
    liquidity_usd = 7;
    tier = 1;
  });
  signatures = sigs;
  public_keys = keys;
  timestamp = some 9;
  signed_hash = codes "s";
}

abbrev upgrade_message : SolanaPayload
upgrade_message = record {
  payload = other_payload;
  signatures = sigs;
  public_keys = keys;
  timestamp = none;
  signed_hash = codes "s";
}

abbrev made : List (Call ℕ)
made = (submit_payload answering confirmed ids 0 mint_message []).0

refused_run :
    submit_payload answering confirmed ids 0 upgrade_message []
    ≡ ([], err (by_code unsupported_payload))
unfolding submit_payload
refused_run = refl

submit_payload-fails_example :
    LastFailed answering confirmed [] (by_code unsupported_payload)
    ⊎ Refused answering confirmed ids 0 upgrade_message upgrade_message.payload []
        (by_code unsupported_payload)
submit_payload-fails_example =
    submit_payload-fails answering confirmed ids 0 upgrade_message [] (by_code unsupported_payload)
      refused_run

abbrev deduplicated : SolanaPayload
deduplicated = record {
  payload = mint_message.payload;
  signatures = codes "a" ∷ codes "b" ∷ [];
  public_keys = codes "k" ∷ codes "l" ∷ [];
  timestamp = some 9;
  signed_hash = codes "s";
}

fetched_ok : solana_of_response {E = ℕ} (solana_payload mint_message) ≡ ok deduplicated
unfolding solana_of_response deduplicate_vaa dedup_loop
fetched_ok = refl

solana_of_response-signatures_example :
    (p : SolanaPayload) × (solana_payload mint_message ≡ solana_payload p)
    × (deduplicated.payload ≡ p.payload)
    × (deduplicated.signed_hash ≡ p.signed_hash)
    × DistinctSignatures (guardian_signatures deduplicated.signatures deduplicated.public_keys)
    × ((s : Text)
        → first_key s (guardian_signatures deduplicated.signatures deduplicated.public_keys)
          ≡ first_key s (zip p.signatures p.public_keys))
solana_of_response-signatures_example =
    solana_of_response-signatures {E = ℕ} (solana_payload mint_message) deduplicated fetched_ok

abbrev sending_kalvora : Answers (KalvoraCall ℕ) TxnHash ℕ
sending_kalvora c calls = ok (codes "hash")

abbrev kalvora_options : KalvoraOptions ℕ
kalvora_options = record {
  public_key = codes "pub";
  private_key = codes "priv";
  fee_amount_parts = none;
  gas_fee_in_usd = none;
  fee_id = none;
}

abbrev kalvora_message : KalvoraPayload
kalvora_message = record {
  payload = kal_mint (codes "wallet");
  signatures = sigs;
  public_keys = keys;
}

submit_kalvora-outcome_example :
    KalvoraOutcome sending_kalvora kalvora_options kalvora_message kalvora_message.payload
      (submit_kalvora sending_kalvora kalvora_options kalvora_message [])
submit_kalvora-outcome_example =
    submit_kalvora-outcome sending_kalvora kalvora_options kalvora_message
