-- ===== src/Decoders/Block.antt =====
-- src/query/decoders.ts: the transactions of a block, their results and its summary.
use kalvora_js.Common.{
  ℕ, ◌+◌, ◌*◌, ◌/◌, Bool, true, false, ◌&&◌, Option, none, some, List, [], ◌∷◌, ◌++◌, map, Text,
  codes, text_eq, Result, ok, err, ◌>>=◌, if◌then◌else◌, ◌==◌, length, drop,
}
use kalvora_js.Js.{starts_with}
use kalvora_js.Js.Numerals.{to_string}
use kalvora_js.Bytes.{Bytes}
use kalvora_js.Bytes.Hex.{bytes_to_hex}
use kalvora_js.Decoders.{DecodeError, no_status, parse_uint_string}

-- The fields of `TXNS` that are lists of transactions.
pub data TxnList : Type 0 where
  coin_txns mint_txns item_mint_txns contract_txns governance_votes governance_proposals : TxnList
  smart_contracts smart_contract_executes expense_ratios nft_txns contract_update_txns : TxnList
  validator_registration_txns validator_heartbeat_txns proposal_result_txns : TxnList
  delegated_voting_txns revoke_txns compliance_txns burn_sbt_txns : TxnList
  smart_contract_instantiate_txns allowance_txns proposal_cancel_txns : TxnList

-- The number of a list's transaction type.
unfoldable pub txn_type : TxnList → ℕ
txn_type coin_txns = 1
txn_type mint_txns = 2
txn_type item_mint_txns = 3
txn_type contract_txns = 4
txn_type governance_votes = 5
txn_type governance_proposals = 6
txn_type smart_contracts = 7
txn_type smart_contract_executes = 8
txn_type expense_ratios = 9
txn_type nft_txns = 10
txn_type contract_update_txns = 11
txn_type validator_registration_txns = 12
txn_type validator_heartbeat_txns = 13
txn_type proposal_result_txns = 14
txn_type delegated_voting_txns = 15
txn_type revoke_txns = 16
txn_type compliance_txns = 19
txn_type burn_sbt_txns = 20
txn_type smart_contract_instantiate_txns = 22
txn_type allowance_txns = 23
txn_type proposal_cancel_txns = 24

abbrev pub required_version_type : ℕ
required_version_type = 21

-- The lists, in the order of the source.
abbrev pub txns_lists : List TxnList
txns_lists =
    coin_txns ∷ mint_txns ∷ item_mint_txns ∷ contract_txns ∷ governance_votes ∷ governance_proposals
    ∷ smart_contracts ∷ smart_contract_executes ∷ expense_ratios ∷ nft_txns ∷ contract_update_txns
    ∷ validator_registration_txns ∷ validator_heartbeat_txns ∷ proposal_result_txns
    ∷ delegated_voting_txns ∷ revoke_txns ∷ compliance_txns ∷ burn_sbt_txns
    ∷ smart_contract_instantiate_txns ∷ allowance_txns ∷ proposal_cancel_txns ∷ []

-- `TXNStatusFees`
pub record Receipt : Type 0 where
  pub txn_hash : Bytes
  pub status : Option ℕ
  pub base_fees : Text
  pub base_contract_id : Text
  pub contract_fees : Option Text
  pub contract_contract_id : Option Text
  pub gas : Option ℕ
  pub proposal_identifier : Option ℕ

pub record TransactionResult : Type 0 where
  pub hash : Text
  pub status : ℕ
  pub status_name : Text
  pub success : Bool
  pub base_fees : ℕ
  pub base_fee_contract_id : Text
  pub contract_fees : Option ℕ
  pub contract_fee_contract_id : Option Text
  pub gas : Option ℕ
  pub proposal_identifier : Option ℕ
  pub raw : Receipt

-- A transaction of any list, with its base's hash where it has one.
pub record Txns (T : Type 0) : Type 0 where
  pub lists : TxnList → List T
  pub required_version : Option T
  pub receipts : List Receipt

pub record BlockTransaction (T : Type 0) : Type 0 where
  pub number : ℕ
  -- `none` is `requiredVersionTxn`.
  pub from_list : Option TxnList
  pub hash : Text
  pub txn : T

module _ {T : Type 0} (hash_of : T → Option Bytes) where
  abbrev pub entry : ℕ → Option TxnList → T → BlockTransaction T
  entry number from_list txn = record {
    number = number;
    from_list = from_list;
    hash = elim (hash_of txn) [ none ↦ [] | some bytes ↦ bytes_to_hex bytes ];
    txn = txn;
  }

  unfoldable pub all_entries : Txns T → List TxnList → List (BlockTransaction T)
  all_entries txns [] = []
  all_entries txns (l ∷ lists) =
      map (entry (txn_type l) (some l)) (txns.lists l) ++ all_entries txns lists

  unfoldable pub list_block_transactions : Option (Txns T) → List (BlockTransaction T)
  list_block_transactions none = []
  list_block_transactions (some txns) = all_entries txns txns_lists ++ (elim txns.required_version [
    | none ↦ []
    | some txn ↦ entry required_version_type none txn ∷ []
  ])

unfoldable pub add_one : ℕ → List (ℕ × ℕ) → List (ℕ × ℕ)
add_one k [] = (k, 1) ∷ []
add_one k ((j, n) ∷ counts) =
    let rest = add_one k counts in if j == k then (j, n + 1) ∷ counts else (j, n) ∷ rest

-- `transactionsByType`: a type is its number, which its name stands for.
unfoldable pub by_type : {T : Type 0} → List (BlockTransaction T) → List (ℕ × ℕ) → List (ℕ × ℕ)
by_type [] counts = counts
by_type (t ∷ txns) counts = by_type txns (add_one t.number counts)

-- `status_name` is the generated table of names.
module _ (status_name : ℕ → Option Text) where
  abbrev pub optional_fees : Option Text → Result DecodeError (Option ℕ)
  optional_fees none = ok none
  optional_fees (some text) = parse_uint_string text >>= (λ n. ok (some n))

  abbrev pub name_of : ℕ → Text
  name_of status = elim (status_name status) [
    | none ↦ codes "UNKNOWN_" ++ to_string status
    | some name ↦ name
  ]

  abbrev pub result_of : Receipt → Option ℕ → Result DecodeError TransactionResult
  result_of raw none = err no_status
  result_of raw (some status) = do
    base ← parse_uint_string raw.base_fees
    contract ← optional_fees raw.contract_fees
    ok (record {
      hash = bytes_to_hex raw.txn_hash;
      status = status;
      status_name = name_of status;
      success = status == 0;
      base_fees = base;
      base_fee_contract_id = raw.base_contract_id;
      contract_fees = contract;
      contract_fee_contract_id = raw.contract_contract_id;
      gas = raw.gas;
      proposal_identifier = raw.proposal_identifier;
      raw = raw;
    })

  unfoldable pub to_transaction_result : Receipt → Result DecodeError TransactionResult
  to_transaction_result raw = result_of raw raw.status

  abbrev pub has_status : Receipt → Bool
  has_status raw = elim raw.status [ none ↦ false | some status ↦ true ]

  unfoldable pub find_receipt : Text → List Receipt → Option Receipt
  find_receipt wanted [] = none
  find_receipt wanted (raw ∷ receipts) =
      let later = find_receipt wanted receipts in
      if text_eq (bytes_to_hex raw.txn_hash) wanted && has_status raw then some raw else later

  unfoldable pub results_of : List Receipt → Result DecodeError (List TransactionResult)
  results_of [] = ok []
  results_of (raw ∷ receipts) = elim (has_status raw) [
    | false ↦ results_of receipts
    | true ↦ to_transaction_result raw >>= (λ r. results_of receipts >>= (λ rs. ok (r ∷ rs)))
  ]

  -- `lower` is `toLowerCase`.
  unfoldable pub find_transaction_result :
      (Text → Text) → List Receipt → Text → Result DecodeError (Option TransactionResult)
  find_transaction_result lower receipts txn_hash =
      let text = lower txn_hash in
      elim (find_receipt (if starts_with (codes "0x") text then drop 2 text else text) receipts) [
        | none ↦ ok none
        | some raw ↦ to_transaction_result raw >>= (λ r. ok (some r))
      ]

pub record Header : Type 0 where
  pub block_height : ℕ
  pub hash : Bytes
  pub previous_block_hash : Bytes
  -- Seconds and nanoseconds.
  pub timestamp : Option (ℕ × ℕ)
  pub version : ℕ

-- A date is its time in milliseconds.
pub record BlockSummary : Type 0 where
  pub height : ℕ
  pub hash : Text
  pub previous_hash : Text
  pub timestamp : Option ℕ
  pub version : Option ℕ
  pub transaction_count : ℕ
  pub transactions_by_type : List (ℕ × ℕ)
  pub results : List TransactionResult

abbrev pub milliseconds : Option (ℕ × ℕ) → Option ℕ
milliseconds none = none
milliseconds (some (seconds, nanos)) = some (seconds * 1_000 + nanos / 1_000_000)

abbrev pub receipts_of : {T : Type 0} → Option (Txns T) → List Receipt
receipts_of none = []
receipts_of (some txns) = txns.receipts

module _ {T : Type 0} (hash_of : T → Option Bytes) (status_name : ℕ → Option Text) where
  abbrev pub summary_of :
      Option Header → List (BlockTransaction T) → List TransactionResult → BlockSummary
  summary_of none txns results = record {
    height = 0;
    hash = [];
    previous_hash = [];
    timestamp = none;
    version = none;
    transaction_count = length txns;
    transactions_by_type = by_type txns [];
    results = results;
  }
  summary_of (some header) txns results = record {
    height = header.block_height;
    hash = bytes_to_hex header.hash;
    previous_hash = bytes_to_hex header.previous_block_hash;
    timestamp = milliseconds header.timestamp;
    version = some header.version;
    transaction_count = length txns;
    transactions_by_type = by_type txns [];
    results = results;
  }

  unfoldable pub summarize_block : Option Header → Option (Txns T) → Result DecodeError BlockSummary
  summarize_block header txns = do
    results ← results_of status_name (receipts_of txns)
    ok (summary_of header (list_block_transactions hash_of txns) results)
