-- ===== src/Coin/Build.antt =====
-- src/coin-txn/transaction.ts: the outputs, the balance check, and `buildCoinTXN` up to the unsigned
-- transaction that the fees are then calculated for. src/shared/utils/amount-utils.ts: the check
-- `validateExactAmountBalance`. The decimal numbers are the decimal package's, a parameter.
use kalvora_js.Common.{
  ℕ, Bool, not, ◌||◌, Option, none, some, List, [], ◌∷◌, Result, ok, ◌>>=◌, ◌>>◌, throw_if,
  if◌then◌else◌, drop, Text, codes, text_eq,
}
use kalvora_js.Js.{trim}
use kalvora_js.Js.Value.{truthy}
use kalvora_js.Bytes.{Bytes}
use kalvora_js.Coin.{
  CoinInput, Amount, Transfer, CoinError, missing_amount, amount_mismatch, Services, Processed,
  called, traverse, process_inputs, check_percentages, check_requirements,
}

pub record Output : Type 0 where
  pub to : Text
  pub amount : Amount
  pub memo : Option Text

-- A field that is not set is `none`.
pub record OutputTransfer : Type 0 where
  pub wallet_address : Bytes
  pub amount : Option Text
  pub memo : Option Text

-- The fields are repeated: one that is not set is an empty list.
pub record TransferAuth : Type 0 where
  pub public_keys : List Bytes
  pub signatures : List Bytes
  pub nonces : List ℕ
  pub allowance_addresses : List Bytes
  pub allowance_nonces : List ℕ

pub record Unsigned : Type 0 where
  pub contract : Text
  pub auth : TransferAuth
  pub input_transfers : List Transfer
  pub output_transfers : List OutputTransfer

-- `D` are the decimal numbers; a text that is not one is an error.
pub record Decimals (E D : Type 0) : Type 0 where
  pub to_decimal : Text → Result E D
  pub none_yet : D
  pub add : D → D → D
  pub equals : D → D → Bool

-- An output of nothing leaves the amount out.
unfoldable pub shown : Text → Option Text
shown units = if text_eq units [] || text_eq units (codes "0") then none else some units

unfoldable pub memo_of : Option Text → Option Text
memo_of none = none
memo_of (some memo) = if text_eq (trim memo) [] then none else some memo

abbrev pub or_empty : {A : Type 0} → Option (List A) → List A
or_empty none = []
or_empty (some xs) = xs

unfoldable pub auth_of : Processed → TransferAuth
auth_of processed = record {
  public_keys = processed.public_keys;
  signatures = [];
  nonces = processed.nonces;
  allowance_addresses = or_empty processed.allowance_addresses;
  allowance_nonces = or_empty processed.allowance_nonces;
}

-- The inputs that pay: not the one that only authorises an allowance.
unfoldable pub paying : Option (List Bytes) → List CoinInput → List CoinInput
paying none inputs = inputs
paying (some []) inputs = inputs
paying (some (a ∷ addresses)) inputs = drop 1 inputs

module _ {E : Type 0} (services : Services E) where
  open services use {decode_address, to_units}

  unfoldable pub output_step : Output → Result (CoinError E) OutputTransfer
  output_step output = do
    units ← called (to_units output.amount)
    wallet ← called (decode_address output.to)
    ok (record { wallet_address = wallet; amount = shown units; memo = memo_of output.memo })

  unfoldable pub process_outputs : List Output → Result (CoinError E) (List OutputTransfer)
  process_outputs outputs = traverse output_step outputs

  unfoldable pub input_units : CoinInput → Result (CoinError E) Text
  input_units input = do
    throw_if (not (truthy input.amount)) missing_amount
    called (to_units input.amount)

  unfoldable pub output_units : Output → Result (CoinError E) Text
  output_units output = called (to_units output.amount)

module _ {E D : Type 0} (decimals : Decimals E D) where
  open decimals use {to_decimal, none_yet, add, equals}

  unfoldable pub add_amounts : D → List Text → Result (CoinError E) D
  add_amounts sum [] = ok sum
  add_amounts sum (amount ∷ amounts) = do
    d ← called (to_decimal amount)
    add_amounts (add sum d) amounts

  unfoldable pub check_exact_balance : List Text → List Text → Result (CoinError E) (Unit {0})
  check_exact_balance inputs outputs = do
    total_in ← add_amounts none_yet inputs
    total_out ← add_amounts none_yet outputs
    throw_if (not (equals total_in total_out)) amount_mismatch

  unfoldable pub check_balance :
      Services E → List CoinInput → List Output → Result (CoinError E) (Unit {0})
  check_balance services inputs outputs = do
    units_in ← traverse (input_units services) inputs
    units_out ← traverse (output_units services) outputs
    check_exact_balance units_in units_out

  -- The contract identifier is normalised already; `token_info` is what the look-up of the tokens
  -- answers, which the conversions and calls rest on.
  unfoldable pub prepare :
      (Text → Bool)
      → Result E (Services E)
      → List CoinInput
      → List Output
      → Text
      → Result (CoinError E) Unsigned
  prepare is_valid token_info inputs outputs contract = do
    check_requirements is_valid inputs outputs contract
    services ← called token_info
    processed ← process_inputs services inputs
    output_transfers ← process_outputs services outputs
    check_balance services (paying processed.allowance_addresses inputs) outputs
    check_percentages processed.transfers
    ok (record {
      contract = contract;
      auth = auth_of processed;
      input_transfers = processed.transfers;
      output_transfers = output_transfers;
    })
