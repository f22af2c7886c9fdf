-- ===== src/Coin.antt =====
-- src/coin-txn/transaction.ts: the inputs of a coin transaction (`processUnsignedInputs`), and the
-- checks before it is built.
pub mod Steps
pub mod Inputs
pub mod Build
pub mod Paid
pub mod Balance
mod Examples
use kalvora_js.Common.{
  ℕ, zero, suc, ◌+◌, Bool, true, false, not, ◌&&◌, ◌||◌, Option, none, some, List, [], ◌∷◌, Result,
  ok, err, ◌>>=◌, ◌>>◌, throw_if, ◌==◌, ◌++◌, if◌then◌else◌, length, take, drop, all, Text,
}
use kalvora_js.Js.Value.{Value, truthy}
use kalvora_js.Bytes.{Bytes}

-- A decimal amount is the text that it prints.
abbrev pub Amount : Type 0
Amount = Value Text

pub record CoinInput : Type 0 where
  pub public_key : Option Text
  pub amount : Amount
  pub fee_percent : Option Text
  pub allowance_address : Option Text
  pub nonce : Option Text

pub record Transfer : Type 0 where
  pub index : ℕ
  pub amount : Text
  pub fee_percent : ℕ

-- `E` is what the components that are called throw.
pub data CoinError (E : Type 0) : Type 0 where
  by_component : E → CoinError E
  no_inputs_or_outputs bad_contract missing_key missing_amount : CoinError E
  bad_percentages amount_mismatch : CoinError E

-- What is called: addresses and keys, amounts in the token's smallest units, a percentage times a
-- million in whole numbers, and nonces, which the network has in the order of the addresses.
pub record Services (E : Type 0) : Type 0 where
  pub address_of : Text → Result E Text
  pub key_bytes : Text → Result E Bytes
  pub decode_address : Text → Result E Bytes
  pub to_units : Amount → Result E Text
  pub scaled_percent : Text → Result E ℕ
  pub read_nonce : Text → Result E ℕ
  pub fetch_nonces : List Text → Result E (List ℕ)

pub record Processed : Type 0 where
  pub public_keys : List Bytes
  pub transfers : List Transfer
  pub nonces : List ℕ
  pub allowance_addresses : Option (List Bytes)
  pub allowance_nonces : Option (List ℕ)

-- A text that is set and not empty.
abbrev pub given : Option Text → Option Text
given none = none
given (some []) = none
given (some (c ∷ s)) = some (c ∷ s)

abbrev pub is_some {ℓ} : {A : Type ℓ} → Option A → Bool
is_some none = false
is_some (some a) = true

abbrev pub called : {E A : Type 0} → Result E A → Result (CoinError E) A
called (ok a) = ok a
called (err e) = err (by_component e)

unfoldable pub traverse : {E A B : Type 0} → (A → Result E B) → List A → Result E (List B)
traverse f [] = ok []
traverse f (a ∷ others) = do b ← f a; bs ← traverse f others; ok (b ∷ bs)

-- `null` for an empty list.
abbrev pub or_null {ℓ} : {A : Type ℓ} → List A → Option (List A)
or_null [] = none
or_null (a ∷ others) = some (a ∷ others)

abbrev pub percent_of : CoinInput → Text
percent_of input = elim input.fee_percent [ none ↦ b'1' ∷ b'0' ∷ b'0' ∷ [] | some p ↦ p ]

module _ {E : Type 0} (services : Services E) where
  open services use {
    address_of, key_bytes, decode_address, to_units, scaled_percent, read_nonce, fetch_nonces,
  }

  abbrev Step : Type 0 → Type 0
  Step A = Result (CoinError E) A

  unfoldable pub address_step : CoinInput → Step Text
  address_step input = elim (given input.public_key) [
    | some key ↦ called (address_of key)
    | none ↦ elim (given input.allowance_address) [
      | none ↦ err missing_key
      | some address ↦ ok address
    ]
  ]

  -- The first loop: the addresses. It marks an allowance transaction by any allowance address.
  unfoldable pub is_allowance : List CoinInput → Bool
  is_allowance [] = false
  is_allowance (input ∷ inputs) = is_some (given input.allowance_address) || is_allowance inputs

  unfoldable pub nonces_of : List CoinInput → List Text → Step (List ℕ)
  nonces_of inputs addresses =
      if all (λ input. is_some input.nonce) inputs
      then traverse
          (λ input. elim input.nonce [
            | none ↦ err missing_key
            | some nonce ↦ called (read_nonce nonce)
          ])
          inputs
      else called (fetch_nonces addresses)

  unfoldable pub transfer_of : ℕ → CoinInput → Step Transfer
  transfer_of index input = do
    throw_if (not (truthy input.amount)) missing_amount
    units ← called (to_units input.amount)
    percent ← called (scaled_percent (percent_of input))
    ok (record { index = index; amount = units; fee_percent = percent })

  -- What one round of the second loop pushes: keys and transfers.
  unfoldable pub input_step : Bool → ℕ → CoinInput → Step (List Bytes × List Transfer)
  input_step allowance index input = elim (given input.public_key) [
    | some key ↦ (do
      bytes ← called (key_bytes key)
      if allowance
          then ok (bytes ∷ [], [])
          else (do transfer ← transfer_of index input; ok (bytes ∷ [], transfer ∷ [])))
    | none ↦ (do
      throw_if (not allowance) missing_key
      transfer ← transfer_of index input
      ok ([], transfer ∷ []))
  ]

  unfoldable pub input_loop : Bool → ℕ → List CoinInput → Step (List Bytes × List Transfer)
  input_loop allowance index [] = ok ([], [])
  input_loop allowance index (input ∷ inputs) = do
    pushed ← input_step allowance index input
    rest ← input_loop allowance (index + 1) inputs
    ok (pushed.0 ++ rest.0, pushed.1 ++ rest.1)

  -- Everything, once it is known whether allowances are spent.
  unfoldable pub process_with : Bool → List CoinInput → Step Processed
  process_with allowance inputs = do
    addresses ← traverse address_step inputs
    nonces ← nonces_of inputs addresses
    collected ← input_loop allowance 0 inputs
    decoded ← called (traverse decode_address (if allowance then drop 1 addresses else []))
    ok (record {
      public_keys = collected.0;
      transfers = collected.1;
      nonces = if allowance then take 1 nonces else nonces;
      allowance_addresses = or_null decoded;
      allowance_nonces = or_null (if allowance then drop 1 nonces else []);
    })

  unfoldable pub process_inputs : List CoinInput → Step Processed
  process_inputs inputs = process_with (is_allowance inputs) inputs

unfoldable pub total_percent : List Transfer → ℕ
total_percent [] = 0
total_percent (t ∷ transfers) = t.fee_percent + total_percent transfers

unfoldable pub check_percentages : {E : Type 0} → List Transfer → Result (CoinError E) (Unit {0})
check_percentages transfers =
    throw_if (not (total_percent transfers == 100_000_000)) bad_percentages

-- `isValidContractId` is a parameter; the arrays are arrays by their types.
unfoldable pub check_requirements :
    {E O : Type 0}
    → (Text → Bool)
    → List CoinInput
    → List O
    → Text
    → Result (CoinError E) (Unit {0})
check_requirements is_valid inputs outputs contract = do
  throw_if (length inputs == 0 || length outputs == 0) no_inputs_or_outputs
  throw_if (length contract == 0 || not (is_valid contract)) bad_contract
