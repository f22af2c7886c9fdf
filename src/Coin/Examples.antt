-- ===== src/Coin/Examples.antt =====
-- src/coin-txn/transaction.ts: the theorems at concrete inputs.
use kalvora_js.Common.{
  ℕ, ◌≡◌, refl, none, some, List, [], ◌∷◌, map, ok, length, codes, ◌+◌, ◌==◌, true, inr, Text,
}
use kalvora_js.Js.{trim, trim_start, is_space}
use kalvora_js.Js.Value.{string, truthy}
use kalvora_js.Bytes.{Bytes}
use kalvora_js.Coin.{
  CoinInput, Services, Processed, traverse, address_step, is_allowance, nonces_of, transfer_of,
  input_step, input_loop, process_with, process_inputs, check_requirements, check_percentages,
  total_percent,
}
use kalvora_js.Coin.Build.{
  Output, Unsigned, Decimals, prepare, auth_of, process_outputs, output_step, shown, memo_of,
  check_balance, paying, input_units, output_units, check_exact_balance, add_amounts,
}
use kalvora_js.Coin.Paid.{amounts}
use kalvora_js.Coin.Balance.{Balance, prepare-Balance}

abbrev services : Services ℕ
services = record {
  address_of = λ key. ok key;
  key_bytes = λ key. ok (1 ∷ []);
  decode_address = λ address. ok (2 ∷ []);
  to_units = λ amount. ok (codes "5");
  scaled_percent = λ percent. ok 100_000_000;
  read_nonce = λ nonce. ok 4;
  fetch_nonces = λ addresses. ok (map (λ a. 7) addresses);
}

abbrev payer : CoinInput
payer = record {
  public_key = some (codes "k");
  amount = string (codes "5");
  fee_percent = none;
  allowance_address = none;
  nonce = none;
}

abbrev owner : CoinInput
owner = record {
  public_key = none;
  amount = string (codes "5");
  fee_percent = none;
  allowance_address = some (codes "o");
  nonce = none;
}

abbrev two : List CoinInput
two = payer ∷ payer ∷ []

abbrev plain_result : Processed
plain_result = record {
  public_keys = (1 ∷ []) ∷ (1 ∷ []) ∷ [];
  transfers =
      record { index = 0; amount = codes "5"; fee_percent = 100_000_000 }
      ∷ record { index = 1; amount = codes "5"; fee_percent = 100_000_000 }
      ∷ [];
  nonces = 7 ∷ 7 ∷ [];
  allowance_addresses = none;
  allowance_nonces = none;
}

plain_ok : process_inputs services two ≡ ok plain_result
unfolding process_inputs process_with is_allowance traverse address_step nonces_of input_loop
    input_step transfer_of truthy
plain_ok = refl

abbrev spent : Processed
spent = record {
  public_keys = (1 ∷ []) ∷ [];
  transfers = record { index = 1; amount = codes "5"; fee_percent = 100_000_000 } ∷ [];
  nonces = 7 ∷ [];
  allowance_addresses = some ((2 ∷ []) ∷ []);
  allowance_nonces = some (7 ∷ []);
}

-- Numbers of one unit for each code of the text.
abbrev decimals : Decimals ℕ ℕ
decimals = record {
  to_decimal = λ t. ok (length t);
  none_yet = 0;
  add = λ a b. a + b;
  equals = λ a b. a == b;
}

abbrev outputs : List Output
outputs = record { to = codes "r"; amount = string (codes "5"); memo = some (codes "m") } ∷ []

abbrev built : Unsigned
built = record {
  contract = codes "c";
  auth = auth_of spent;
  input_transfers = spent.transfers;
  output_transfers =
      record { wallet_address = 2 ∷ []; amount = some (codes "5"); memo = some (codes "m") } ∷ [];
}

built_ok :
    prepare decimals (λ c. true) (ok services) (payer ∷ owner ∷ []) outputs (codes "c") ≡ ok built
unfolding prepare process_inputs process_with is_allowance traverse address_step nonces_of
    input_loop input_step transfer_of truthy check_requirements process_outputs output_step shown
    memo_of trim trim_start is_space check_balance paying input_units output_units
    check_exact_balance add_amounts check_percentages total_percent
built_ok = refl

prepare-Balance_example :
    ((units : List Text) × (map (λ t. t.amount) built.output_transfers ≡ map shown units)
      × Balance decimals (amounts built.input_transfers) units)
    × (total_percent built.input_transfers ≡ 100_000_000)
prepare-Balance_example =
    prepare-Balance decimals (λ c. true) (ok services) (payer ∷ owner ∷ []) outputs (codes "c")
      built (inr (payer, owner, [], codes "k", refl, refl, ((refl, (codes "o", refl)), tt)))
      built_ok
