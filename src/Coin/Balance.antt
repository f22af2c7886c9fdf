-- ===== src/Coin/Balance.antt =====
-- src/coin-txn/transaction.ts: what `buildCoinTXN` takes from the inputs is what it gives to the outputs.
use kalvora_js.Common.{
  ◌≡◌, refl, Bool, true, false, not, List, map, ◌==◌, ==_iff, Result, ok, >>=-eq-ok, throw_if, Text,
}
use kalvora_js.Coin.{
  CoinInput, amount_mismatch, bad_percentages, Services, called, traverse, process_inputs,
  total_percent, check_percentages, check_requirements,
}
use kalvora_js.Coin.Build.{
  Output, Decimals, Unsigned, shown, paying, process_outputs, input_units, output_units,
  add_amounts, check_exact_balance, check_balance, prepare, auth_of,
}
use kalvora_js.Coin.Paid.{amounts, IsSpend, process_inputs-paying, outputs_units}

checked : {E : Type 0} (b : Bool) (e : E) → throw_if (not b) e ≡ ok tt → b ≡ true
checked true e h = refl
checked false e h = cc h

module _ {E D : Type 0} (decimals : Decimals E D) where
  -- The sums of two lists of amounts, which the decimal numbers' equality holds for.
  abbrev pub Balance : List Text → List Text → Type 0
  Balance taken given_out =
      (total_in total_out : D) × (add_amounts decimals decimals.none_yet taken ≡ ok total_in)
      × (add_amounts decimals decimals.none_yet given_out ≡ ok total_out)
      × (decimals.equals total_in total_out ≡ true)

  check_balance-Balance :
      (services : Services E) (inputs : List CoinInput) (outputs : List Output)
      (taken given_out : List Text)
      → traverse (input_units services) inputs ≡ ok taken
      → traverse (output_units services) outputs ≡ ok given_out
      → check_balance decimals services inputs outputs ≡ ok tt
      → Balance taken given_out
  unfolding check_balance check_exact_balance
  check_balance-Balance services inputs outputs taken given_out ins outs h =
      let h0 : check_exact_balance decimals taken given_out ≡ ok tt = rw (ins, outs) at h in
      let (a, ha, h1) = >>=-eq-ok (add_amounts decimals decimals.none_yet taken) _ h0 in
      let (b, hb, h2) = >>=-eq-ok (add_amounts decimals decimals.none_yet given_out) _ h1 in
      (a, b, ha, hb, checked (decimals.equals a b) amount_mismatch h2)

  -- A transaction that is built balances: the amounts of its input transfers sum to what the amounts
  -- of the outputs in smallest units sum to, in order the ones of its output transfers, where an amount
  -- of nothing is left out; and the fee percentages sum to 100 million. This is for inputs of which
  -- none spends an allowance, or the first has a key and the others spend allowances without one.
  pub prepare-Balance :
      (is_valid : Text → Bool) (token_info : Result E (Services E)) (inputs : List CoinInput)
      (outputs : List Output) (contract : Text) (built : Unsigned)
      → IsSpend inputs
      → prepare decimals is_valid token_info inputs outputs contract ≡ ok built
      → ((units : List Text) × (map (λ t. t.amount) built.output_transfers ≡ map shown units)
          × Balance (amounts built.input_transfers) units)
        × (total_percent built.input_transfers ≡ 100_000_000)
  unfolding prepare check_percentages
  prepare-Balance is_valid token_info inputs outputs contract built spend h =
      let (_, _, h1) = >>=-eq-ok (check_requirements is_valid inputs outputs contract) _ h in
      let (services, _, h2) = >>=-eq-ok (called token_info) _ h1 in
      let (processed, ins, h3) = >>=-eq-ok (process_inputs services inputs) _ h2 in
      let (transfers, outs, h4) = >>=-eq-ok (process_outputs services outputs) _ h3 in
      let (_, balanced, h5) =
        >>=-eq-ok
          (check_balance decimals services (paying processed.allowance_addresses inputs) outputs) _
          h4 in
      let (_, percent, h6) = >>=-eq-ok (check_percentages processed.transfers) _ h5 in
      let made : record {
        contract = contract;
        auth = auth_of processed;
        input_transfers = processed.transfers;
        output_transfers = transfers;
      }
          ≡ built =
        cc h6 in
      let (units, converted, are) = outputs_units services outputs transfers outs in
      let sums =
        check_balance-Balance services (paying processed.allowance_addresses inputs) outputs
          (amounts processed.transfers) units
          (process_inputs-paying services inputs processed spend ins) converted balanced in
      let whole =
        checked (total_percent processed.transfers == 100_000_000) bad_percentages percent in
      rw (← made)
        ((units, are, sums), (==_iff (total_percent processed.transfers) 100_000_000).0 whole)
