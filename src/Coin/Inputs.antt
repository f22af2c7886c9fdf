-- ===== src/Coin/Inputs.antt =====
-- src/coin-txn/transaction.ts: keys, transfers, nonces and allowances belong together in what
-- `processUnsignedInputs` returns.
use mathlib.Core.Path.{subst}
use kalvora_js.Common.{◌≡◌, refl, false, none, List, ok, >>=-eq-ok, length, All}
use kalvora_js.Bytes.{Bytes}
use kalvora_js.Coin.{
  CoinInput, Services, Processed, traverse, address_step, nonces_of, input_loop, process_inputs,
  process_with,
}
use kalvora_js.Coin.Steps.{
  count, indexes, IsPlain, OneEach, length-traverse, length-nonces_of, plain_loop, plain_flag,
}

module _ {E : Type 0} (services : Services E) where
  -- A transaction without allowances has, for each input, one key, one nonce and one transfer, the
  -- transfers indexed from 0 in order; and nothing about allowances.
  process_inputs-plain :
      OneEach services
      → (inputs : List CoinInput) (result : Processed) → All IsPlain inputs
      → process_inputs services inputs ≡ ok result
      → (length result.public_keys ≡ length inputs)
        × (length result.nonces ≡ length inputs)
        × (indexes result.transfers ≡ count 0 (length inputs))
        × (result.allowance_addresses ≡ none)
        × (result.allowance_nonces ≡ none)
  unfolding process_inputs process_with traverse
  process_inputs-plain one inputs result plain h =
      let known : process_with services false inputs ≡ ok result =
        subst (λ f. process_with services f inputs ≡ ok result) (plain_flag services inputs plain)
          h in
      let (addresses, h0, h1) = >>=-eq-ok (traverse (address_step services) inputs) _ known in
      let (nonces, h2, h3) = >>=-eq-ok (nonces_of services inputs addresses) _ h1 in
      let ((keys, transfers), h4, h5) = >>=-eq-ok (input_loop services false 0 inputs) _ h3 in
      let (lengths, is) = plain_loop services 0 inputs keys transfers h4 in
      let count_nonces =
        length-nonces_of services one inputs addresses nonces
          (length-traverse (address_step services) inputs addresses h0) h2 in
      let made : record {
        public_keys = keys;
        transfers = transfers;
        nonces = nonces;
        allowance_addresses = none;
        allowance_nonces = none;
      }
          ≡ result =
        cc h5 in
      rw (← made) (lengths, count_nonces, is, refl, refl)
