-- ===== src/Decoders/Examples.antt =====
-- src/query/decoders.ts: the theorems at concrete inputs.
use kalvora_js.Common.{Option, none, some, ◌<◌, ◌≡◌, refl, [], ◌∷◌, ok, length, arith}
use kalvora_js.Js.Numerals.{to_string, decimal_from}
use kalvora_js.Bytes.{Bytes}
use kalvora_js.Decoders.Block.{
  Txns, coin_txns, governance_votes, txn_type, by_type, list_block_transactions,
}
use kalvora_js.Decoders.Counts.{count_of, by_type-length}
use kalvora_js.Decoders.{decode_contract_supply}
use kalvora_js.Decoders.Supply.{encode_fields, limit, decode_contract_supply-encode}

max_size : length (to_string 21_000_000) < limit
unfolding to_string decimal_from
max_size = omega arith

current_size : length (to_string 500) < limit
unfolding to_string decimal_from
current_size = omega arith

decode_contract_supply-encode_example :
    decode_contract_supply
      (λ bytes. bytes)
      (encode_fields ((1, to_string 21_000_000) ∷ (2, to_string 500) ∷ []))
    ≡ ok (record { max_supply = 21_000_000; current_supply = 500; circulation = 500 })
decode_contract_supply-encode_example =
    decode_contract_supply-encode (λ bytes. bytes) 21_000_000 500 (λ digits h. refl) max_size
      current_size

-- A block with two transfers, a vote and a required version; a transaction is its hash.
abbrev txns : Txns (Option Bytes)
txns = record {
  lists = λ l. elim l [
    | coin_txns ↦ some (1 ∷ []) ∷ none ∷ []
    | governance_votes ↦ some (2 ∷ []) ∷ []
    | _ ↦ []
  ];
  required_version = some none;
  receipts = [];
}

by_type-length_example :
    count_of (txn_type coin_txns) (by_type (list_block_transactions (λ h. h) (some txns)) []) ≡ 2
by_type-length_example = by_type-length (λ h. h) txns coin_txns
