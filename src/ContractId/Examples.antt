-- ===== src/ContractId/Examples.antt =====
-- src/protocol/contract-id.ts: the theorems at concrete inputs.
use kalvora_js.Common.{
  ◌≡◌, ◌≢◌, ◌↔◌, refl, true, some, List, [], ◌∷◌, arith, ok, err, Text, codes, length, replicate,
}
use kalvora_js.Common.Int.{pos}
use kalvora_js.Js.Utf8.{utf8}
use kalvora_js.Bytes.{Bytes, IsBytes}
use kalvora_js.ContractId.{
  ContractData, OrdinaryId, Parts, concat, u8, u32, u64, length_prefixed, prefixed_string,
  canonical_decimal, strip_zeros, head_parts, supply_parts, denomination_parts, schedule_parts,
  entries_parts, release_parts, contract_data_parts, genesis_parts, ordinary_parts,
  encode_contract_id, contract_id_checksum, decode_contract_id, is_canonical_text,
}
use kalvora_js.ContractId.Toy.{toy, toy-Documented, All-replicate, length-replicate_lem}
use kalvora_js.ContractId.Preimage.{SameData, contract_data_parts-inj}
use kalvora_js.ContractId.Domains.{ordinary_parts-inj, preimages_apart}
use kalvora_js.ContractId.Canonical.{is_canonical_iff, decode-encode_contract_id}

abbrev digest : Bytes
digest = replicate 32 5

is_canonical_iff_example :
    (is_canonical_text toy (codes "KAL") ≡ true)
    ↔ ((d : Bytes) × (length d ≡ 32) × IsBytes d × (encode_contract_id toy d ≡ ok (codes "KAL")))
is_canonical_iff_example = is_canonical_iff toy toy-Documented (codes "KAL")

decode-encode_contract_id_example :
    (value : Text) × (checksum : Bytes) × (encode_contract_id toy digest ≡ ok value)
    × (contract_id_checksum toy digest ≡ ok checksum)
    × (decode_contract_id toy value ≡ some (digest, checksum))
decode-encode_contract_id_example =
    decode-encode_contract_id toy toy-Documented digest (length-replicate_lem 32 5)
      (All-replicate 32 5 (omega arith))

abbrev coin : Text → ContractData
coin supply = record {
  symbol = codes "KAL";
  contract_type = pos 0;
  max_supply = some supply;
  coin_denomination = some (record { denomination_name = codes "mote"; amount = codes "1000" });
  max_supply_release = some (record { seconds = pos 5; nanos = pos 6; amount = codes "70" } ∷ []);
}

abbrev ordinary : OrdinaryId
ordinary = record {
  authorization_type = pos 1;
  key_algorithm = pos 2;
  authorization_bytes = 9 ∷ [];
  vanity_nonce = pos 7;
  contract_data_hash = 8 ∷ [];
}

-- The parts of a result that is known to be one.
abbrev parts_of : Parts → List Bytes
parts_of (ok p) = p
parts_of (err e) = []

abbrev coin_parts : Text → List Bytes
coin_parts supply = parts_of (contract_data_parts (coin supply))

coin_ok : contract_data_parts (coin (codes "007")) ≡ ok (coin_parts (codes "007"))
unfolding contract_data_parts head_parts supply_parts denomination_parts schedule_parts
    entries_parts release_parts prefixed_string length_prefixed u8 u32 u64 canonical_decimal utf8
coin_ok = refl

same_coin_ok : contract_data_parts (coin (codes "7")) ≡ ok (coin_parts (codes "7"))
unfolding contract_data_parts head_parts supply_parts denomination_parts schedule_parts
    entries_parts release_parts prefixed_string length_prefixed u8 u32 u64 canonical_decimal utf8
same_coin_ok = refl

same_preimage : concat (coin_parts (codes "007")) ≡ concat (coin_parts (codes "7"))
unfolding contract_data_parts head_parts supply_parts denomination_parts schedule_parts
    entries_parts release_parts prefixed_string length_prefixed u8 u32 u64 canonical_decimal
    strip_zeros
same_preimage = refl

-- Two spellings of the supply have one preimage.
contract_data_parts-inj_example : SameData (coin (codes "007")) (coin (codes "7"))
contract_data_parts-inj_example =
    contract_data_parts-inj (coin (codes "007")) (coin (codes "7")) (coin_parts (codes "007"))
      (coin_parts (codes "7")) coin_ok same_coin_ok same_preimage

abbrev ordinary_list : List Bytes
ordinary_list = parts_of (ordinary_parts ordinary)

ordinary_ok : ordinary_parts ordinary ≡ ok ordinary_list
unfolding ordinary_parts prefixed_string length_prefixed u8 u32 u64 utf8
ordinary_ok = refl

ordinary_parts-inj_example : ordinary ≡ ordinary
ordinary_parts-inj_example =
    ordinary_parts-inj ordinary ordinary ordinary_list ordinary_list ordinary_ok ordinary_ok refl

abbrev genesis_list : List Bytes
genesis_list = parts_of (genesis_parts (pos 3))

genesis_ok : genesis_parts (pos 3) ≡ ok genesis_list
unfolding genesis_parts prefixed_string length_prefixed u32 u64 utf8
genesis_ok = refl

preimages_apart_example :
    (concat genesis_list ≢ concat ordinary_list)
    × (concat genesis_list ≢ concat (coin_parts (codes "007")))
    × (concat ordinary_list ≢ concat (coin_parts (codes "007")))
preimages_apart_example =
    preimages_apart (pos 3) ordinary (coin (codes "007")) genesis_list ordinary_list
      (coin_parts (codes "007")) genesis_ok ordinary_ok coin_ok
