-- ===== src/ContractId.antt =====
-- src/protocol/contract-id.ts: the preimages of contract identifiers and their checksummed Base58
-- form. The hash and the Base58 codec are third-party packages, the parameter `Primitives`.
pub mod Codes
pub mod Fields
pub mod Decimal
pub mod Preimage
pub mod Domains
pub mod Canonical
pub mod Toy
mod Examples
use mathlib.Core.List.{reverse}
use kalvora_js.Common.{
  ℕ, zero, suc, ◌+◌, ◌-◌, ◌*◌, ◌/◌, ◌%◌, ◌^◌, ◌<◌, ◌≡◌, Bool, true, false, not, ◌&&◌, ◌||◌, Option,
  none, some, List, [], ◌∷◌, ◌++◌, Result, ok, err, ◌>>=◌, ◌>>◌, throw_if, ltb, leb, ◌==◌,
  if◌then◌else◌, length, take, drop, get_elem?, replicate, Text, codes, text_eq, all,
}
use kalvora_js.Common.Int.{ℤ, pos, negsuc}
use kalvora_js.Js.{trim}
use kalvora_js.Js.Utf8.{utf8}
use kalvora_js.Js.Value.{Value, string}
use kalvora_js.Bytes.{Bytes, IsBytes, big_bytes, concat_loop, total_length}

pub data IdError : Type 0 where
  u8_range u32_range u64_range not_digits digest_size data_hash_size : IdError

pub record Primitives : Type 0 where
  pub blake3 : Bytes → Bytes
  pub bs58_encode : Bytes → Text
  -- `none` where the codec throws.
  pub bs58_decode : Text → Option Bytes

pub record Denomination : Type 0 where
  pub denomination_name : Text
  pub amount : Text

pub record Release : Type 0 where
  pub seconds : ℤ
  pub nanos : ℤ
  pub amount : Text

pub record ContractData : Type 0 where
  pub symbol : Text
  pub contract_type : ℤ
  pub max_supply : Option Text
  pub coin_denomination : Option Denomination
  pub max_supply_release : Option (List Release)

pub record OrdinaryId : Type 0 where
  pub authorization_type : ℤ
  pub key_algorithm : ℤ
  pub authorization_bytes : Bytes
  pub vanity_nonce : ℤ
  pub contract_data_hash : Bytes

abbrev pub Parts : Type 0
Parts = Result IdError (List Bytes)

-- The copies of each part at a running offset, into one zeroed buffer.
unfoldable pub concat : List Bytes → Bytes
concat parts = concat_loop (replicate (total_length parts) 0) 0 parts

unfoldable pub u8 : ℤ → Result IdError Bytes
u8 (negsuc n) = err u8_range
u8 (pos n) = if ltb 0xff n then err u8_range else ok (n ∷ [])

unfoldable pub u32 : ℤ → Result IdError Bytes
u32 (negsuc n) = err u32_range
u32 (pos n) = if ltb 0xffff_ffff n then err u32_range else ok (big_bytes 4 n)

-- The high and the low half, as two big-endian words.
unfoldable pub u64 : ℤ → Result IdError Bytes
u64 (negsuc n) = err u64_range
u64 (pos n) =
    if ltb 0xffff_ffff_ffff_ffff n
    then err u64_range
    else ok (big_bytes 4 (n / 2 ^ 32) ++ big_bytes 4 (n % 2 ^ 32))

unfoldable pub length_prefixed : Bytes → Result IdError Bytes
length_prefixed bytes = do size ← u32 (pos (length bytes)); ok (concat (size ∷ bytes ∷ []))

unfoldable pub prefixed_string : Text → Result IdError Bytes
prefixed_string value = length_prefixed (utf8 value)

abbrev pub is_digit : ℕ → Bool
is_digit c = leb b'0' c && leb c b'9'

unfoldable pub strip_zeros : Text → Text
strip_zeros [] = []
strip_zeros (c ∷ s) = if c == b'0' then strip_zeros s else c ∷ s

unfoldable pub canonical_decimal : Text → Result IdError Text
unfolding strip_zeros
canonical_decimal value =
    if text_eq value [] || not (all is_digit value)
    then err not_digits
    else (let stripped = strip_zeros value in
        ok (if text_eq stripped [] then b'0' ∷ [] else stripped))

abbrev domain_contract_data : Text
domain_contract_data = codes "KALVORA_CONTRACT_DATA_V1"

abbrev domain_ordinary_id : Text
domain_ordinary_id = codes "KALVORA_CONTRACT_ID_V1"

abbrev domain_genesis_id : Text
domain_genesis_id = codes "KALVORA_NATIVE_TOKEN_ID_V1"

abbrev domain_checksum : Text
domain_checksum = codes "KALVORA_CONTRACT_ID_CHECKSUM_V1"

abbrev network_id : Text
network_id = codes "KALVORA_MAINNET_V1"

unfoldable pub head_parts : ContractData → Parts
head_parts input = do
  domain ← prefixed_string domain_contract_data
  symbol ← prefixed_string input.symbol
  kind ← u32 input.contract_type
  ok (domain ∷ symbol ∷ kind ∷ [])

unfoldable pub supply_parts : Option Text → Parts
supply_parts (some supply) = do
  flag ← u8 (pos 1)
  digits ← canonical_decimal supply
  amount ← prefixed_string digits
  ok (flag ∷ amount ∷ [])
supply_parts none = do flag ← u8 (pos 0); ok (flag ∷ [])

unfoldable pub denomination_parts : Option Denomination → Parts
denomination_parts (some d) = do
  flag ← u8 (pos 1)
  name ← prefixed_string d.denomination_name
  digits ← canonical_decimal d.amount
  amount ← prefixed_string digits
  ok (flag ∷ name ∷ amount ∷ [])
denomination_parts none = do flag ← u8 (pos 0); ok (flag ∷ [])

-- The three parts that one entry of the release schedule pushes.
unfoldable pub release_parts : Release → Parts
release_parts entry = do
  seconds ← u64 entry.seconds
  nanos ← u32 entry.nanos
  digits ← canonical_decimal entry.amount
  amount ← prefixed_string digits
  ok (seconds ∷ nanos ∷ amount ∷ [])

unfoldable pub entries_parts : List Release → Parts
entries_parts [] = ok []
entries_parts (entry ∷ entries) = do
  parts ← release_parts entry
  rest ← entries_parts entries
  ok (parts ++ rest)

abbrev pub releases_of : ContractData → List Release
releases_of input = elim input.max_supply_release [ none ↦ [] | some entries ↦ entries ]

unfoldable pub schedule_parts : List Release → Parts
schedule_parts entries = do
  count ← u32 (pos (length entries))
  parts ← entries_parts entries
  ok (count ∷ parts)

-- The parts that `deriveContractDataHash` hashes, in the order of its pushes.
unfoldable pub contract_data_parts : ContractData → Parts
contract_data_parts input = do
  head ← head_parts input
  supply ← supply_parts input.max_supply
  denomination ← denomination_parts input.coin_denomination
  schedule ← schedule_parts (releases_of input)
  ok (head ++ (supply ++ (denomination ++ schedule)))

unfoldable pub genesis_parts : ℤ → Parts
genesis_parts vanity_nonce = do
  domain ← prefixed_string domain_genesis_id
  network ← prefixed_string network_id
  nonce ← u64 vanity_nonce
  ok (domain ∷ network ∷ nonce ∷ [])

unfoldable pub ordinary_parts : OrdinaryId → Parts
ordinary_parts input = do
  domain ← prefixed_string domain_ordinary_id
  network ← prefixed_string network_id
  authorization ← u8 input.authorization_type
  algorithm ← u8 input.key_algorithm
  creator ← length_prefixed input.authorization_bytes
  nonce ← u64 input.vanity_nonce
  data_hash ← length_prefixed input.contract_data_hash
  ok (domain ∷ network ∷ authorization ∷ algorithm ∷ creator ∷ nonce ∷ data_hash ∷ [])

-- `checksum[i] === expected[i]`, where a missing element is `undefined`.
abbrev same_element : Option ℕ → Option ℕ → Bool
same_element none none = true
same_element none (some y) = false
same_element (some x) none = false
same_element (some x) (some y) = x == y

abbrev same_at : ℕ → Bytes → Bytes → Bool
same_at i xs ys = same_element (get_elem? xs i) (get_elem? ys i)

module _ (p : Primitives) where
  open p use {blake3, bs58_encode, bs58_decode}

  unfoldable pub derive_contract_data_hash : ContractData → Result IdError Bytes
  derive_contract_data_hash input = do parts ← contract_data_parts input; ok (blake3 (concat parts))

  unfoldable pub contract_id_checksum : Bytes → Result IdError Bytes
  contract_id_checksum digest = do
    throw_if (not (length digest == 32)) digest_size
    domain ← prefixed_string domain_checksum
    body ← length_prefixed digest
    ok (take 4 (blake3 (concat (domain ∷ body ∷ []))))

  unfoldable pub encode_contract_id : Bytes → Result IdError Text
  encode_contract_id digest = do
    checksum ← contract_id_checksum digest
    ok (bs58_encode (concat (digest ∷ checksum ∷ [])))

  unfoldable pub derive_genesis_contract_id : ℤ → Result IdError Text
  derive_genesis_contract_id vanity_nonce = do
    parts ← genesis_parts vanity_nonce
    encode_contract_id (blake3 (concat parts))

  unfoldable pub derive_ordinary_contract_id : OrdinaryId → Result IdError Text
  derive_ordinary_contract_id input = do
    throw_if (not (length input.contract_data_hash == 32)) data_hash_size
    parts ← ordinary_parts input
    encode_contract_id (blake3 (concat parts))

  -- The last step of `isCanonicalContractId`: the four bytes behind the digest.
  unfoldable pub checksum_matches : Bytes → Bool
  checksum_matches decoded = elim (contract_id_checksum (take 32 decoded)) [
    | err e ↦ false  -- not reached: the digest has 32 bytes here
    | ok expected ↦
        let checksum = drop 32 decoded in
        same_at 0 checksum expected
        && same_at 1 checksum expected
        && same_at 2 checksum expected
        && same_at 3 checksum expected
  ]

  unfoldable pub is_canonical_text : Text → Bool
  is_canonical_text value =
      if text_eq value [] || not (text_eq value (trim value))
      then false
      else elim (bs58_decode value) [
        | none ↦ false
        | some decoded ↦
            if not (length decoded == 36) || not (text_eq (bs58_encode decoded) value)
            then false
            else checksum_matches decoded
      ]

  unfoldable pub is_canonical_contract_id : {D : Type 0} → Value D → Bool
  is_canonical_contract_id (string value) = is_canonical_text value
  is_canonical_contract_id _ = false

  -- Digest and checksum; `none` is `undefined`.
  unfoldable pub decode_contract_id : Text → Option (Bytes × Bytes)
  decode_contract_id value =
      if not (is_canonical_text value) then none else elim (bs58_decode value) [
        | none ↦ none
        | some decoded ↦ some (take 32 decoded, drop 32 decoded)
      ]
