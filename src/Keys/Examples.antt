-- ===== src/Keys/Examples.antt =====
-- src/shared/crypto/address-utils.ts: the theorems at concrete inputs, with a codec that keeps texts.
use kalvora_js.Common.{
  ◌≡◌, ◌≢◌, ◌↔◌, refl, true, false, some, List, [], ◌∷◌, Text, codes, ok, ◌>>=◌, replicate,
}
use kalvora_js.Js.{starts_with}
use kalvora_js.Validation.{is_base58}
use kalvora_js.Keys.{
  ed25519, HashType, blake3, Crypto, hash_of, hash_letter, is_valid_wallet_key, wallet_key_parts,
  without_restriction, without_tags, type_and_rest, generate_address, get_public_key_bytes,
  get_identifier, is_prefix_byte,
}
use kalvora_js.Keys.Format.{identifier, IsWalletKey, is_valid_wallet_key_iff}
use kalvora_js.Keys.Address.{hashed, generate_address-mistaken}
use kalvora_js.Keys.RoundTrip.{get_identifier-get_public_key_bytes, get_identifier-mistaken}

abbrev crypto : Crypto
crypto = record {
  bs58_encode = λ bytes. bytes;
  bs58_decode = λ t. some t;
  hash = λ h bytes. hash_letter h ∷ bytes;
  utf8_decode = λ bytes. bytes;
}

-- A codec that answers with an underscore first.
abbrev odd : Crypto
odd = record crypto { bs58_decode = λ t. some (b'_' ∷ t) }

abbrev key : Text
key = identifier false ed25519 (blake3 ∷ []) (replicate 32 b'7')

key_ok : is_valid_wallet_key crypto key ≡ true
unfolding is_valid_wallet_key wallet_key_parts without_restriction starts_with type_and_rest
    without_tags hash_of is_base58
key_ok = refl

is_valid_wallet_key_iff_example : (is_valid_wallet_key crypto key ≡ true) ↔ IsWalletKey crypto key
is_valid_wallet_key_iff_example = is_valid_wallet_key_iff crypto key

generate_address-mistaken_example :
    (more : List HashType) × (generate_address crypto (identifier false ed25519 [] (codes "c7"))
      ≡ ok (hashed crypto (blake3 ∷ more) (codes "c7")))
generate_address-mistaken_example =
    generate_address-mistaken crypto false ed25519 [] blake3 (codes "7") (codes "c7")
      (refl, (refl, tt)) refl

get_identifier-get_public_key_bytes_example :
    (get_public_key_bytes crypto (identifier true ed25519 [] (codes "77"))
      >>= get_identifier crypto)
    ≡ ok (identifier true ed25519 [] (codes "77"))
unfolding is_prefix_byte
get_identifier-get_public_key_bytes_example =
    get_identifier-get_public_key_bytes crypto true ed25519 [] b'7' (codes "7") b'7' (codes "7")
      (refl, (refl, tt)) refl refl refl

get_identifier-mistaken_example :
    (get_public_key_bytes odd (identifier false ed25519 [] (codes "77")) >>= get_identifier odd)
    ≢ ok (identifier false ed25519 [] (codes "77"))
get_identifier-mistaken_example =
    get_identifier-mistaken odd false ed25519 [] b'7' (codes "7") (codes "_77") (refl, (refl, tt))
      refl refl
