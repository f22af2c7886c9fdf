-- ===== src/Keys.antt =====
-- src/shared/crypto/address-utils.ts and src/shared/crypto/constants.ts: the texts that identify
-- public keys, their bytes and their addresses; `createHashChain` of src/wallet-creation/hash-utils.ts;
-- `isValidWalletPublicKey` of src/adapter/wallet-adapter.ts.
pub mod Format
pub mod Address
pub mod RoundTrip
mod Examples
use kalvora_js.Common.{
  ℕ, zero, suc, ◌+◌, Bool, true, false, not, ◌&&◌, ◌||◌, Option, none, some, List, [], ◌∷◌, ◌++◌,
  Text, codes, text_eq, Result, ok, err, ◌>>=◌, ◌>>◌, throw_if, if◌then◌else◌, ◌==◌, leb, ltb,
  length, take, drop, all,
}
use mathlib.Core.List.{reverse}
use kalvora_js.Js.{starts_with, trim}
use kalvora_js.Js.Utf8.{utf8}
use kalvora_js.Bytes.{Bytes}
use kalvora_js.Validation.{is_base58_text}

pub data KeyType : Type 0 where
  ed25519 ed448 : KeyType

pub data HashType : Type 0 where
  sha3_256 sha3_512 blake3 : HashType

pub data KeyError : Type 0 where
  empty no_underscore nothing_after special no_key_type undecodable : KeyError
  no_bytes no_prefix no_raw bad_address : KeyError

-- The packages that are called. The decoding of Base58 answers `none` where the codec throws.
pub record Crypto : Type 0 where
  pub bs58_encode : Bytes → Text
  pub bs58_decode : Text → Option Bytes
  pub hash : HashType → Bytes → Bytes
  pub utf8_decode : Bytes → Text

abbrev pub key_letter : KeyType → ℕ
key_letter ed25519 = b'A'
key_letter ed448 = b'B'

abbrev pub hash_letter : HashType → ℕ
hash_letter sha3_256 = b'a'
hash_letter sha3_512 = b'b'
hash_letter blake3 = b'c'

-- The hash type that a letter is the prefix of.
unfoldable pub hash_of : ℕ → Option HashType
hash_of c =
    if c == b'a'
    then some sha3_256
    else if c == b'b'
    then some sha3_512
    else if c == b'c'
    then some blake3
    else none

abbrev pub is_empty : {A : Type 0} → List A → Bool
is_empty [] = true
is_empty (a ∷ others) = false

-- The text up to its last underscore, that included, and the text after it.
unfoldable pub split_last : Text → Option (Text × Text)
split_last [] = none
split_last (c ∷ s) = elim (split_last s) [
  | some (before, after) ↦ some (c ∷ before, after)
  | none ↦ if c == b'_' then some (c ∷ [], s) else none
]

abbrev pub or_err : {A : Type 0} → Option A → KeyError → Result KeyError A
or_err none e = err e
or_err (some a) e = ok a

unfoldable pub is_special : Text → Bool
is_special key = starts_with (codes "sc_") key || starts_with (codes "gov_") key

unfoldable pub without_restriction : Text → Text
without_restriction key = if starts_with (codes "r_") key then drop 2 key else key

-- A separator is skipped where there is one.
unfoldable pub skip_separator : Text → Text
skip_separator [] = []
skip_separator (c ∷ s) = if c == b'_' then s else c ∷ s

-- The loop over the hash prefixes. A round drops a letter at least, so that the length is enough fuel.
unfoldable pub hash_types_from : ℕ → Text → List HashType
hash_types_from zero s = []
hash_types_from (suc fuel) [] = []
hash_types_from (suc fuel) (c ∷ s) =
    let others = hash_types_from fuel (skip_separator (drop 1 s)) in
    elim (hash_of c) [ none ↦ [] | some h ↦ h ∷ others ]

unfoldable pub get_hash_types : Text → Result KeyError (List HashType)
get_hash_types key = do
  throw_if (is_empty key) empty
  throw_if (is_special key) special
  let rest = without_restriction key
  throw_if (not (starts_with (codes "A") rest || starts_with (codes "B") rest)) no_key_type
  let tags = skip_separator (drop 2 rest)
  ok (hash_types_from (length tags) tags)

unfoldable pub get_key_type : Text → Result KeyError KeyType
get_key_type key = do
  throw_if (is_empty key) empty
  throw_if (is_special key) special
  let rest = without_restriction key
  if starts_with (codes "A") rest
      then ok ed25519
      else if starts_with (codes "B") rest
      then ok ed448
      else err no_key_type

-- What the handler around the decoding throws: the errors whose text begins as its own go through.
abbrev pub rethrown : KeyError → KeyError
rethrown no_key_type = no_key_type
rethrown e = undecodable

abbrev pub caught {ℓ} : {A : Type ℓ} → Result KeyError A → Result KeyError A
caught (ok a) = ok a
caught (err e) = err (rethrown e)

-- `[AB]_`, hash letters with their underscores, and Base58 to the end, after `r_` or not: the key
-- type's letter and the Base58 part.
unfoldable pub without_tags : Text → Text
without_tags [] = []
without_tags (c ∷ []) = c ∷ []
without_tags (c ∷ d ∷ s) = elim (hash_of c) [
  | none ↦ c ∷ d ∷ s
  | some h ↦ if d == b'_' then without_tags s else c ∷ d ∷ s
]

unfoldable pub type_and_rest : Text → Option (ℕ × Text)
type_and_rest [] = none
type_and_rest (c ∷ []) = none
type_and_rest (c ∷ d ∷ s) =
    if (c == b'A' || c == b'B') && d == b'_' then some (c, without_tags s) else none

unfoldable pub wallet_key_parts : Text → Option (ℕ × Text)
wallet_key_parts key = elim (type_and_rest (without_restriction key)) [
  | none ↦ none
  | some (c, rest) ↦ if is_base58_text rest then some (c, rest) else none
]

-- A byte that may stand in the prefix, as `getPublicKeyIdentifierFromBytes` tells it.
unfoldable pub is_prefix_byte : ℕ → Bool
is_prefix_byte b = (leb 65 b && leb b 66) || (leb 97 b && leb b 99) || b == 95 || b == 114

-- The loop over the bytes from index `i`, with the last underscore seen.
unfoldable pub last_underscore : ℕ → Option ℕ → Bytes → Option ℕ
last_underscore i seen [] = seen
last_underscore i seen (b ∷ bytes) =
    let now = if b == 0x5f then some i else seen in
    let onward = last_underscore (i + 1) now bytes in if is_prefix_byte b then onward else now

abbrev pub first_three : Bytes → Text
first_three bytes = take 3 bytes

module _ (crypto : Crypto) where
  open crypto use {bs58_encode, bs58_decode, hash, utf8_decode}

  -- The hash types are taken from the last to the first.
  unfoldable pub chain_loop : List HashType → Bytes → Bytes
  chain_loop [] bytes = bytes
  chain_loop (h ∷ hashes) bytes = chain_loop hashes (hash h bytes)

  unfoldable pub create_hash_chain : List HashType → Bytes → Bytes
  create_hash_chain hashes bytes = chain_loop (reverse hashes) bytes

  unfoldable pub generate_address : Text → Result KeyError Text
  generate_address key = do
    throw_if (is_empty key) empty
    parts ← or_err (split_last key) no_underscore
    throw_if (is_empty parts.1) nothing_after
    bytes ← or_err (bs58_decode parts.1) undecodable
    hashes ← caught (get_hash_types key)
    if is_empty hashes
        then ok (bs58_encode bytes)
        else ok (bs58_encode (create_hash_chain hashes bytes))

  unfoldable pub is_valid_wallet_key : Text → Bool
  is_valid_wallet_key key = elim (wallet_key_parts key) [
    | none ↦ false
    | some (c, rest) ↦ elim (bs58_decode rest) [
      | none ↦ false
      | some bytes ↦ length bytes == (if c == b'A' then 32 else 57)
    ]
  ]

  unfoldable pub get_public_key_bytes : Text → Result KeyError Bytes
  get_public_key_bytes key = do
    throw_if (is_empty key) empty
    if is_special key then ok (utf8 key) else (do
      parts ← or_err (split_last key) no_underscore
      throw_if (is_empty parts.1) nothing_after
      bytes ← or_err (bs58_decode parts.1) undecodable
      ok (utf8 parts.0 ++ bytes))

  -- The identifier of an ordinary key: its prefix as text, then the Base58 text of the rest.
  unfoldable pub cut_identifier : Bytes → Result KeyError Text
  cut_identifier bytes = do
    last ← or_err (last_underscore 0 none bytes) no_prefix
    throw_if (is_empty (drop (last + 1) bytes)) no_raw
    ok (take (last + 1) bytes ++ bs58_encode (drop (last + 1) bytes))

  unfoldable pub get_identifier : Bytes → Result KeyError Text
  get_identifier bytes = do
    throw_if (is_empty bytes) no_bytes
    if leb 3 (length bytes)
          && (text_eq (first_three bytes) (codes "sc_")
              || text_eq (first_three bytes) (codes "gov"))
        then ok (utf8_decode bytes)
        else cut_identifier bytes

  unfoldable pub sanitize_and_decode : Text → Result KeyError Bytes
  sanitize_and_decode address = do
    throw_if (is_empty address) empty
    throw_if (is_empty (trim address)) empty
    or_err (bs58_decode (trim address)) bad_address
