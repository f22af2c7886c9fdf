-- ===== src/Keys/Address.antt =====
-- src/shared/crypto/address-utils.ts: which hashes `generateAddressFromPublicKey` applies.
use mathlib.Core.List.{reverse, reverse-cons}
use native.Mathlib.Nat.{zero-add, suc-add}
use kalvora_js.Common.{
  ℕ, suc, ◌+◌, ◌≡◌, refl, ap, ◌∙◌, Bool, true, false, none, some, List, [], ◌∷◌, ◌++◌, Text, Result,
  ok, length, drop, if◌then◌else◌, arith,
}
use kalvora_js.Js.{starts_with}
use kalvora_js.Bytes.{Bytes}
use kalvora_js.Validation.{is_base58_text}
use kalvora_js.Keys.{
  KeyType, ed25519, ed448, HashType, sha3_256, sha3_512, blake3, KeyError, Crypto, key_letter,
  hash_letter, hash_of, is_empty, split_last, is_special, without_restriction, skip_separator,
  hash_types_from, get_hash_types, chain_loop, create_hash_chain, generate_address,
  is_valid_wallet_key,
}
use kalvora_js.Keys.Format.{
  tagged, identifier, NoUnderscore, hash_of-hash_letter, base58-NoUnderscore,
  is_valid_wallet_key_iff,
}

abbrev pub tags : List HashType → Text
tags [] = []
tags (h ∷ hashes) = hash_letter h ∷ b'_' ∷ tags hashes

-- What stands before the Base58 part.
abbrev pub prefix : Bool → KeyType → List HashType → Text
prefix true t hashes = b'r' ∷ b'_' ∷ key_letter t ∷ b'_' ∷ tags hashes
prefix false t hashes = key_letter t ∷ b'_' ∷ tags hashes

split_last-none : (b : Text) → NoUnderscore b → split_last b ≡ none
unfolding split_last
split_last-none [] h = refl
split_last-none (c ∷ b) (p, h) = rw (split_last-none b h, split_last) (rw p refl)

split_last_more :
    (c : ℕ) (s before after : Text)
    → split_last s ≡ some (before, after)
    → split_last (c ∷ s) ≡ some (c ∷ before, after)
unfolding split_last
split_last_more c s before after h = rw (h, split_last) refl

split_last-tagged :
    (hashes : List HashType) (b : Text)
    → NoUnderscore b
    → split_last (b'_' ∷ tagged hashes b) ≡ some (b'_' ∷ tags hashes, b)
unfolding split_last
split_last-tagged [] b h = rw (split_last-none b h, split_last) refl
split_last-tagged (k ∷ hashes) b h =
    split_last_more b'_' (hash_letter k ∷ b'_' ∷ tagged hashes b)
      (hash_letter k ∷ b'_' ∷ tags hashes) b
      (split_last_more (hash_letter k) (b'_' ∷ tagged hashes b) (b'_' ∷ tags hashes) b
        (split_last-tagged hashes b h))

split_last-unrestricted :
    (t : KeyType) (hashes : List HashType) (b : Text)
    → NoUnderscore b
    → split_last (identifier false t hashes b) ≡ some (prefix false t hashes, b)
split_last-unrestricted t hashes b h =
    split_last_more (key_letter t) (b'_' ∷ tagged hashes b) (b'_' ∷ tags hashes) b
      (split_last-tagged hashes b h)

pub split_last-identifier :
    (restricted : Bool) (t : KeyType) (hashes : List HashType) (b : Text)
    → NoUnderscore b
    → split_last (identifier restricted t hashes b) ≡ some (prefix restricted t hashes, b)
split_last-identifier true t hashes b h =
    split_last_more b'r' (b'_' ∷ identifier false t hashes b) (b'_' ∷ prefix false t hashes) b (
      split_last_more b'_' (identifier false t hashes b) (prefix false t hashes) b
        (split_last-unrestricted t hashes b h))
split_last-identifier false t hashes b h = split_last-unrestricted t hashes b h

-- A letter that is the prefix of no hash type stands first.
abbrev pub StartsPlain : Text → Type 0
StartsPlain [] = Unit {0}
StartsPlain (c ∷ b) = hash_of c ≡ none

skip_separator_none : (s : Text) → NoUnderscore s → skip_separator s ≡ s
unfolding skip_separator
skip_separator_none [] h = refl
skip_separator_none (c ∷ s) (p, h) = rw p refl

skip_separator-tagged :
    (hashes : List HashType) (b : Text)
    → NoUnderscore b
    → skip_separator (tagged hashes b) ≡ tagged hashes b
unfolding skip_separator
skip_separator-tagged [] b h = skip_separator_none b h
skip_separator-tagged (sha3_256 ∷ hashes) b h = refl
skip_separator-tagged (sha3_512 ∷ hashes) b h = refl
skip_separator-tagged (blake3 ∷ hashes) b h = refl

-- After the tags the loop goes on with the Base58 part.
hash_types_from-tagged :
    (fuel : ℕ) (hashes : List HashType) (b : Text)
    → NoUnderscore b
    → hash_types_from (length hashes + fuel) (tagged hashes b) ≡ hashes ++ hash_types_from fuel b
unfolding hash_types_from
hash_types_from-tagged fuel [] b h = rw zero-add refl
hash_types_from-tagged fuel (k ∷ hashes) b h =
    rw (suc-add, hash_types_from)
      (rw (hash_of-hash_letter k, skip_separator-tagged hashes b h)
        (ap (λ l. k ∷ l) (hash_types_from-tagged fuel hashes b h)))

tag_taken :
    (fuel m : ℕ) (h : HashType) (b : Text)
    → m ≡ suc fuel
    → hash_types_from m (hash_letter h ∷ b) ≡ h ∷ hash_types_from fuel (skip_separator (drop 1 b))
unfolding hash_types_from
tag_taken fuel m h b e = rw (e, hash_types_from) (rw (hash_of-hash_letter h) refl)

length-tagged :
    (hashes : List HashType) (b : Text)
    → length (tagged hashes b) ≡ length hashes + (length hashes + length b)
length-tagged [] b = omega arith
length-tagged (h ∷ hashes) b = omega (arith, length-tagged hashes b)

get_hash_types-identifier :
    (restricted : Bool) (t : KeyType) (hashes : List HashType) (b : Text)
    → NoUnderscore b
    → get_hash_types (identifier restricted t hashes b)
      ≡ ok (hashes ++ hash_types_from (length hashes + length b) b)
unfolding get_hash_types is_special without_restriction starts_with
get_hash_types-identifier true ed25519 hashes b h =
    rw
      (
        skip_separator-tagged hashes b h,
        length-tagged hashes b,
        hash_types_from-tagged (length hashes + length b) hashes b h,
      )
      refl
get_hash_types-identifier true ed448 hashes b h =
    rw
      (
        skip_separator-tagged hashes b h,
        length-tagged hashes b,
        hash_types_from-tagged (length hashes + length b) hashes b h,
      )
      refl
get_hash_types-identifier false ed25519 hashes b h =
    rw
      (
        skip_separator-tagged hashes b h,
        length-tagged hashes b,
        hash_types_from-tagged (length hashes + length b) hashes b h,
      )
      refl
get_hash_types-identifier false ed448 hashes b h =
    rw
      (
        skip_separator-tagged hashes b h,
        length-tagged hashes b,
        hash_types_from-tagged (length hashes + length b) hashes b h,
      )
      refl

module _ (crypto : Crypto) where
  -- The first hash type is applied last.
  abbrev pub hashed : List HashType → Bytes → Bytes
  hashed [] bytes = bytes
  hashed (h ∷ hashes) bytes = crypto.hash h (hashed hashes bytes)

  chain_loop-append :
      (hs ks : List HashType) (bytes : Bytes)
      → chain_loop crypto (hs ++ ks) bytes ≡ chain_loop crypto ks (chain_loop crypto hs bytes)
  unfolding chain_loop
  chain_loop-append [] ks bytes = refl
  chain_loop-append (h ∷ hs) ks bytes = chain_loop-append hs ks (crypto.hash h bytes)

  pub create_hash_chain-hashed :
      (hashes : List HashType) (bytes : Bytes)
      → create_hash_chain crypto hashes bytes ≡ hashed hashes bytes
  unfolding create_hash_chain chain_loop
  create_hash_chain-hashed [] bytes = refl
  create_hash_chain-hashed (h ∷ hashes) bytes =
      ap (λ l. chain_loop crypto l bytes) (reverse-cons h hashes)
      ∙ chain_loop-append (reverse hashes) (h ∷ []) bytes
      ∙ ap (crypto.hash h) (create_hash_chain-hashed hashes bytes)

  encoded :
      (hashes : List HashType) (bytes : Bytes)
      → if◌then◌else◌ {A = Result KeyError Text}
          (is_empty hashes)
          (ok (crypto.bs58_encode bytes))
          (ok (crypto.bs58_encode (create_hash_chain crypto hashes bytes)))
        ≡ ok (crypto.bs58_encode (hashed hashes bytes))
  encoded [] bytes = refl
  encoded (h ∷ hashes) bytes =
      ap (λ l. ok (crypto.bs58_encode l)) (create_hash_chain-hashed (h ∷ hashes) bytes)

  address_of_parts :
      (restricted : Bool) (t : KeyType) (hashes : List HashType) (c : ℕ) (b : Text) (bytes : Bytes)
      → NoUnderscore (c ∷ b)
      → crypto.bs58_decode (c ∷ b) ≡ some bytes
      → generate_address crypto (identifier restricted t hashes (c ∷ b))
        ≡ ok (
            crypto.bs58_encode
              (hashed (hashes ++ hash_types_from (length hashes + length (c ∷ b)) (c ∷ b)) bytes))
  unfolding generate_address
  address_of_parts true t hashes c b bytes h decoded =
      rw (split_last-identifier true t hashes (c ∷ b) h, generate_address)
        (rw (decoded, get_hash_types-identifier true t hashes (c ∷ b) h) (encoded _ bytes))
  address_of_parts false t hashes c b bytes h decoded =
      rw (split_last-identifier false t hashes (c ∷ b) h, generate_address)
        (rw (decoded, get_hash_types-identifier false t hashes (c ∷ b) h) (encoded _ bytes))

  -- Where the Base58 part begins with the letter of a hash type, that letter is taken for a tag: the
  -- address has one more hash at least than the identifier names.
  pub generate_address-mistaken :
      (restricted : Bool) (t : KeyType) (hashes : List HashType) (h : HashType) (b : Text)
      (bytes : Bytes)
      → NoUnderscore (hash_letter h ∷ b)
      → crypto.bs58_decode (hash_letter h ∷ b) ≡ some bytes
      → (more : List HashType) × (generate_address crypto
            (identifier restricted t hashes (hash_letter h ∷ b))
          ≡ ok (crypto.bs58_encode (hashed (hashes ++ h ∷ more) bytes)))
  generate_address-mistaken restricted t hashes h b bytes plain decoded = (
    hash_types_from (length hashes + length b) (skip_separator (drop 1 b)),
    address_of_parts restricted t hashes (hash_letter h) b bytes plain decoded
        ∙ ap (λ l. ok (crypto.bs58_encode (hashed (hashes ++ l) bytes)))
            (tag_taken (length hashes + length b) (length hashes + length (hash_letter h ∷ b)) h b
              (omega arith)),
  )

  of_format :
      (key : Text) (restricted : Bool) (t : KeyType) (hashes : List HashType) (b : Text)
      (bytes : Bytes)
      → key ≡ identifier restricted t hashes b
      → is_base58_text b ≡ true
      → crypto.bs58_decode b ≡ some bytes
      → (address : Text) × (generate_address crypto key ≡ ok address)
  of_format key restricted t hashes [] bytes is base58 decoded = cc base58
  of_format key restricted t hashes (c ∷ b) bytes is base58 decoded =
      let found =
        address_of_parts restricted t hashes c b bytes (base58-NoUnderscore (c ∷ b) base58)
          decoded in
      (_, ap (generate_address crypto) is ∙ found)

  -- An identifier that is accepted has an address.
  pub generate_address-accepts :
      (key : Text)
      → is_valid_wallet_key crypto key ≡ true
      → (address : Text) × (generate_address crypto key ≡ ok address)
  generate_address-accepts key valid =
      let (restricted, t, hashes, b, bytes, is, base58, decoded, _) =
        (is_valid_wallet_key_iff crypto key).0 valid in
      of_format key restricted t hashes b bytes is base58 decoded
