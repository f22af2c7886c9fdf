-- ===== src/Hd/Factory.antt =====
-- src/wallet-creation/wallet-factory.ts, src/wallet-creation/shared.ts and `generateKalvoraAddress` of
-- src/shared/crypto/address-utils.ts: wallets made from a mnemonic. `createHashChain` reverses the
-- array of hash types that it is given, so that each function returns the array as it leaves it.
use kalvora_js.Common.{
  ℕ, zero, suc, not, ◌||◌, Option, none, some, List, [], ◌∷◌, ◌++◌, Text, Result, ok, err, ◌>>=◌,
  ◌>>◌, throw_if, if◌then◌else◌, leb,
}
use mathlib.Core.List.{reverse}
use kalvora_js.Common.Int.{ℤ, pos, negsuc, ◌+ℤ◌, ltb_ℤ}
use kalvora_js.Bytes.{Bytes}
use kalvora_js.Keys.{
  KeyType, HashType, sha3_256, sha3_512, blake3, Crypto, key_letter, hash_letter, is_empty,
  create_hash_chain,
}
use kalvora_js.Hd.{
  Curves, HdError, no_mnemonic, bad_mnemonic, bad_count, HdOptions, harden, master_path, path_text,
  build_derivation_path, bad_start,
}
use kalvora_js.Hd.Node.{
  KeyPair, Node, HdWallet, create_hd_wallet, new_hd_wallet, from_parent_node, key_pair,
  get_extended_private_key, get_extended_public_key, get_fingerprint,
}
use kalvora_js.Hd.{or_zero}

-- Where a hash type's name stands among the names: blake3, sha3-256, sha3-512.
abbrev pub rank : HashType → ℕ
rank blake3 = 0
rank sha3_256 = 1
rank sha3_512 = 2

unfoldable pub insert_hash : HashType → List HashType → List HashType
insert_hash h [] = h ∷ []
insert_hash h (k ∷ hashes) =
    let rest = insert_hash h hashes in if leb (rank h) (rank k) then h ∷ k ∷ hashes else k ∷ rest

-- `[...hashTypes].sort()`
unfoldable pub sort_hashes : List HashType → List HashType
sort_hashes [] = []
sort_hashes (h ∷ hashes) = insert_hash h (sort_hashes hashes)

-- The letters of the hash types, joined by underscores.
unfoldable pub joined_letters : List HashType → Text
joined_letters [] = []
joined_letters (h ∷ []) = hash_letter h ∷ []
joined_letters (h ∷ k ∷ hashes) = hash_letter h ∷ b'_' ∷ joined_letters (k ∷ hashes)

pub record WalletOptions : Type 0 where
  pub key_type : KeyType
  pub mnemonic : Text
  pub passphrase : Text
  pub hd_options : HdOptions
  -- A seed that is computed before, which `createWallet` takes.
  pub seed : Option Bytes

-- A wallet; its `hashTypes` is the caller's array.
pub record NewWallet : Type 0 where
  pub private_key : Text
  pub address : Text
  pub public_key : Text
  pub derivation_path : Text
  pub extended_private_key : Text
  pub extended_public_key : Text
  pub fingerprint : Text
  pub depth : ℕ
  pub index : ℤ
  pub public_key_package : Text

module _ (crypto : Crypto) where
  unfoldable pub generate_kalvora_address : List HashType → Bytes → List HashType × Text
  generate_kalvora_address [] key = ([], crypto.bs58_encode key)
  generate_kalvora_address (h ∷ hashes) key =
      (reverse (h ∷ hashes), crypto.bs58_encode (create_hash_chain crypto (h ∷ hashes) key))

  unfoldable pub generate_identifier : Bytes → KeyType → List HashType → Text
  generate_identifier key t [] = key_letter t ∷ b'_' ∷ crypto.bs58_encode key
  generate_identifier key t (h ∷ hashes) =
      key_letter t ∷ b'_' ∷ joined_letters (sort_hashes (h ∷ hashes))
      ++ b'_' ∷ crypto.bs58_encode key

module _ (curves : Curves) (crypto : Crypto) where
  abbrev pub wallet_of : HdWallet → KeyPair → Text → Text → NewWallet
  wallet_of w pair address identifier = record {
    private_key = crypto.bs58_encode pair.private_key;
    address = address;
    public_key = identifier;
    derivation_path = w.derivation_path;
    extended_private_key = get_extended_private_key curves crypto w;
    extended_public_key = get_extended_public_key curves crypto w;
    fingerprint = get_fingerprint curves crypto w;
    depth = w.depth;
    index = w.index;
    public_key_package = crypto.bs58_encode pair.public_key;
  }

  -- The address is made first, and the identifier from the array that this leaves.
  unfoldable pub assemble : List HashType → KeyType → HdWallet × KeyPair → List HashType × NewWallet
  assemble hashes t (w, pair) =
      let made = generate_kalvora_address crypto hashes pair.public_key in
      (made.0, wallet_of w pair made.1 (generate_identifier crypto pair.public_key t made.0))

  unfoldable pub generate_seed : Text → Text → Result HdError Bytes
  generate_seed mnemonic passphrase = do
    throw_if (is_empty mnemonic || not (curves.is_mnemonic mnemonic)) bad_mnemonic
    ok (curves.mnemonic_to_seed mnemonic passphrase)

  abbrev pub seed_of : WalletOptions → Result HdError Bytes
  seed_of options = elim options.seed [
    | some seed ↦ ok seed
    | none ↦ generate_seed options.mnemonic options.passphrase
  ]

  abbrev pub with_pair : KeyType → HdWallet → Result HdError (HdWallet × KeyPair)
  with_pair t w = do pair ← key_pair curves crypto t w.private_key; ok (w, pair)

  -- `createWallet` up to the address.
  unfoldable pub prepare_wallet : WalletOptions → Result HdError (HdWallet × KeyPair)
  prepare_wallet options = do
    throw_if (is_empty options.mnemonic) no_mnemonic
    seed ← seed_of options
    path ← build_derivation_path options.hd_options
    w ← create_hd_wallet curves crypto seed path options.key_type
    with_pair options.key_type w

  abbrev pub assembled :
      List HashType
      → KeyType
      → Result HdError (HdWallet × KeyPair)
      → List HashType × Result HdError NewWallet
  assembled hashes t (err e) = (hashes, err e)
  assembled hashes t (ok made) = let done = assemble hashes t made in (done.0, ok done.1)

  unfoldable pub create_wallet :
      List HashType → WalletOptions → List HashType × Result HdError NewWallet
  create_wallet hashes options = assembled hashes options.key_type (prepare_wallet options)

  -- `deriveSingleWallet` up to its wait, for the account `offset` places on.
  unfoldable pub derive_single : Node → WalletOptions → ℕ → Result HdError (HdWallet × KeyPair)
  derive_single master options offset =
      let account = or_zero options.hd_options.account_index +ℤ pos offset in
      let change = or_zero options.hd_options.change_index in
      let address = or_zero options.hd_options.address_index in
      (do
        w ←
            from_parent_node curves crypto master
              (harden (some account) ∷ harden (some change) ∷ harden (some address) ∷ [])
              (path_text account change address) options.key_type
        with_pair options.key_type w)

  -- What follows the waits, in their order. The first account that fails is the error that is
  -- thrown, and those that do not fail are still assembled.
  unfoldable pub assemble_all :
      List HashType
      → KeyType
      → List (Result HdError (HdWallet × KeyPair))
      → List HashType × Result HdError (List NewWallet)
  assemble_all hashes t [] = (hashes, ok [])
  assemble_all hashes t (made ∷ others) =
      let first = assembled hashes t made in
      let rest = assemble_all first.0 t others in
      (rest.0, first.1 >>= (λ w. rest.1 >>= (λ ws. ok (w ∷ ws))))

  abbrev pub derive_from : ℕ → ℕ → Node → WalletOptions → List (Result HdError (HdWallet × KeyPair))
  derive_from first zero master options = []
  derive_from first (suc count) master options =
      derive_single master options first ∷ derive_from (suc first) count master options

  -- `deriveMultipleWallets` up to the waits: the master node, from which all accounts are derived.
  unfoldable pub prepare_master : WalletOptions → ℤ → Result HdError Node
  prepare_master options count = do
    throw_if (is_empty options.mnemonic) no_mnemonic
    throw_if (ltb_ℤ count (pos 1)) bad_count
    seed ← generate_seed options.mnemonic options.passphrase
    w ← new_hd_wallet curves crypto seed master_path options.key_type
    ok (record { private_key = w.private_key; chain_code = w.chain_code })

  abbrev pub count_of : ℤ → ℕ
  count_of (pos n) = n
  count_of (negsuc n) = 0

  abbrev pub derived_from :
      List HashType
      → WalletOptions
      → ℤ
      → Result HdError Node
      → List HashType × Result HdError (List NewWallet)
  derived_from hashes options count (err e) = (hashes, err e)
  derived_from hashes options count (ok master) =
      assemble_all hashes options.key_type (derive_from 0 (count_of count) master options)

  unfoldable pub derive_multiple_wallets :
      List HashType → WalletOptions → ℤ → List HashType × Result HdError (List NewWallet)
  derive_multiple_wallets hashes options count =
      derived_from hashes options count (prepare_master options count)

module _ (curves : Curves) (crypto : Crypto) where
  -- The loop, with the number of addresses left and the index of the next account.
  unfoldable pub addresses_from : Bytes → KeyType → ℕ → ℤ → Result HdError (List Text)
  addresses_from seed t zero account = ok []
  addresses_from seed t (suc left) account = do
    path ←
        build_derivation_path
          (record { account_index = some account; change_index = none; address_index = none })
    w ← create_hd_wallet curves crypto seed path t
    addresses ← addresses_from seed t left (account +ℤ pos 1)
    ok (crypto.bs58_encode w.public_key ∷ addresses)

  unfoldable pub derive_multiple_addresses : Bytes → KeyType → ℤ → ℤ → Result HdError (List Text)
  derive_multiple_addresses seed t (negsuc count) start = err bad_count
  derive_multiple_addresses seed t (pos zero) start = err bad_count
  derive_multiple_addresses seed t (pos (suc count)) start =
      throw_if (ltb_ℤ start (pos 0)) bad_start >> addresses_from seed t (suc count) start
