-- ===== src/Hd/Batch.antt =====
-- src/wallet-creation/wallet-factory.ts: the wallets that are derived together, from a master node that
-- is kept, are the wallets that are made one at a time.
use mathlib.Core.Path.{ap₂}
use kalvora_js.Common.{
  ℕ, zero, suc, ◌+◌, ◌≡◌, refl, ap, ◌∙◌, true, false, Option, none, some, List, [], ◌∷◌, map, Text,
  ok, ◌>>=◌, length, arith,
}
use kalvora_js.Common.Int.{ℤ, pos, ◌+ℤ◌, ltb_ℤ}
use kalvora_js.Bytes.{Bytes}
use kalvora_js.Keys.{KeyType, Crypto, is_empty}
use kalvora_js.Hd.{
  Curves, path_text, master_path, build_derivation_path, is_zero_or_one, kalvora_type,
}
use kalvora_js.Hd.Node.{
  Node, KeyPair, HdWallet, derive_master_node, derive_along, key_pair, generate_public_key,
  last_index, create_hd_wallet, get_fingerprint,
}
use kalvora_js.Hd.{or_zero}
use kalvora_js.Hd.Path.{
  hardened, parse-path_text, parse-master_path, split_slashes-path_text, validate-path_text,
}
use kalvora_js.Hd.Derive.{
  IsHmac, derive_along-append, along_made, master_sized, pair_made, hd_wallet, new_made,
  from_parent_made,
}
use kalvora_js.Hd.Factory.{
  WalletOptions, NewWallet, generate_kalvora_address, generate_identifier, assemble, assembled,
  assemble_all, wallet_of, generate_seed, prepare_wallet, create_wallet, derive_single, derive_from,
  prepare_master, derive_multiple_wallets,
}

abbrev pub options_of : KeyType → Text → Text → ℕ → ℕ → ℕ → WalletOptions
options_of t mnemonic passphrase account change address = record {
  key_type = t;
  mnemonic = mnemonic;
  passphrase = passphrase;
  hd_options = record {
    account_index = some (pos account);
    change_index = some (pos change);
    address_index = some (pos address);
  };
  seed = none;
}

-- What a wallet signs and is known by: all of it but its depth and the extended keys.
abbrev pub keys_of : NewWallet → ℤ × List Text
keys_of w = (
  w.index,
  w.private_key ∷ w.address ∷ w.public_key ∷ w.derivation_path ∷ w.fingerprint
      ∷ w.public_key_package ∷ [],
)

-- Each is the wallet that `createWallet` makes of its account, from the account `a + k` on.
abbrev pub Singly : Curves → Crypto → (ℕ → WalletOptions) → ℕ → ℕ → List NewWallet → Type 0
Singly curves crypto options a k [] = Unit
Singly curves crypto options a k (v ∷ vs) =
    ((w : NewWallet) × (create_wallet curves crypto [] (options (a + k)) ≡ ([], ok w))
      × (keys_of v ≡ keys_of w)
      × (v.depth ≡ 5)
      × (w.depth ≡ 4))
    × Singly curves crypto options a (suc k) vs

pos_add : (a k : ℕ) → pos a +ℤ pos k ≡ pos (a + k)
unfolding ◌+ℤ◌
pos_add a k = ground arith

module _ (curves : Curves) (crypto : Crypto) (sized : IsHmac curves) (t : KeyType)
    (mnemonic passphrase : Text) (some_words : is_empty mnemonic ≡ false)
    (known : curves.is_mnemonic mnemonic ≡ true)
    (some_seed : is_empty (curves.mnemonic_to_seed mnemonic passphrase) ≡ false) where
  abbrev pub seed : Bytes
  seed = curves.mnemonic_to_seed mnemonic passphrase

  seed_made : generate_seed curves crypto mnemonic passphrase ≡ ok seed
  unfolding generate_seed
  seed_made = rw (some_words, known) refl

  -- The master node, and what is derived from it.
  abbrev pub master : Node
  master =
      (along_made curves sized (derive_master_node curves seed t) (44 ∷ kalvora_type ∷ []) t
        (master_sized curves sized seed t)).0

  abbrev tail_of : ℕ → ℕ → ℕ → List (Option ℤ)
  tail_of a c d = hardened a ∷ hardened c ∷ hardened d ∷ []

  master_made :
      derive_along curves
        (derive_master_node curves seed t)
        (hardened 44 ∷ hardened kalvora_type ∷ [])
        t
      ≡ ok master
  master_made =
      (along_made curves sized (derive_master_node curves seed t) (44 ∷ kalvora_type ∷ []) t
        (master_sized curves sized seed t)).1

  account_made :
      (a c d : ℕ)
      → (node : Node) × (pair : KeyPair) × (derive_along curves master (tail_of a c d) t ≡ ok node)
        × (key_pair curves crypto t node.private_key ≡ ok pair)
        × (generate_public_key curves crypto t node.private_key ≡ ok pair.public_key)
  account_made a c d =
      let (node, along, sized_node) =
        along_made curves sized master (a ∷ c ∷ d ∷ []) t
          (along_made curves sized (derive_master_node curves seed t) (44 ∷ kalvora_type ∷ []) t
            (master_sized curves sized seed t)).2 in
      let (pair, made, public) = pair_made curves crypto t node.private_key sized_node in
      (node, pair, along, made, public)

  pub prepare_master-made :
      (a c d n : ℕ)
      → prepare_master curves crypto (options_of t mnemonic passphrase a c d) (pos (suc n))
        ≡ ok master
  unfolding prepare_master
  prepare_master-made a c d n =
      let count : ltb_ℤ (pos (suc n)) (pos 1) ≡ false = ground arith in
      let (pair, made, public) =
        pair_made curves crypto t master.private_key
          (along_made curves sized (derive_master_node curves seed t) (44 ∷ kalvora_type ∷ []) t
            (master_sized curves sized seed t)).2 in
      let w =
        new_made curves crypto seed master_path _ t master pair.public_key parse-master_path
          master_made public in
      rw (some_words, count) (rw seed_made (rw w refl))

  along_path :
      (a c d : ℕ) (node : Node)
      → derive_along curves master (tail_of a c d) t ≡ ok node
      → derive_along curves
          (derive_master_node curves seed t)
          (hardened 44 ∷ hardened kalvora_type ∷ tail_of a c d)
          t
        ≡ ok node
  along_path a c d node h =
      derive_along-append curves (derive_master_node curves seed t)
        (hardened 44 ∷ hardened kalvora_type ∷ []) (tail_of a c d) t
      ∙ ap (λ r. r >>= (λ m. derive_along curves m (tail_of a c d) t)) master_made
      ∙ h

  path-made :
      (a c d : ℕ)
      → is_zero_or_one (pos c) ≡ true
      → build_derivation_path (options_of t mnemonic passphrase a c d).hd_options
        ≡ ok (path_text (pos a) (pos c) (pos d))
  unfolding build_derivation_path
  path-made a c d change =
      let account : ltb_ℤ (pos a) (pos 0) ≡ false = ground arith in
      let address : ltb_ℤ (pos d) (pos 0) ≡ false = ground arith in
      rw (account, address, change) (rw (validate-path_text a c d) refl)

  prepare_wallet-made :
      (a c d : ℕ) (node : Node) (pair : KeyPair)
      → is_zero_or_one (pos c) ≡ true
      → derive_along curves master (tail_of a c d) t ≡ ok node
      → key_pair curves crypto t node.private_key ≡ ok pair
      → generate_public_key curves crypto t node.private_key ≡ ok pair.public_key
      → prepare_wallet curves crypto (options_of t mnemonic passphrase a c d)
        ≡ ok (
          hd_wallet curves crypto
              (path_text (pos a) (pos c) (pos d))
              t
              4
              (or_zero (hardened d))
              node
              pair.public_key,
          pair,
        )
  unfolding prepare_wallet create_hd_wallet last_index
  prepare_wallet-made a c d node pair change along made public =
      let w =
        new_made curves crypto seed (path_text (pos a) (pos c) (pos d)) _ t node pair.public_key
          (parse-path_text a c d) (along_path a c d node along) public in
      rw some_words (
        rw seed_made (
          rw (path-made a c d change)
            (rw some_seed (rw (validate-path_text a c d) (rw w (rw made refl))))))

  derive_single-made :
      (a c d k : ℕ) (node : Node) (pair : KeyPair)
      → derive_along curves master (tail_of (a + k) c d) t ≡ ok node
      → key_pair curves crypto t node.private_key ≡ ok pair
      → generate_public_key curves crypto t node.private_key ≡ ok pair.public_key
      → derive_single curves crypto master (options_of t mnemonic passphrase a c d) k
        ≡ ok (
          hd_wallet curves crypto
              (path_text (pos (a + k)) (pos c) (pos d))
              t
              5
              (or_zero (hardened d))
              node
              pair.public_key,
          pair,
        )
  unfolding derive_single last_index
  derive_single-made a c d k node pair along made public =
      let w =
        from_parent_made curves crypto master (path_text (pos (a + k)) (pos c) (pos d)) _ t node
          pair.public_key along public in
      rw (pos_add a k) (rw w (rw made (rw (split_slashes-path_text (a + k) c d) refl)))

  abbrev pub options_at : ℕ → ℕ → ℕ → WalletOptions
  options_at c d a = options_of t mnemonic passphrase a c d

  abbrev plain_wallet : ℕ → ℕ → ℕ → ℕ → Node → KeyPair → NewWallet
  plain_wallet a c d depth node pair =
      wallet_of curves crypto
        (hd_wallet curves crypto (path_text (pos a) (pos c) (pos d)) t depth (or_zero (hardened d))
          node pair.public_key)
        pair (crypto.bs58_encode pair.public_key) (generate_identifier crypto pair.public_key t [])

  single_made :
      (a c d : ℕ) (node : Node) (pair : KeyPair)
      → is_zero_or_one (pos c) ≡ true
      → derive_along curves master (tail_of a c d) t ≡ ok node
      → key_pair curves crypto t node.private_key ≡ ok pair
      → generate_public_key curves crypto t node.private_key ≡ ok pair.public_key
      → create_wallet curves crypto [] (options_at c d a)
        ≡ ([], ok (plain_wallet a c d 4 node pair))
  unfolding create_wallet assemble generate_kalvora_address
  single_made a c d node pair change along made public =
      ap (assembled curves crypto [] t)
        (prepare_wallet-made a c d node pair change along made public)

  -- What the waits leave: no account fails.
  pub all_derived :
      (a c d k count : ℕ)
      → (made : List (HdWallet × KeyPair)) × (derive_from curves crypto k count master
            (options_at c d a)
          ≡ map ok made)
        × (length made ≡ count)
  all_derived a c d k zero = ([], refl, refl)
  all_derived a c d k (suc count) =
      let (node, pair, along, made, public) = account_made (a + k) c d in
      let (others, rest, size) = all_derived a c d (suc k) count in
      (
        _ ∷ others,
        ap₂ (λ r l. r ∷ l) (derive_single-made a c d k node pair along made public) rest,
        ap suc size,
      )

  all_made :
      (a c d k count : ℕ)
      → is_zero_or_one (pos c) ≡ true
      → (ws : List NewWallet) × (assemble_all curves crypto [] t
            (derive_from curves crypto k count master (options_at c d a))
          ≡ ([], ok ws))
        × (length ws ≡ count)
        × Singly curves crypto (options_at c d) a k ws
  unfolding assemble_all assemble generate_kalvora_address get_fingerprint
  all_made a c d k zero change = ([], refl, refl, tt)
  all_made a c d k (suc count) change =
      let (node, pair, along, made, public) = account_made (a + k) c d in
      let (ws, rest, size, singly) = all_made a c d (suc k) count change in
      let first = derive_single-made a c d k node pair along made public in
      (
        plain_wallet (a + k) c d 5 node pair ∷ ws,
        rw first (rw rest refl),
        ap suc size,
        (
          (
            plain_wallet (a + k) c d 4 node pair,
            single_made (a + k) c d node pair change along made public,
            refl,
            refl,
            refl,
          ),
          singly,
        ),
      )

  -- Wallets that are derived together, with no hash types, are as many as are asked for, and each is
  -- the wallet that `createWallet` makes of its account: the same keys, address, identifier, path,
  -- index and fingerprint; but the depth is 5 in the one and 4 in the other. This is so for a mnemonic that is one, from any account on, for the change
  -- index 0 or 1, where HMAC-SHA512 answers 64 bytes and the seed is not empty; and none of it fails.
  pub derive_multiple-create_wallet :
      (a c d n : ℕ)
      → is_zero_or_one (pos c) ≡ true
      → (ws : List NewWallet) × (derive_multiple_wallets curves crypto []
            (options_at c d a)
            (pos (suc n))
          ≡ ([], ok ws))
        × (length ws ≡ suc n)
        × Singly curves crypto (options_at c d) a 0 ws
  unfolding derive_multiple_wallets
  derive_multiple-create_wallet a c d n change =
      let (ws, made, size, singly) = all_made a c d 0 (suc n) change in
      (ws, rw (prepare_master-made a c d n) made, size, singly)
