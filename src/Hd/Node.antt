-- ===== src/Hd/Node.antt =====
-- src/wallet-creation/crypto-core.ts: nodes, key pairs and wallets that are derived along a path.
use kalvora_js.Common.{
  ℕ, ◌-◌, ◌%◌, Bool, false, not, Option, none, some, List, [], ◌∷◌, ◌++◌, map, Text, codes, Result,
  ok, err, ◌>>=◌, ◌>>◌, throw_if, if◌then◌else◌, ◌==◌, length, take, drop,
}
use kalvora_js.Common.Int.{ℤ, pos, ltb_ℤ}
use kalvora_js.Js.Utf8.{utf8}
use kalvora_js.Bytes.{Bytes, encode_u32_be, encode_u32_le}
use kalvora_js.Bytes.Hex.{bytes_to_hex}
use kalvora_js.Keys.{KeyType, ed25519, ed448, sha3_256, Crypto, is_empty}
use kalvora_js.Hd.{
  Curves, HdError, bad_path, hardened_offset, key_length, no_path, no_seed, not_hardened,
  parse_derivation_path, split_slashes, validate_slip0010_path, or_zero,
}

pub record Node : Type 0 where
  pub private_key : Bytes
  pub chain_code : Bytes

pub record KeyPair : Type 0 where
  pub private_key : Bytes
  pub public_key : Bytes

pub record HdWallet : Type 0 where
  pub derivation_path : Text
  pub key_type : KeyType
  pub depth : ℕ
  pub index : ℤ
  pub chain_code : Bytes
  pub private_key : Bytes
  pub public_key : Bytes

unfoldable pub split_node : Bytes → Node
split_node bytes = record { private_key = take 32 bytes; chain_code = drop 32 bytes }

abbrev pub seed_key : KeyType → Text
seed_key ed448 = codes "Kalvora seed"
seed_key ed25519 = codes "ed25519 seed"

-- `index < SLIP0010_HARDENED_OFFSET`, which NaN is not.
abbrev pub is_normal : Option ℤ → Bool
is_normal none = false
is_normal (some i) = ltb_ℤ i (pos hardened_offset)

-- `pathParts[pathParts.length - 1] || 0`
unfoldable pub last_index : List (Option ℤ) → ℤ
last_index [] = pos 0
last_index (i ∷ []) = or_zero i
last_index (i ∷ j ∷ indices) = last_index (j ∷ indices)

-- `clamped[56] & 0xFC`
unfoldable pub clamp : Bytes → Bytes
clamp bytes = take 56 bytes ++ map (λ b. b - b % 4) (drop 56 bytes)

module _ (curves : Curves) where
  unfoldable pub derive_master_node : Bytes → KeyType → Node
  derive_master_node seed t = split_node (curves.hmac (utf8 (seed_key t)) seed)

  unfoldable pub derive_child_node : Node → Option ℤ → KeyType → Result HdError Node
  derive_child_node node index ed448 =
      ok (
        split_node
          (curves.hmac node.chain_code (encode_u32_le (or_zero index) ++ node.private_key)))
  derive_child_node node index ed25519 =
      if is_normal index
      then err not_hardened
      else ok (
          split_node
            (curves.hmac node.chain_code (0 ∷ node.private_key ++ encode_u32_be (or_zero index))))

  unfoldable pub derive_along : Node → List (Option ℤ) → KeyType → Result HdError Node
  derive_along node [] t = ok node
  derive_along node (index ∷ indices) t =
      derive_child_node node index t >>= (λ child. derive_along child indices t)

  -- `deriveHDPrivateKey`; what it zeroes is its own.
  unfoldable pub derive_hd_private_key : Bytes → Text → KeyType → Result HdError Bytes
  derive_hd_private_key seed path t = do
    indices ← parse_derivation_path path
    node ← derive_along (derive_master_node seed t) indices t
    ok node.private_key

module _ (curves : Curves) (crypto : Crypto) where
  unfoldable pub expand_seed : Bytes → Bytes
  expand_seed key =
      clamp (take 57 (curves.hmac (crypto.hash sha3_256 key) (utf8 (codes "ed448-expansion"))))

  -- The constructor of `Ed448KeyPair`.
  unfoldable pub ed448_pair : Bytes → Result HdError KeyPair
  ed448_pair key =
      if length key == 32
      then ok (record {
        private_key = expand_seed key;
        public_key = curves.ed448_public (expand_seed key);
      })
      else if length key == 57
      then ok (record { private_key = key; public_key = curves.ed448_public key })
      else err key_length

  -- `generateKeyPair`
  unfoldable pub key_pair : KeyType → Bytes → Result HdError KeyPair
  key_pair ed25519 key = ok (record { private_key = key; public_key = curves.ed25519_public key })
  key_pair ed448 key = ed448_pair key

  unfoldable pub generate_public_key : KeyType → Bytes → Result HdError Bytes
  generate_public_key ed25519 key = ok (curves.ed25519_public key)
  generate_public_key ed448 key = ed448_pair key >>= (λ pair. ok pair.public_key)

  -- The constructor of `SLIP0010HDWallet`.
  unfoldable pub new_hd_wallet : Bytes → Text → KeyType → Result HdError HdWallet
  new_hd_wallet seed path t = do
    indices ← parse_derivation_path path
    node ← derive_along curves (derive_master_node curves seed t) indices t
    public_key ← generate_public_key t node.private_key
    ok (record {
      derivation_path = path;
      key_type = t;
      depth = length indices - 1;
      index = last_index indices;
      chain_code = node.chain_code;
      private_key = node.private_key;
      public_key = public_key;
    })

  unfoldable pub from_parent_node :
      Node → List (Option ℤ) → Text → KeyType → Result HdError HdWallet
  from_parent_node parent indices path t = do
    node ← derive_along curves parent indices t
    public_key ← generate_public_key t node.private_key
    ok (record {
      derivation_path = path;
      key_type = t;
      depth = length (split_slashes path) - 1;
      index = last_index indices;
      chain_code = node.chain_code;
      private_key = node.private_key;
      public_key = public_key;
    })

  abbrev pub extended_key : ℤ → HdWallet → Bytes → Text
  extended_key version w key =
      crypto.bs58_encode
        (encode_u32_be version ++ w.depth % 256 ∷ encode_u32_be w.index ++ w.chain_code ++ key)

  unfoldable pub get_extended_private_key : HdWallet → Text
  get_extended_private_key w = extended_key (pos 78_791_436) w w.private_key

  unfoldable pub get_extended_public_key : HdWallet → Text
  get_extended_public_key w = extended_key (pos 78_791_437) w w.public_key

  unfoldable pub get_fingerprint : HdWallet → Text
  get_fingerprint w = bytes_to_hex (take 4 (curves.sha256 w.public_key))

  unfoldable pub create_hd_wallet : Bytes → Text → KeyType → Result HdError HdWallet
  create_hd_wallet seed path t = do
    throw_if (is_empty seed) no_seed
    throw_if (is_empty path) no_path
    throw_if (not (validate_slip0010_path path)) bad_path
    new_hd_wallet seed path t
