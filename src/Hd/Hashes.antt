-- ===== src/Hd/Hashes.antt =====
-- src/wallet-creation/wallet-factory.ts: which hashes the address of a new wallet is made with.
use mathlib.Core.List.{reverse}
use kalvora_js.Common.{◌≡◌, false, List, [], ◌∷◌}
use kalvora_js.Bytes.{Bytes}
use kalvora_js.Keys.{KeyType, HashType, Crypto}
use kalvora_js.Keys.Format.{identifier}
use kalvora_js.Keys.Address.{hashed}
use kalvora_js.Hd.{Curves}
use kalvora_js.Hd.Node.{KeyPair, HdWallet}
use kalvora_js.Hd.Factory.{NewWallet, sort_hashes, wallet_of}

module _ (curves : Curves) (crypto : Crypto) where
  abbrev made_wallet : List HashType → KeyType → HdWallet → KeyPair → NewWallet
  made_wallet hashes t w pair =
      wallet_of curves crypto w pair (crypto.bs58_encode (hashed crypto hashes pair.public_key))
        (identifier false t (sort_hashes (reverse hashes)) (crypto.bs58_encode pair.public_key))

  -- Each address is that of a key by the hash types in an order, and the next by the reverse order.
  abbrev pub Alternating : List HashType → List NewWallet → Type 0
  Alternating hashes [] = Unit
  Alternating hashes (w ∷ ws) =
      ((key : Bytes) × (w.public_key_package ≡ crypto.bs58_encode key)
        × (w.address ≡ crypto.bs58_encode (hashed crypto hashes key)))
      × Alternating (reverse hashes) ws
