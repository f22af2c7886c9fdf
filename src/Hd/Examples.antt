-- ===== src/Hd/Examples.antt =====
-- src/wallet-creation/wallet-factory.ts: the theorems at concrete inputs, with a codec that keeps texts
-- and an HMAC that counts.
use kalvora_js.Common.{
  ℕ, ◌≡◌, refl, some, List, [], ◌∷◌, Text, codes, ok, ◌%◌, length, replicate, ◌==◌,
}
use kalvora_js.Common.Int.{pos}
use kalvora_js.Keys.{ed25519, ed448, HashType, sha3_512, blake3, Crypto, hash_letter}
use kalvora_js.Hd.{Curves, path_text, parse_derivation_path}
use kalvora_js.Hd.Node.{HdWallet, KeyPair}
use kalvora_js.Hd.Path.{hardened, parse-path_text}
use kalvora_js.Hd.Factory.{NewWallet, WalletOptions, derive_multiple_wallets}
use kalvora_js.Hd.Batch.{options_of, Singly, derive_multiple-create_wallet}

abbrev crypto : Crypto
crypto = record {
  bs58_encode = λ bytes. bytes;
  bs58_decode = λ t. some t;
  hash = λ h bytes. hash_letter h ∷ bytes;
  utf8_decode = λ bytes. bytes;
}

abbrev curves : Curves
curves = record {
  hmac = λ key message. length key % 256 ∷ length message % 256 ∷ replicate 62 7;
  ed25519_public = λ key. b'7' ∷ key;
  ed448_public = λ key. b'8' ∷ key;
  sha256 = λ bytes. bytes;
  is_mnemonic = λ mnemonic. length mnemonic == 4;
  mnemonic_to_seed = λ mnemonic passphrase. mnemonic;
}

abbrev words : Text
words = codes "wave"

abbrev options : ℕ → WalletOptions
options account = options_of ed448 words [] account 1 0

parse-path_text_example :
    parse_derivation_path (path_text (pos 3) (pos 1) (pos 7))
    ≡ ok (hardened 44 ∷ hardened 5258 ∷ hardened 3 ∷ hardened 1 ∷ hardened 7 ∷ [])
parse-path_text_example = parse-path_text 3 1 7

derive_multiple-create_wallet_example :
    (ws : List NewWallet) × (derive_multiple_wallets curves crypto [] (options 5) (pos 3)
      ≡ ([], ok ws))
    × (length ws ≡ 3)
    × Singly curves crypto options 5 0 ws
derive_multiple-create_wallet_example =
    derive_multiple-create_wallet curves crypto (λ key message. refl) ed448 words [] refl refl refl
      5 1 0 2 refl

abbrev types : List HashType
types = sha3_512 ∷ blake3 ∷ []

abbrev wallet : HdWallet
wallet = record {
  derivation_path = codes "m/44'/5258'/0'/0'/0'";
  key_type = ed25519;
  depth = 4;
  index = pos 2_147_483_648;
  chain_code = [];
  private_key = codes "1";
  public_key = codes "7a";
}

abbrev pair : KeyPair
pair = record { private_key = codes "1"; public_key = codes "7a" }
