-- ===== src/Hd/Derive.antt =====
-- src/wallet-creation/crypto-core.ts: a node that is derived from a parent that is kept is the node
-- that is derived from the seed.
use Prim.Native.Nat.{min}
use kalvora_js.Common.{
  ℕ, ◌-◌, ◌≡◌, refl, ap, ◌∙◌, true, false, Option, List, [], ◌∷◌, ◌++◌, map, Text, ok, ◌>>=◌, ◌==◌,
  length, length-take, take, arith, Result-cases, inl, inr,
}
use kalvora_js.Common.Int.{ℤ, ◌+ℤ◌}
use kalvora_js.Bytes.{Bytes, encode_u32_be}
use kalvora_js.Keys.{KeyType, ed25519, ed448, Crypto}
use kalvora_js.Hd.{Curves, parse_derivation_path, split_slashes}
use kalvora_js.Hd.Node.{
  Node, KeyPair, HdWallet, split_node, is_normal, derive_master_node, derive_child_node,
  derive_along, expand_seed, ed448_pair, key_pair, generate_public_key, new_hd_wallet,
  from_parent_node, last_index,
}
use kalvora_js.Hd.{or_zero}
use kalvora_js.Hd.Path.{hardened}

-- The bytes of an HMAC-SHA512.
abbrev pub IsHmac : Curves → Type 0
IsHmac curves = (key message : Bytes) → length (curves.hmac key message) ≡ 64

hardened_not_normal : (n : ℕ) → is_normal (hardened n) ≡ false
unfolding ◌+ℤ◌
hardened_not_normal n = ground arith

sized_take : (bytes : Bytes) → length bytes ≡ 64 → length (take 32 bytes) ≡ 32
sized_take bytes h = length-take 32 bytes ∙ ap (min 32) h

module _ (curves : Curves) where
  pub derive_along-append :
      (node : Node) (is js : List (Option ℤ)) (t : KeyType)
      → derive_along curves node (is ++ js) t
        ≡ (derive_along curves node is t >>= (λ m. derive_along curves m js t))
  unfolding derive_along
  derive_along-append node [] js t = refl
  derive_along-append node (i ∷ is) js t = elim (Result-cases (derive_child_node curves node i t)) [
    | inl (child, is_ok) ↦ rw (is_ok, derive_along) (derive_along-append child is js t)
    | inr (e, failed) ↦ rw (failed, derive_along) refl
  ]

  module _ (sized : IsHmac curves) where
    child_made :
        (node : Node) (n : ℕ) (t : KeyType)
        → (child : Node) × (derive_child_node curves node (hardened n) t ≡ ok child)
          × (length child.private_key ≡ 32)
    unfolding derive_child_node split_node
    child_made node n ed448 = (_, refl, sized_take _ (sized _ _))
    child_made node n ed25519 = (
      split_node (
          curves.hmac node.chain_code
            (0 ∷ node.private_key ++ encode_u32_be (or_zero (hardened n)))),
      rw (hardened_not_normal n) refl,
      sized_take _ (sized _ _),
    )

    pub along_made :
        (node : Node) (ns : List ℕ) (t : KeyType)
        → length node.private_key ≡ 32
        → (m : Node) × (derive_along curves node (map hardened ns) t ≡ ok m)
          × (length m.private_key ≡ 32)
    unfolding derive_along
    along_made node [] t h = (node, refl, h)
    along_made node (n ∷ ns) t h =
        let (child, made, sized_child) = child_made node n t in
        let (m, rest, sized_m) = along_made child ns t sized_child in
        (m, rw (made, derive_along) rest, sized_m)

    pub master_sized :
        (seed : Bytes) (t : KeyType) → length (derive_master_node curves seed t).private_key ≡ 32
    unfolding derive_master_node split_node
    master_sized seed t = sized_take _ (sized _ _)

module _ (curves : Curves) (crypto : Crypto) where
  pub pair_made :
      (t : KeyType) (key : Bytes)
      → length key ≡ 32
      → (pair : KeyPair) × (key_pair curves crypto t key ≡ ok pair)
        × (generate_public_key curves crypto t key ≡ ok pair.public_key)
  unfolding key_pair generate_public_key ed448_pair
  pair_made ed25519 key h = (_, refl, refl)
  pair_made ed448 key h =
      let sized : (length key == 32) ≡ true = ap (λ n. n == 32) h in
      (
        record {
          private_key = expand_seed curves crypto key;
          public_key = curves.ed448_public (expand_seed curves crypto key);
        },
        rw sized refl,
        rw sized refl,
      )

  -- The wallet of a node.
  abbrev pub hd_wallet : Text → KeyType → ℕ → ℤ → Node → Bytes → HdWallet
  hd_wallet path t depth index node key = record {
    derivation_path = path;
    key_type = t;
    depth = depth;
    index = index;
    chain_code = node.chain_code;
    private_key = node.private_key;
    public_key = key;
  }

  pub new_made :
      (seed : Bytes) (path : Text) (indices : List (Option ℤ)) (t : KeyType) (node : Node)
      (key : Bytes)
      → parse_derivation_path path ≡ ok indices
      → derive_along curves (derive_master_node curves seed t) indices t ≡ ok node
      → generate_public_key curves crypto t node.private_key ≡ ok key
      → new_hd_wallet curves crypto seed path t
        ≡ ok (hd_wallet path t (length indices - 1) (last_index indices) node key)
  unfolding new_hd_wallet
  new_made seed path indices t node key parsed along public =
      rw (parsed, new_hd_wallet) (rw along (rw public refl))

  pub from_parent_made :
      (parent : Node) (path : Text) (indices : List (Option ℤ)) (t : KeyType) (node : Node)
      (key : Bytes)
      → derive_along curves parent indices t ≡ ok node
      → generate_public_key curves crypto t node.private_key ≡ ok key
      → from_parent_node curves crypto parent indices path t
        ≡ ok (hd_wallet path t (length (split_slashes path) - 1) (last_index indices) node key)
  unfolding from_parent_node
  from_parent_made parent path indices t node key along public =
      rw (along, from_parent_node) (rw public refl)
